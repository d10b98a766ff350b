-- ===== src/Prelude/Arrivals.antt =====
-- Events with GLib's choice in g_main_context_invoke_full: to run the function at once, or to attach
-- it to the main context.
use mathlib.Core.Bool.{Bool, true, false}
use mathlib.Core.List.{List, [], ◌∷◌}

module _ {A : Type 0} where
  -- What is run at once, in the order of arrival.
  abbrev pub at_once : List (Bool × A) → List A
  at_once [] = []
  at_once ((true, event) ∷ rest) = event ∷ at_once rest
  at_once ((false, event) ∷ rest) = at_once rest

  -- What is attached, in the order of arrival.
  abbrev pub attached : List (Bool × A) → List A
  attached [] = []
  attached ((true, event) ∷ rest) = attached rest
  attached ((false, event) ∷ rest) = event ∷ attached rest
