-- ===== src/Metadata/History.antt =====
-- Histories of a metadata object, of src/pwg-metadata.c: all operations in any order keep it steady.
use pipewire_gobject.Prelude.{ℕ, refl, String, Bool, Option, List, [], ◌∷◌}
use pipewire_gobject.Prelude.Int.{ℤ}
use pipewire_gobject.Core.Connection.{Core, ConnectAnswers}
use pipewire_gobject.Global.{DictItem}
use pipewire_gobject.Metadata.State.{Metadata, removed, changed, quiet, metadata_new}
use pipewire_gobject.Metadata.Operations.{BindAnswers, on_property, on_global, on_global_remove}
use pipewire_gobject.Metadata.Control.{stop, start, clear, drain}
use pipewire_gobject.Metadata.Steady.{
  IsSteady, queue-IsSteady, queue_event-IsSteady, on_global-IsSteady, run_sources-IsSteady,
}
use pipewire_gobject.Metadata.Calls.{
  stop-IsSteady, lose_core, lose_core-IsSteady, start-IsSteady, clear-IsSteady,
}

pub data Operation : Type 0 where
  start_metadata : ConnectAnswers → Bool → Operation
  stop_metadata : Operation
  global : BindAnswers → Bool → ℕ → Option String → ℕ → Option (List DictItem) → Operation
  global_remove : BindAnswers → Bool → ℕ → Operation
  property : BindAnswers → Bool → ℕ → Option String → Option String → Option String → Operation
  run_main_context : BindAnswers → Operation
  clear_metadata : ℤ → Operation
  disconnect_core : Core → Operation

unfoldable pub step : Metadata → Operation → Metadata
unfolding start stop on_global on_global_remove on_property drain clear lose_core
step self (start_metadata answers registry_new) = (start quiet answers registry_new self).1
step self stop_metadata = stop quiet self
step self (global answers direct id global_type version props) =
    on_global quiet answers direct self id global_type version props
step self (global_remove answers direct id) = on_global_remove quiet answers direct self id
step self (property answers direct subject key value_type value) =
    on_property quiet answers direct self subject key value_type value
step self (run_main_context answers) = drain quiet answers self
step self (clear_metadata result) = (clear self result).1
step self (disconnect_core core) = lose_core self core

unfoldable pub run : Metadata → List Operation → Metadata
unfolding step
run self [] = self
run self (operation ∷ rest) = run (step self operation) rest

step-IsSteady :
    (self : Metadata) (operation : Operation) → IsSteady self → IsSteady (step self operation)
unfolding step on_global_remove on_property drain
step-IsSteady self (start_metadata answers registry_new) w =
    start-IsSteady answers registry_new self w
step-IsSteady self stop_metadata w = stop-IsSteady self w
step-IsSteady self (global answers direct id global_type version props) w =
    on_global-IsSteady answers direct self id global_type version props w
step-IsSteady self (global_remove answers direct id) w =
    queue_event-IsSteady answers direct self (removed id) w
step-IsSteady self (property answers direct subject key value_type value) w =
    queue_event-IsSteady answers direct self (changed subject key value_type value) w
step-IsSteady self (run_main_context answers) w =
    run_sources-IsSteady answers (record self { queue = [] }) self.queue (queue-IsSteady self [] w)
step-IsSteady self (clear_metadata result) w = clear-IsSteady self result w
step-IsSteady self (disconnect_core core) w = lose_core-IsSteady self core w

run-IsSteady :
    (self : Metadata) (history : List Operation) → IsSteady self → IsSteady (run self history)
unfolding run
run-IsSteady self [] w = w
run-IsSteady self (operation ∷ rest) w =
    run-IsSteady (step self operation) rest (step-IsSteady self operation w)

-- Where no handler calls back: a new metadata object stays steady through every history of starts,
-- stops, events of PipeWire, runs of the main context, clears and disconnections of a core. The
-- metadata proxy and its listener are there while it is bound, the registry and its listener while
-- it runs, it is bound and holds entries only while it runs, and each entry is under its own key.
pub metadata_history-IsSteady :
    (core : Core) (name : String) (history : List Operation)
    → IsSteady (run (metadata_new core name) history)
unfolding metadata_new
metadata_history-IsSteady core name history =
    run-IsSteady (metadata_new core name) history (record {
      proxy = refl;
      proxy_listener = refl;
      registry = refl;
      registry_listener = refl;
      unbound = λ h. refl;
      no_entries = λ h. refl;
      keyed = tt;
    })
