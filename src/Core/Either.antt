-- ===== src/Core/Either.antt =====
-- Wrappers of two kinds on one core of src/pwg-core.c.
use pipewire_gobject.Prelude.{◌≡◌, Bool, true, false, Option, some, inl, inr, ◌⊎◌}
use pipewire_gobject.Core.Connection.{Core}
use pipewire_gobject.Core.Clients.{Client, Linked}

module _ (C D : Client) where
  abbrev pub core_of : C.State ⊎ D.State → Option Core
  core_of (inl self) = C.core self
  core_of (inr self) = D.core self

  abbrev pub set_core_of : Core → C.State ⊎ D.State → C.State ⊎ D.State
  set_core_of now (inl self) = inl (C.set_core now self)
  set_core_of now (inr self) = inr (D.set_core now self)

  abbrev pub running_of : C.State ⊎ D.State → Bool
  running_of (inl self) = C.running self
  running_of (inr self) = D.running self

  -- An operation of the other kind does nothing.
  abbrev pub step_of : C.State ⊎ D.State → C.Operation ⊎ D.Operation → C.State ⊎ D.State
  step_of (inl self) (inl operation) = inl (C.step self operation)
  step_of (inl self) (inr operation) = inl self
  step_of (inr self) (inl operation) = inr self
  step_of (inr self) (inr operation) = inr (D.step self operation)

  abbrev pub notify_of : C.State ⊎ D.State → Core → C.State ⊎ D.State
  notify_of (inl self) now = inl (C.on_core_connected_notify self now)
  notify_of (inr self) now = inr (D.on_core_connected_notify self now)

  pub core-set_core_of :
      (now : Core) (self : C.State ⊎ D.State) → core_of (set_core_of now self) ≡ some now
  core-set_core_of now (inl self) = C.core-set_core now self
  core-set_core_of now (inr self) = D.core-set_core now self

  pub running-set_core_of :
      (now : Core) (self : C.State ⊎ D.State) → running_of (set_core_of now self) ≡ running_of self
  running-set_core_of now (inl self) = C.running-set_core now self
  running-set_core_of now (inr self) = D.running-set_core now self

  pub core-step_of :
      (self : C.State ⊎ D.State) (operation : C.Operation ⊎ D.Operation) (old : Core)
      → core_of self ≡ some old
      → (running_of self ≡ true → old.connected ≡ true)
      → Linked old (core_of (step_of self operation)) (running_of (step_of self operation))
  core-step_of (inl self) (inl operation) old e runs = C.core-step self operation old e runs
  core-step_of (inl self) (inr operation) old e runs = (old, e, (λ on. on), runs)
  core-step_of (inr self) (inl operation) old e runs = (old, e, (λ on. on), runs)
  core-step_of (inr self) (inr operation) old e runs = D.core-step self operation old e runs

  pub notify_of_stops :
      (self : C.State ⊎ D.State) (now : Core)
      → now.connected ≡ false
      → running_of (notify_of self now) ≡ false
  notify_of_stops (inl self) now off = C.notify_stops self now off
  notify_of_stops (inr self) now off = D.notify_stops self now off

  abbrev pub either_client : Client
  either_client = record {
    State = C.State ⊎ D.State;
    Operation = C.Operation ⊎ D.Operation;
    core = core_of;
    set_core = set_core_of;
    running = running_of;
    step = step_of;
    on_core_connected_notify = notify_of;
    core-set_core = core-set_core_of;
    running-set_core = running-set_core_of;
    core-step = core-step_of;
    notify_stops = notify_of_stops;
  }
