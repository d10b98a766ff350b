-- ===== src/Registry/OnCore.antt =====
-- A registry as a client of its core, of src/pwg-registry.c.
use pipewire_gobject.Prelude.{
  ℕ, ◌+◌, ◌≡◌, refl, sym, ◌∙◌, String, Bool, false, not, ◌&&◌, ◌||◌, Option, none, some, List, [],
  ◌∷◌, ◌==◌, subst, arith, if-both, if-cases,
}
use pipewire_gobject.Prelude.Word.{u32}
use pipewire_gobject.Error.{Outcome, ok, err}
use pipewire_gobject.Core.Connection.{Core, ConnectAnswers, connect}
use pipewire_gobject.Core.Clients.{Client, Linked, same_core-Linked, Leads}
use pipewire_gobject.Core.Sharing.{connect-Leads}
use pipewire_gobject.Global.{Global, DictItem, new_from_spa_dict}
use pipewire_gobject.Registry.State.{Registry, RegistryEvent, Change, added, removed, quiet, emit}
use pipewire_gobject.Registry.Dispatch.{
  find_global, dispatch_added, remove_found, apply_change, dispatch_event, queue_event, on_global,
  on_global_remove, run_sources, drain,
}
use pipewire_gobject.Registry.Control.{
  halt, reset, on_core_connected_notify, listen, start_connected, start_core, start,
  has_thread_loop, release, stop,
}

-- The core is the same, and no session began.
abbrev Calm : Registry → Registry → Type 0
Calm self now = (now.core ≡ self.core) × (self.running ≡ false → now.running ≡ false)

stop-Calm : (self : Registry) → Calm self (stop quiet self)
unfolding stop release halt emit
stop-Calm self =
    if-both (Calm self) (not self.running && not self.registry) (refl, λ off. off)
      (if-both
        (λ (freed : Registry).
          Calm self (halt quiet (record freed { generation = u32 (freed.generation + 1) })))
        (has_thread_loop self.core && self.registry) (ground arith) (ground arith))

remove_found-Calm :
    (self : Registry) (found : Option (Global × ℕ)) → Calm self (remove_found quiet self found)
unfolding remove_found emit
remove_found-Calm self none = (refl, λ off. off)
remove_found-Calm self (some (global, position)) = (refl, λ off. off)

apply_change-Calm : (self : Registry) (change : Change) → Calm self (apply_change quiet self change)
unfolding apply_change dispatch_added emit
apply_change-Calm self (added global) = (refl, λ off. off)
apply_change-Calm self (removed id) = remove_found-Calm self (find_global self.globals id)

dispatch_event-Calm :
    (self : Registry) (event : RegistryEvent) → Calm self (dispatch_event quiet self event)
unfolding dispatch_event
dispatch_event-Calm self event =
    if-both (Calm self) (not self.running || not (event.generation == self.generation))
      (refl, λ off. off) (apply_change-Calm self event.change)

queue_event-Calm :
    (direct : Bool) (self : Registry) (change : Change)
    → Calm self (queue_event quiet direct self change)
unfolding queue_event
queue_event-Calm direct self change =
    let event : RegistryEvent = record { generation = self.generation; change = change } in
    if-both (Calm self) direct (dispatch_event-Calm self event) (refl, λ off. off)

run_sources-Calm :
    (self : Registry) (events : List RegistryEvent) → Calm self (run_sources quiet self events)
unfolding run_sources
run_sources-Calm self [] = (refl, λ off. off)
run_sources-Calm self (event ∷ events) =
    let (p, f) = dispatch_event-Calm self event in
    let (q, g) = run_sources-Calm (dispatch_event quiet self event) events in
    (q ∙ p, λ off. g (f off))

drain-Calm : (self : Registry) → Calm self (drain quiet self)
unfolding drain
drain-Calm self = run_sources-Calm (record self { queue = [] }) self.queue

abbrev pub Holds : Core → Registry → Type 0
Holds old self = Linked old self.core self.running

Calm-Holds : (old : Core) (self now : Registry) → Calm self now → Holds old self → Holds old now
Calm-Holds old self now (same, off) h =
    same_core-Linked old self.core now.core self.running now.running same off h

start_connected-Holds :
    (old : Core) (registry_new : Bool) (self : Registry) (connected : Outcome (Unit {0}))
    (core : Core)
    → self.running ≡ false
    → Leads old (connected, core)
    → Holds old (start_connected quiet registry_new self connected core).1
unfolding start_connected listen emit
start_connected-Holds old registry_new self (err e) core off (up, made) =
    (core, refl, up, λ on. absurd (ground (arith, sym on ∙ off)))
start_connected-Holds old registry_new self (ok u) core off (up, made) =
    let P = λ (r : Outcome (Unit {0}) × Registry). Holds old r.1 in
    if-both P (not core.thread_loop || not core.core) (core, refl, up, λ on. made refl)
      (if-both P (not registry_new) (core, refl, up, λ on. made refl)
        (core, refl, up, λ on. made refl))

start_core-Holds :
    (answers : ConnectAnswers) (registry_new : Bool) (self : Registry) (core : Core)
    → self.running ≡ false
    → Holds core (start_core quiet answers registry_new self (some core)).1
unfolding start_core
start_core-Holds answers registry_new self core off =
    start_connected-Holds core registry_new self (connect answers core).0 (connect answers core).1
      off (connect-Leads answers core)

start-Holds :
    (answers : ConnectAnswers) (registry_new : Bool) (self : Registry) (old : Core)
    → self.core ≡ some old
    → Holds old self
    → Holds old (start quiet answers registry_new self).1
unfolding start
start-Holds answers registry_new self old e h =
    if-cases (λ (r : Outcome (Unit {0}) × Registry). Holds old r.1) self.running (λ _. h)
      (λ off.
        subst (λ core. Holds old (start_core quiet answers registry_new self core).1) (sym e)
          (start_core-Holds answers registry_new self old off))

-- What a registry does itself, and not its core.
pub data Operation : Type 0 where
  start_registry : ConnectAnswers → Bool → Operation
  stop_registry : Operation
  global : Bool → ℕ → ℕ → Option String → ℕ → Option (List DictItem) → Operation
  global_remove : Bool → ℕ → Operation
  run_main_context : Operation

unfoldable pub step : Registry → Operation → Registry
unfolding start stop on_global on_global_remove drain
step self (start_registry answers registry_new) = (start quiet answers registry_new self).1
step self stop_registry = stop quiet self
step self (global direct id permissions interface_type version props) =
    on_global quiet direct self id permissions interface_type version props
step self (global_remove direct id) = on_global_remove quiet direct self id
step self run_main_context = drain quiet self

pub step-Holds :
    (self : Registry) (operation : Operation) (old : Core)
    → self.core ≡ some old
    → Holds old self
    → Holds old (step self operation)
unfolding step on_global on_global_remove
step-Holds self (start_registry answers registry_new) old e h =
    start-Holds answers registry_new self old e h
step-Holds self stop_registry old e h = Calm-Holds old self (stop quiet self) (stop-Calm self) h
step-Holds self (global direct id permissions interface_type version props) old e h =
    let change = added (new_from_spa_dict id permissions interface_type version props) in
    Calm-Holds old self (queue_event quiet direct self change) (queue_event-Calm direct self change)
      h
step-Holds self (global_remove direct id) old e h =
    Calm-Holds old self (queue_event quiet direct self (removed id))
      (queue_event-Calm direct self (removed id)) h
step-Holds self run_main_context old e h =
    Calm-Holds old self (drain quiet self) (drain-Calm self) h

pub reset_stops :
    (self : Registry) (now : Core)
    → now.connected ≡ false
    → (on_core_connected_notify quiet self now).running ≡ false
unfolding on_core_connected_notify reset halt emit
reset_stops self now off = ground (arith, off)

-- Registries share a core.
abbrev pub registry_client : Client
registry_client = record {
  State = Registry;
  Operation = Operation;
  core = λ self. self.core;
  set_core = λ now self. record self { core = some now };
  running = λ self. self.running;
  step = step;
  on_core_connected_notify = on_core_connected_notify quiet;
  core-set_core = λ now self. refl;
  running-set_core = λ now self. refl;
  core-step =
      λ self operation old e runs. step-Holds self operation old e (old, e, (λ on. on), runs);
  notify_stops = reset_stops;
}
