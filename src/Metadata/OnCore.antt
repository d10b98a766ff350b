-- ===== src/Metadata/OnCore.antt =====
-- A metadata object as a client of its core, of src/pwg-metadata.c.
use pipewire_gobject.Prelude.{
  ℕ, ◌≡◌, refl, sym, ◌∙◌, String, Bool, false, not, ◌||◌, Option, some, List, [], ◌∷◌, ◌==◌, ltb,
  strcmp0_eq, subst, arith, if-both, if-cases, if◌then◌else◌,
}
use pipewire_gobject.Prelude.Int.{ℤ, is_negative}
use pipewire_gobject.Properties.{is_empty}
use pipewire_gobject.Error.{Outcome, ok, err}
use pipewire_gobject.Core.Connection.{Core, ConnectAnswers, connect}
use pipewire_gobject.Core.Clients.{Client, Linked, same_core-Linked, Leads}
use pipewire_gobject.Core.Sharing.{connect-Leads}
use pipewire_gobject.Global.{DictItem}
use pipewire_gobject.Metadata.Cache.{lookup_spa_dict}
use pipewire_gobject.Metadata.State.{
  Metadata, MetadataEvent, MetadataReport, found, removed, changed, quiet, emit,
}
use pipewire_gobject.Metadata.Operations.{
  has_thread_loop, set_unbound, set_stopped, destroy_bound_proxy, BindAnswers, bind, apply_change,
  apply_report, dispatch_event, queue_event, on_property, on_global, on_global_remove, run_sources,
  interface_metadata, key_metadata_name,
}
use pipewire_gobject.Metadata.Control.{
  reset, on_core_connected_notify, end_session, stop, listen, start_connected, start_core, start,
  clear, drain,
}
use pipewire_gobject.Metadata.History.{
  Operation, start_metadata, stop_metadata, global, global_remove, property, run_main_context,
  clear_metadata, disconnect_core, step,
}

-- The core is the same, and no session began.
abbrev Calm : Metadata → Metadata → Type 0
Calm self now = (now.core ≡ self.core) × (self.running ≡ false → now.running ≡ false)

destroy_bound_proxy-Calm : (self : Metadata) → Calm self (destroy_bound_proxy quiet self)
unfolding destroy_bound_proxy set_unbound emit
destroy_bound_proxy-Calm self = ground arith

stop-Calm : (self : Metadata) → Calm self (stop quiet self)
unfolding stop end_session destroy_bound_proxy set_unbound set_stopped emit
stop-Calm self = ground arith

bind-Calm :
    (answers : BindAnswers) (self : Metadata) (id version : ℕ)
    → Calm self (bind quiet answers self id version).1
unfolding bind emit
bind-Calm answers self id version =
    let P = λ (r : Bool × Metadata). Calm self r.1 in
    if-both P (self.bound || self.metadata) (refl, λ off. off)
      (if-both P (not (has_thread_loop self.core) || not self.registry) (refl, λ off. off)
        (if-both P (not (answers.bind id (if ltb version 3 then version else 3))) (refl, λ off. off)
          (if-both P (is_negative answers.add_listener) (refl, λ off. off) (refl, λ off. off))))

apply_report-Calm :
    (answers : BindAnswers) (self : Metadata) (report : MetadataReport)
    → Calm self (apply_report quiet answers self report)
unfolding apply_report apply_change emit
apply_report-Calm answers self (found id version) = bind-Calm answers self id version
apply_report-Calm answers self (removed id) =
    if-both (Calm self) (self.metadata_id == id) (destroy_bound_proxy-Calm self) (refl, λ off. off)
apply_report-Calm answers self (changed subject key value_type value) = (refl, λ off. off)

dispatch_event-Calm :
    (answers : BindAnswers) (self : Metadata) (event : MetadataEvent)
    → Calm self (dispatch_event quiet answers self event)
unfolding dispatch_event
dispatch_event-Calm answers self event =
    if-both (Calm self) (not self.running || not (event.generation == self.generation))
      (refl, λ off. off) (apply_report-Calm answers self event.report)

queue_event-Calm :
    (answers : BindAnswers) (direct : Bool) (self : Metadata) (report : MetadataReport)
    → Calm self (queue_event quiet answers direct self report)
unfolding queue_event
queue_event-Calm answers direct self report =
    let event : MetadataEvent = record { generation = self.generation; report = report } in
    if-both (Calm self) direct (dispatch_event-Calm answers self event) (refl, λ off. off)

on_global-Calm :
    (answers : BindAnswers) (direct : Bool) (self : Metadata) (id : ℕ) (global_type : Option String)
    (version : ℕ) (props : Option (List DictItem))
    → Calm self (on_global quiet answers direct self id global_type version props)
unfolding on_global
on_global-Calm answers direct self id global_type version props =
    if-both (Calm self) (not (strcmp0_eq global_type (some interface_metadata))) (refl, λ off. off)
      (if-both (Calm self) (not (strcmp0_eq (lookup_spa_dict props key_metadata_name) self.name))
        (refl, λ off. off) (queue_event-Calm answers direct self (found id version)))

run_sources-Calm :
    (answers : BindAnswers) (self : Metadata) (events : List MetadataEvent)
    → Calm self (run_sources quiet answers self events)
unfolding run_sources
run_sources-Calm answers self [] = (refl, λ off. off)
run_sources-Calm answers self (event ∷ events) =
    let (p, f) = dispatch_event-Calm answers self event in
    let (q, g) = run_sources-Calm answers (dispatch_event quiet answers self event) events in
    (q ∙ p, λ off. g (f off))

drain-Calm : (answers : BindAnswers) (self : Metadata) → Calm self (drain quiet answers self)
unfolding drain
drain-Calm answers self = run_sources-Calm answers (record self { queue = [] }) self.queue

clear-Calm : (self : Metadata) (result : ℤ) → Calm self (clear self result).1
unfolding clear
clear-Calm self result =
    let P = λ (r : Outcome (Unit {0}) × Metadata). Calm self r.1 in
    if-both P (not self.metadata) (refl, λ off. off)
      (if-both P (not (has_thread_loop self.core)) (refl, λ off. off)
        (if-both P (is_negative result) (refl, λ off. off) (refl, λ off. off)))

abbrev pub Holds : Core → Metadata → Type 0
Holds old self = Linked old self.core self.running

Calm-Holds : (old : Core) (self now : Metadata) → Calm self now → Holds old self → Holds old now
Calm-Holds old self now (same, off) h =
    same_core-Linked old self.core now.core self.running now.running same off h

start_connected-Holds :
    (old : Core) (registry_new : Bool) (self : Metadata) (connected : Outcome (Unit {0}))
    (core : Core)
    → self.running ≡ false
    → Leads old (connected, core)
    → Holds old (start_connected quiet registry_new self connected core).1
unfolding start_connected listen emit
start_connected-Holds old registry_new self (err e) core off (up, made) =
    (core, refl, up, λ on. absurd (ground (arith, sym on ∙ off)))
start_connected-Holds old registry_new self (ok u) core off (up, made) =
    let P = λ (r : Outcome (Unit {0}) × Metadata). Holds old r.1 in
    if-both P (not core.thread_loop || not core.core) (core, refl, up, λ on. made refl)
      (if-both P (not registry_new) (core, refl, up, λ on. made refl)
        (core, refl, up, λ on. made refl))

start_core-Holds :
    (answers : ConnectAnswers) (registry_new : Bool) (self : Metadata) (core : Core)
    → self.running ≡ false
    → Holds core self
    → Holds core (start_core quiet answers registry_new self (some core)).1
unfolding start_core
start_core-Holds answers registry_new self core off h =
    if-both (λ (r : Outcome (Unit {0}) × Metadata). Holds core r.1) (is_empty self.name) h
      (start_connected-Holds core registry_new self (connect answers core).0
        (connect answers core).1 off (connect-Leads answers core))

start-Holds :
    (answers : ConnectAnswers) (registry_new : Bool) (self : Metadata) (old : Core)
    → self.core ≡ some old
    → Holds old self
    → Holds old (start quiet answers registry_new self).1
unfolding start
start-Holds answers registry_new self old e h =
    if-cases (λ (r : Outcome (Unit {0}) × Metadata). Holds old r.1) self.running (λ _. h)
      (λ off.
        subst (λ core. Holds old (start_core quiet answers registry_new self core).1) (sym e)
          (start_core-Holds answers registry_new self old off h))

-- What a metadata object does itself, and not its core.
abbrev pub IsOwn : Operation → Type 0
IsOwn (disconnect_core core) = ⊥
IsOwn _ = Unit {0}

pub step-Holds :
    (self : Metadata) (operation : Operation) (old : Core)
    → IsOwn operation
    → self.core ≡ some old
    → Holds old self
    → Holds old (step self operation)
unfolding step on_property on_global_remove
step-Holds self (start_metadata answers registry_new) old own e h =
    start-Holds answers registry_new self old e h
step-Holds self stop_metadata old own e h = Calm-Holds old self (stop quiet self) (stop-Calm self) h
step-Holds self (global answers direct id global_type version props) old own e h =
    Calm-Holds old self (on_global quiet answers direct self id global_type version props)
      (on_global-Calm answers direct self id global_type version props) h
step-Holds self (global_remove answers direct id) old own e h =
    Calm-Holds old self (queue_event quiet answers direct self (removed id))
      (queue_event-Calm answers direct self (removed id)) h
step-Holds self (property answers direct subject key value_type value) old own e h =
    Calm-Holds old self
      (queue_event quiet answers direct self (changed subject key value_type value))
      (queue_event-Calm answers direct self (changed subject key value_type value)) h
step-Holds self (run_main_context answers) old own e h =
    Calm-Holds old self (drain quiet answers self) (drain-Calm answers self) h
step-Holds self (clear_metadata result) old own e h =
    Calm-Holds old self (clear self result).1 (clear-Calm self result) h
step-Holds self (disconnect_core core) old own e h = absurd own

pub reset_stops :
    (self : Metadata) (now : Core)
    → now.connected ≡ false
    → (on_core_connected_notify quiet self now).running ≡ false
unfolding on_core_connected_notify reset set_stopped set_unbound emit
reset_stops self now off = ground (arith, off)

-- Metadata objects share a core.
abbrev pub metadata_client : Client
metadata_client = record {
  State = Metadata;
  Operation = (operation : Operation) × IsOwn operation;
  core = λ self. self.core;
  set_core = λ now self. record self { core = some now };
  running = λ self. self.running;
  step = λ self operation. step self operation.0;
  on_core_connected_notify = on_core_connected_notify quiet;
  core-set_core = λ now self. refl;
  running-set_core = λ now self. refl;
  core-step = λ self operation old e runs.
      step-Holds self operation.0 old operation.1 e (old, e, (λ on. on), runs);
  notify_stops = reset_stops;
}
