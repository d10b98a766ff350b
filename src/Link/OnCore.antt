-- ===== src/Link/OnCore.antt =====
-- A link as a client of its core, of src/pwg-link.c.
use pipewire_gobject.Prelude.{
  ℕ, ◌≡◌, refl, sym, ◌∙◌, Bool, true, false, not, ◌||◌, Option, none, some, List, [], ◌∷◌, ◌==◌,
  subst, arith, if-both, if-cases,
}
use pipewire_gobject.Prelude.Int.{is_negative}
use pipewire_gobject.Error.{Outcome, ok, err}
use pipewire_gobject.Core.Connection.{Core, ConnectAnswers, connect}
use pipewire_gobject.Core.Clients.{Client, Linked, same_core-Linked, Leads}
use pipewire_gobject.Core.Sharing.{connect-Leads}
use pipewire_gobject.Global.{Global, is_interface}
use pipewire_gobject.Link.State.{
  Link, LinkEvent, LinkReport, link_info, link_removed, quiet, emit, interface_link,
}
use pipewire_gobject.Link.Operations.{
  destroy_pipewire_objects, clear_name, clear_error, clear_state, set_unbound, set_stopped, reset,
  stop, update_name, update_error, update_state, apply_report, dispatch_event, queue_event,
  LinkInfo, on_info, on_global_remove, run_sources, drain, on_core_connected_notify,
}
use pipewire_gobject.Link.Control.{
  StartAnswers, bind_version, bind_link, start_connected, start_global, start,
}
use pipewire_gobject.Link.History.{
  Operation, start_link, stop_link, info, global_remove, run_main_context, disconnect_core, step,
}

-- The core is the same, and no session began.
abbrev Calm : Link → Link → Type 0
Calm self now = (now.core ≡ self.core) × (self.running ≡ false → now.running ≡ false)

stop-Calm : (self : Link) → Calm self (stop quiet self)
unfolding stop destroy_pipewire_objects clear_state set_stopped set_unbound clear_name clear_error
    emit
stop-Calm self = ground arith

apply_report-Calm : (self : Link) (report : LinkReport) → Calm self (apply_report quiet self report)
unfolding apply_report update_state update_name update_error emit
apply_report-Calm self (link_info state error) = ground arith
apply_report-Calm self link_removed = stop-Calm self

dispatch_event-Calm :
    (self : Link) (event : LinkEvent) → Calm self (dispatch_event quiet self event)
unfolding dispatch_event
dispatch_event-Calm self event =
    if-both (Calm self) (not self.running || not (event.generation == self.generation))
      (refl, λ off. off) (apply_report-Calm self event.report)

queue_event-Calm :
    (direct : Bool) (self : Link) (report : LinkReport)
    → Calm self (queue_event quiet direct self report)
unfolding queue_event
queue_event-Calm direct self report =
    let event : LinkEvent = record { generation = self.generation; report = report } in
    if-both (Calm self) direct (dispatch_event-Calm self event) (refl, λ off. off)

on_info-Calm :
    (direct : Bool) (self : Link) (i : Option LinkInfo) → Calm self (on_info quiet direct self i)
unfolding on_info
on_info-Calm direct self none = (refl, λ off. off)
on_info-Calm direct self (some i) =
    if-both (Calm self) (not i.state_changed) (refl, λ off. off)
      (queue_event-Calm direct self (link_info i.state i.error))

on_global_remove-Calm :
    (direct : Bool) (self : Link) (id : ℕ) → Calm self (on_global_remove quiet direct self id)
unfolding on_global_remove
on_global_remove-Calm direct self id =
    if-both (Calm self) (not (id == self.link_id)) (refl, λ off. off)
      (queue_event-Calm direct self link_removed)

run_sources-Calm :
    (self : Link) (events : List LinkEvent) → Calm self (run_sources quiet self events)
unfolding run_sources
run_sources-Calm self [] = (refl, λ off. off)
run_sources-Calm self (event ∷ events) =
    let (p, f) = dispatch_event-Calm self event in
    let (q, g) = run_sources-Calm (dispatch_event quiet self event) events in
    (q ∙ p, λ off. g (f off))

drain-Calm : (self : Link) → Calm self (drain quiet self)
unfolding drain
drain-Calm self = run_sources-Calm (record self { queue = [] }) self.queue

abbrev pub Holds : Core → Link → Type 0
Holds old self = Linked old self.core self.running

Calm-Holds : (old : Core) (self now : Link) → Calm self now → Holds old self → Holds old now
Calm-Holds old self now (same, off) h =
    same_core-Linked old self.core now.core self.running now.running same off h

bind_link-Holds :
    (old : Core) (answers : StartAnswers) (self : Link) (global : Global) (core : Core)
    → self.core ≡ some core
    → core.connected ≡ true
    → Holds old (bind_link quiet answers self global).1
unfolding bind_link destroy_pipewire_objects emit
bind_link-Holds old answers self global core e on =
    let P = λ (r : Outcome (Unit {0}) × Link). Holds old r.1 in
    let held : Linked old self.core true = (core, e, (λ _. on), λ _. on) in
    if-both P (not answers.registry_new) (core, e, (λ _. on), λ _. on)
      (if-both P (not (answers.bind global.id (bind_version global.version)))
        (core, e, (λ _. on), λ _. on)
        (if-both P (is_negative answers.add_listener) (core, e, (λ _. on), λ _. on) held))

start_connected-Holds :
    (old : Core) (answers : StartAnswers) (self : Link) (global : Global)
    (connected : Outcome (Unit {0})) (core : Core)
    → self.running ≡ false
    → Leads old (connected, core)
    → Holds old (start_connected quiet answers self global connected core).1
unfolding start_connected
start_connected-Holds old answers self global (err e) core off (up, made) =
    (core, refl, up, λ on. absurd (ground (arith, sym on ∙ off)))
start_connected-Holds old answers self global (ok u) core off (up, made) =
    let ready : Link = record self { core = some core } in
    if-both (λ (r : Outcome (Unit {0}) × Link). Holds old r.1)
      (not core.thread_loop || not core.core) (core, refl, up, λ on. made refl)
      (bind_link-Holds old answers ready global core refl (made refl))

start_global-Holds :
    (connect_answers : ConnectAnswers) (answers : StartAnswers) (self : Link) (core : Core)
    (global : Option Global)
    → self.running ≡ false
    → Holds core self
    → Holds core (start_global quiet connect_answers answers self (some core) global).1
unfolding start_global
start_global-Holds connect_answers answers self core none off h = h
start_global-Holds connect_answers answers self core (some global) off h =
    if-both (λ (r : Outcome (Unit {0}) × Link). Holds core r.1)
      (not (is_interface global interface_link)) h
      (start_connected-Holds core answers self global (connect connect_answers core).0
        (connect connect_answers core).1 off (connect-Leads connect_answers core))

start-Holds :
    (connect_answers : ConnectAnswers) (answers : StartAnswers) (self : Link) (old : Core)
    → self.core ≡ some old
    → Holds old self
    → Holds old (start quiet connect_answers answers self).1
unfolding start
start-Holds connect_answers answers self old e h =
    if-cases (λ (r : Outcome (Unit {0}) × Link). Holds old r.1) self.running (λ _. h)
      (λ off.
        subst
          (λ core. Holds old (start_global quiet connect_answers answers self core self.global).1)
          (sym e) (start_global-Holds connect_answers answers self old self.global off h))

-- What a link does itself, and not its core.
abbrev pub IsOwn : Operation → Type 0
IsOwn (disconnect_core core) = ⊥
IsOwn _ = Unit {0}

pub step-Holds :
    (self : Link) (operation : Operation) (old : Core)
    → IsOwn operation
    → self.core ≡ some old
    → Holds old self
    → Holds old (step self operation)
unfolding step
step-Holds self (start_link connect_answers answers) old own e h =
    start-Holds connect_answers answers self old e h
step-Holds self stop_link old own e h = Calm-Holds old self (stop quiet self) (stop-Calm self) h
step-Holds self (info direct i) old own e h =
    Calm-Holds old self (on_info quiet direct self i) (on_info-Calm direct self i) h
step-Holds self (global_remove direct id) old own e h =
    Calm-Holds old self (on_global_remove quiet direct self id)
      (on_global_remove-Calm direct self id) h
step-Holds self run_main_context old own e h =
    Calm-Holds old self (drain quiet self) (drain-Calm self) h
step-Holds self (disconnect_core core) old own e h = absurd own

pub reset_stops :
    (self : Link) (now : Core)
    → now.connected ≡ false
    → (on_core_connected_notify quiet self now).running ≡ false
unfolding on_core_connected_notify reset clear_state set_stopped set_unbound clear_name clear_error
    emit
reset_stops self now off = ground (arith, off)

-- Links share a core.
abbrev pub link_client : Client
link_client = record {
  State = Link;
  Operation = (operation : Operation) × IsOwn operation;
  core = λ self. self.core;
  set_core = λ now self. record self { core = some now };
  running = λ self. self.running;
  step = λ self operation. step self operation.0;
  on_core_connected_notify = on_core_connected_notify quiet;
  core-set_core = λ now self. refl;
  running-set_core = λ now self. refl;
  core-step = λ self operation old e runs.
      step-Holds self operation.0 old operation.1 e (old, e, (λ on. on), runs);
  notify_stops = reset_stops;
}
