-- ===== src/Node/Calm.antt =====
-- What the events of a node, of src/pwg-node.c, leave alone: the core, and that a node does not run.
use pipewire_gobject.Prelude.{
  ℕ, ◌≡◌, refl, ◌∙◌, String, Bool, true, false, not, ◌||◌, Option, none, some, List, [], ◌∷◌, ◌==◌,
  arith, if-both, if◌then◌else◌,
}
use pipewire_gobject.Prelude.Int.{ℤ}
use pipewire_gobject.Param.Pod.{param_new}
use pipewire_gobject.Node.State.{
  Node, NodeEvent, NodeReport, ParamInfoCopy, node_info, node_param, node_removed, quiet, emit,
}
use pipewire_gobject.Node.Operations.{
  destroy_pipewire_objects, clear_name, clear_error, clear_state, clear_lists, set_unbound,
  set_stopped, stop, update_name, update_error, update_state, update_param_infos, apply_param_infos,
  apply_report, dispatch_event, queue_event, NodeInfo, copied_params, on_info, on_param,
  on_global_remove, run_sources, drain,
}
use pipewire_gobject.Node.Control.{receive}

-- The core is the same, and no session began.
abbrev pub Calm : Node → Node → Type 0
Calm self now = (now.core ≡ self.core) × (self.running ≡ false → now.running ≡ false)

Calm-trans : (a b c : Node) → Calm a b → Calm b c → Calm a c
Calm-trans a b c (p, f) (q, g) = (q ∙ p, λ off. g (f off))

pub stop-Calm : (self : Node) → Calm self (stop quiet self)
unfolding stop destroy_pipewire_objects clear_lists clear_state set_stopped set_unbound clear_name
    clear_error emit
stop-Calm self = ground arith

update_state-Calm :
    (self : Node) (state error : Option String) → Calm self (update_state quiet self state error)
unfolding update_state update_name update_error emit
update_state-Calm self state error = ground arith

apply_param_infos-Calm :
    (self : Node) (copies : Option (List ParamInfoCopy))
    → Calm self (apply_param_infos quiet self copies)
unfolding apply_param_infos update_param_infos emit
apply_param_infos-Calm self none = (refl, λ off. off)
apply_param_infos-Calm self (some copies) = (refl, λ off. off)

apply_report-Calm : (self : Node) (report : NodeReport) → Calm self (apply_report quiet self report)
unfolding apply_report emit
apply_report-Calm self (node_info state_changed state error copies) =
    let now = if state_changed then update_state quiet self state error else self in
    Calm-trans self now (apply_param_infos quiet now copies)
      (if-both (Calm self) state_changed (update_state-Calm self state error) (refl, λ off. off))
      (apply_param_infos-Calm now copies)
apply_report-Calm self (node_param none) = (refl, λ off. off)
apply_report-Calm self (node_param (some param)) = (refl, λ off. off)
apply_report-Calm self node_removed = stop-Calm self

dispatch_event-Calm :
    (self : Node) (event : NodeEvent) → Calm self (dispatch_event quiet self event)
unfolding dispatch_event
dispatch_event-Calm self event =
    if-both (Calm self) (not self.running || not (event.generation == self.generation))
      (refl, λ off. off) (apply_report-Calm self event.report)

pub queue_event-Calm :
    (direct : Bool) (self : Node) (report : NodeReport)
    → Calm self (queue_event quiet direct self report)
unfolding queue_event
queue_event-Calm direct self report =
    let event : NodeEvent = record { generation = self.generation; report = report } in
    if-both (Calm self) direct (dispatch_event-Calm self event) (refl, λ off. off)

pub on_info-Calm :
    (direct : Bool) (self : Node) (info : Option NodeInfo)
    → Calm self (on_info quiet direct self info)
unfolding on_info
on_info-Calm direct self none = (refl, λ off. off)
on_info-Calm direct self (some info) =
    elim (copied_params info)
      as (λ copied. Calm self (elim copied [
        | none ↦
            if not info.state_changed
            then self
            else queue_event quiet direct self (node_info true info.state info.error none)
        | some params ↦ queue_event quiet direct self (
            if info.state_changed
            then node_info true info.state info.error (some params)
            else node_info false none none (some params))
      ])) [
        | none ↦
            if-both (Calm self) (not info.state_changed) (refl, λ off. off)
              (queue_event-Calm direct self (node_info true info.state info.error none))
        | some params ↦ queue_event-Calm direct self _
      ]

pub on_param-Calm :
    (direct : Bool) (self : Node) (seq : ℤ) (id index next : ℕ) (pod : Option (List ℕ))
    → Calm self (on_param quiet direct self seq id index next pod)
unfolding on_param
on_param-Calm direct self seq id index next none = (refl, λ off. off)
on_param-Calm direct self seq id index next (some pod) =
    queue_event-Calm direct self (node_param (param_new seq id index next (some pod)))

pub on_global_remove-Calm :
    (direct : Bool) (self : Node) (id : ℕ) → Calm self (on_global_remove quiet direct self id)
unfolding on_global_remove
on_global_remove-Calm direct self id =
    if-both (Calm self) (not (id == self.node_id)) (refl, λ off. off)
      (queue_event-Calm direct self node_removed)

pub receive-Calm :
    (self : Node) (reports : List (Bool × NodeReport)) → Calm self (receive quiet self reports)
unfolding receive
receive-Calm self [] = (refl, λ off. off)
receive-Calm self ((direct, report) ∷ reports) =
    Calm-trans self (queue_event quiet direct self report)
      (receive quiet (queue_event quiet direct self report) reports)
      (queue_event-Calm direct self report)
      (receive-Calm (queue_event quiet direct self report) reports)

run_sources-Calm :
    (self : Node) (events : List NodeEvent) → Calm self (run_sources quiet self events)
unfolding run_sources
run_sources-Calm self [] = (refl, λ off. off)
run_sources-Calm self (event ∷ events) =
    Calm-trans self (dispatch_event quiet self event)
      (run_sources quiet (dispatch_event quiet self event) events) (dispatch_event-Calm self event)
      (run_sources-Calm (dispatch_event quiet self event) events)

pub drain-Calm : (self : Node) → Calm self (drain quiet self)
unfolding drain
drain-Calm self = run_sources-Calm (record self { queue = [] }) self.queue
