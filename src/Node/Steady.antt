-- ===== src/Node/Steady.antt =====
-- What holds of a node between any two operations, where no handler calls back into it.
use pipewire_gobject.Prelude.{
  ◌+◌, ◌≡◌, refl, String, Bool, true, false, not, ◌&&◌, ◌||◌, Option, none, some, List, [], ◌∷◌,
  ◌==◌, arith, if-both, if-cases, ℕ, ◌∙◌, if◌then◌else◌,
}
use pipewire_gobject.Prelude.Word.{u32}
use pipewire_gobject.Core.Connection.{Core, disconnect}
use pipewire_gobject.Prelude.Int.{ℤ}
use pipewire_gobject.Param.Pod.{param_new}
use pipewire_gobject.Node.State.{
  ParamInfoCopy, node_param, Node, NodeEvent, NodeReport, node_info, node_removed, quiet, emit,
}
use pipewire_gobject.Node.Operations.{
  clear_lists, apply_param_infos, update_param_infos, copied_params, on_param,
  destroy_pipewire_objects, clear_name, clear_error, clear_state, set_unbound, set_stopped, reset,
  stop, update_name, update_error, update_state, apply_report, dispatch_event, queue_event,
  NodeInfo, on_info, run_sources, on_core_connected_notify, lose_core,
}

-- A node that runs is bound, with both proxies and both listeners; one that does not has none of
-- them, and shows no state and no error.
pub record IsSteady (self : Node) : Type 0 where
  pub bound : self.bound ≡ self.running
  pub registry : self.registry ≡ self.running
  pub node : self.node ≡ self.running
  pub registry_listener : self.has_registry_listener ≡ self.running
  pub node_listener : self.has_node_listener ≡ self.running
  pub no_state : self.running ≡ false → self.state ≡ none
  pub no_error : self.running ≡ false → self.error ≡ none
  pub no_infos : self.running ≡ false → self.param_infos ≡ []
  pub no_params : self.running ≡ false → self.params ≡ []

-- Whatever a node without proxies shows, the end of a stop clears it.
ended-IsSteady :
    (self : Node)
    → self.registry ≡ false
    → self.node ≡ false
    → self.has_registry_listener ≡ false
    → self.has_node_listener ≡ false
    → IsSteady (clear_lists (clear_state quiet (set_stopped quiet (set_unbound quiet self))))
unfolding clear_lists clear_state set_stopped set_unbound clear_name clear_error emit
ended-IsSteady self r l a b = ground (arith, r, l, a, b)

pub stop-IsSteady : (self : Node) → IsSteady self → IsSteady (stop quiet self)
unfolding stop destroy_pipewire_objects
stop-IsSteady self w = if-both IsSteady (not self.running && not self.registry && not self.node) w (
    ended-IsSteady
      (destroy_pipewire_objects (record self { generation = u32 (self.generation + 1) })) refl refl
      refl refl)

-- A stop of a node that runs makes it steady, whatever it was.
pub stopped-IsSteady : (self : Node) → self.running ≡ true → IsSteady (stop quiet self)
unfolding stop destroy_pipewire_objects
stopped-IsSteady self on =
    if-cases IsSteady (not self.running && not self.registry && not self.node)
      (λ e. absurd (ground (arith, e, on)))
      (λ _.
        ended-IsSteady
          (destroy_pipewire_objects (record self { generation = u32 (self.generation + 1) })) refl
          refl refl refl)

reset-IsSteady : (self : Node) → IsSteady (reset quiet self)
unfolding reset
reset-IsSteady self =
    ended-IsSteady
      (record self {
        registry = false;
        node = false;
        has_registry_listener = false;
        has_node_listener = false;
        generation = u32 (self.generation + 1);
      })
      refl refl refl refl

pub core-IsSteady :
    (self : Node) (core : Option Core) → IsSteady self → IsSteady (record self { core = core })
core-IsSteady self core w = ground (arith, w.no_state, w.no_error, w.no_infos, w.no_params)

pub lose_core-IsSteady :
    (self : Node) (core : Core) → IsSteady self → IsSteady (lose_core quiet self core)
unfolding lose_core on_core_connected_notify
lose_core-IsSteady self core w =
    let lost : Node = record self { core = some (disconnect core) } in
    if-both IsSteady core.connected
      (if-both IsSteady (disconnect core).connected (core-IsSteady self (some (disconnect core)) w)
        (reset-IsSteady lost))
      (core-IsSteady self (some (disconnect core)) w)

update_state-IsSteady :
    (self : Node) (state error : Option String)
    → self.running ≡ true
    → IsSteady self
    → IsSteady (update_state quiet self state error)
unfolding update_state update_name update_error emit
update_state-IsSteady self state error on w =
    ground (arith, on, w.no_state, w.no_error, w.no_infos, w.no_params)

apply_param_infos-IsSteady :
    (self : Node) (copies : Option (List ParamInfoCopy))
    → self.running ≡ true
    → IsSteady self
    → IsSteady (apply_param_infos quiet self copies)
unfolding apply_param_infos update_param_infos emit
apply_param_infos-IsSteady self none on w = w
apply_param_infos-IsSteady self (some copies) on w =
    ground (arith, on, w.no_state, w.no_error, w.no_params)

update_state-running :
    (self : Node) (state error : Option String)
    → (update_state quiet self state error).running ≡ self.running
unfolding update_state update_name update_error emit
update_state-running self state error = ground arith

apply_report-IsSteady :
    (self : Node) (report : NodeReport)
    → self.running ≡ true
    → IsSteady self
    → IsSteady (apply_report quiet self report)
unfolding apply_report emit
apply_report-IsSteady self (node_info state_changed state error copies) on w =
    let now = if state_changed then update_state quiet self state error else self in
    let (steady, running) : IsSteady now × (now.running ≡ true) =
      if-both (λ (now : Node). IsSteady now × (now.running ≡ true)) state_changed
        (update_state-IsSteady self state error on w, update_state-running self state error ∙ on)
        (w, on) in
    apply_param_infos-IsSteady now copies running steady
apply_report-IsSteady self (node_param none) on w = w
apply_report-IsSteady self (node_param (some param)) on w =
    ground (arith, on, w.no_state, w.no_error, w.no_infos)
apply_report-IsSteady self node_removed on w = stop-IsSteady self w

dispatch_event-IsSteady :
    (self : Node) (event : NodeEvent) → IsSteady self → IsSteady (dispatch_event quiet self event)
unfolding dispatch_event
dispatch_event-IsSteady self event w =
    if-cases IsSteady (not self.running || not (event.generation == self.generation)) (λ _. w)
      (λ e. apply_report-IsSteady self event.report (ground (arith, e)) w)

pub queue_event-IsSteady :
    (self : Node) (direct : Bool) (report : NodeReport)
    → IsSteady self
    → IsSteady (queue_event quiet direct self report)
unfolding queue_event
queue_event-IsSteady self direct report w =
    let event : NodeEvent = record { generation = self.generation; report = report } in
    if-both IsSteady direct (dispatch_event-IsSteady self event w)
      (ground (arith, w.no_state, w.no_error, w.no_infos, w.no_params))

pub on_info-IsSteady :
    (self : Node) (direct : Bool) (info : Option NodeInfo)
    → IsSteady self
    → IsSteady (on_info quiet direct self info)
unfolding on_info
on_info-IsSteady self direct none w = w
on_info-IsSteady self direct (some info) w =
    elim (copied_params info)
      as (λ copied. IsSteady (elim copied [
        | none ↦
            if not info.state_changed
            then self
            else queue_event quiet direct self (node_info true info.state info.error none)
        | some params ↦ queue_event quiet direct self (
            if info.state_changed
            then node_info true info.state info.error (some params)
            else node_info false none none (some params))
      ])) [
        | none ↦
            if-both IsSteady (not info.state_changed) w
              (queue_event-IsSteady self direct (node_info true info.state info.error none) w)
        | some params ↦
            queue_event-IsSteady self direct
              (if info.state_changed
                then node_info true info.state info.error (some params)
                else node_info false none none (some params))
              w
      ]

pub on_param-IsSteady :
    (self : Node) (direct : Bool) (seq : ℤ) (id index next : ℕ) (pod : Option (List ℕ))
    → IsSteady self
    → IsSteady (on_param quiet direct self seq id index next pod)
unfolding on_param
on_param-IsSteady self direct seq id index next none w = w
on_param-IsSteady self direct seq id index next (some pod) w =
    queue_event-IsSteady self direct (node_param (param_new seq id index next (some pod))) w

pub run_sources-IsSteady :
    (self : Node) (events : List NodeEvent)
    → IsSteady self
    → IsSteady (run_sources quiet self events)
unfolding run_sources
run_sources-IsSteady self [] w = w
run_sources-IsSteady self (event ∷ events) w =
    run_sources-IsSteady (dispatch_event quiet self event) events
      (dispatch_event-IsSteady self event w)
