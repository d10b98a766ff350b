-- ===== src/Node/Events.antt =====
-- What the events of a node keep of it, whatever its handlers do but begin a session.
use pipewire_gobject.Prelude.{
  refl, ◌++◌, String, Bool, not, ◌||◌, Option, none, some, List, [], ◌∷◌, ◌==◌, strcmp0_eq,
  if◌then◌else◌, if-both,
}
use pipewire_gobject.Core.Connection.{Core, disconnect}
use pipewire_gobject.Node.State.{
  Node, NodeEvent, NodeReport, ParamInfoCopy, node_info, node_param, node_removed, notify_state,
  notify_error, notify_param_infos, signal_param, Handlers,
}
use pipewire_gobject.Node.Operations.{
  update_name, update_error, update_state, update_param_infos, param_infos_of, apply_param_infos,
  apply_report, dispatch_event, queue_event, run_sources, on_core_connected_notify, lose_core,
}
use pipewire_gobject.Node.Whole.{
  IsWhole, Keeps, Respect, same-Keeps, Keeps-trans, relabelled, told-Keeps, stop-Keeps, reset-Keeps,
}

module _ (on : Handlers) (respect : Respect on) where
  update_name-Keeps :
      (self : Node) (state : Option String) → IsWhole self → Keeps self (update_name on self state)
  unfolding update_name
  update_name-Keeps self state w =
      if-both (Keeps self) (strcmp0_eq self.state state) (same-Keeps self w) (
        told-Keeps on respect notify_state self (record self { state = state })
          (relabelled self _ refl refl refl refl refl w))

  update_error-Keeps :
      (self : Node) (error : Option String) → IsWhole self → Keeps self (update_error on self error)
  unfolding update_error
  update_error-Keeps self error w =
      if-both (Keeps self) (strcmp0_eq self.error error) (same-Keeps self w) (
        told-Keeps on respect notify_error self (record self { error = error })
          (relabelled self _ refl refl refl refl refl w))

  update_state-Keeps :
      (self : Node) (state error : Option String)
      → IsWhole self
      → Keeps self (update_state on self state error)
  unfolding update_state
  update_state-Keeps self state error w =
      let k = update_name-Keeps self state w in
      Keeps-trans self (update_name on self state) _ k
        (update_error-Keeps (update_name on self state) error k.whole)

  apply_param_infos-Keeps :
      (self : Node) (copies : Option (List ParamInfoCopy))
      → IsWhole self
      → Keeps self (apply_param_infos on self copies)
  unfolding apply_param_infos update_param_infos
  apply_param_infos-Keeps self none w = same-Keeps self w
  apply_param_infos-Keeps self (some copies) w =
      told-Keeps on respect notify_param_infos self
        (record self { param_infos = param_infos_of copies })
        (relabelled self _ refl refl refl refl refl w)

  apply_report-Keeps :
      (self : Node) (report : NodeReport) → IsWhole self → Keeps self (apply_report on self report)
  unfolding apply_report
  apply_report-Keeps self (node_info state_changed state error copies) w =
      let now = if state_changed then update_state on self state error else self in
      let k : Keeps self now =
        if-both (Keeps self) state_changed (update_state-Keeps self state error w)
          (same-Keeps self w) in
      Keeps-trans self now _ k (apply_param_infos-Keeps now copies k.whole)
  apply_report-Keeps self (node_param none) w = same-Keeps self w
  apply_report-Keeps self (node_param (some param)) w =
      told-Keeps on respect (signal_param param) self
        (record self { params = self.params ++ param ∷ [] })
        (relabelled self _ refl refl refl refl refl w)
  apply_report-Keeps self node_removed w = stop-Keeps on respect self w

  dispatch_event-Keeps :
      (self : Node) (event : NodeEvent) → IsWhole self → Keeps self (dispatch_event on self event)
  unfolding dispatch_event
  dispatch_event-Keeps self event w =
      if-both (Keeps self) (not self.running || not (event.generation == self.generation))
        (same-Keeps self w) (apply_report-Keeps self event.report w)

  pub queue_event-Keeps :
      (direct : Bool) (self : Node) (report : NodeReport)
      → IsWhole self
      → Keeps self (queue_event on direct self report)
  unfolding queue_event
  queue_event-Keeps direct self report w =
      let event : NodeEvent = record { generation = self.generation; report = report } in
      if-both (Keeps self) direct (dispatch_event-Keeps self event w)
        (relabelled self _ refl refl refl refl refl w)

  pub run_sources-Keeps :
      (self : Node) (events : List NodeEvent)
      → IsWhole self
      → Keeps self (run_sources on self events)
  unfolding run_sources
  run_sources-Keeps self [] w = same-Keeps self w
  run_sources-Keeps self (event ∷ events) w =
      let k = dispatch_event-Keeps self event w in
      Keeps-trans self (dispatch_event on self event) _ k
        (run_sources-Keeps (dispatch_event on self event) events k.whole)

  pub lose_core-Keeps :
      (self : Node) (core : Core) → IsWhole self → Keeps self (lose_core on self core)
  unfolding lose_core on_core_connected_notify
  lose_core-Keeps self core w =
      let lost : Node = record self { core = some (disconnect core) } in
      let k : Keeps self lost = relabelled self lost refl refl refl refl refl w in
      if-both (Keeps self) core.connected
        (if-both (Keeps self) (disconnect core).connected k
          (Keeps-trans self lost _ k (reset-Keeps on respect lost)))
        k
