-- ===== src/Node/Reentrant.antt =====
-- Histories of a node whose handlers call back.
use pipewire_gobject.Prelude.{List, [], ◌∷◌, Option, none, some, not, ◌==◌, if-both}
use pipewire_gobject.Node.State.{Node, Handlers, node_info, node_removed}
use pipewire_gobject.Param.Pod.{param_new}
use pipewire_gobject.Node.State.{node_param}
use pipewire_gobject.Node.Operations.{
  queue_event, stop, NodeInfo, copied_params, on_info, on_param, on_global_remove, drain, lose_core,
}
use pipewire_gobject.Node.Control.{start, sync_node}
use pipewire_gobject.Node.Enumeration.{enum_params, enum_params_sync}
use pipewire_gobject.Node.History.{
  Operation, start_node, stop_node, info, param, enumerate_params, sync_main, enumerate_sync,
  global_remove, run_main_context, disconnect_core,
}
use pipewire_gobject.Node.Whole.{IsWhole, Respect, stop-Keeps}
use pipewire_gobject.Node.Events.{queue_event-Keeps, lose_core-Keeps}
use pipewire_gobject.Node.Begun.{start-IsWhole}
use pipewire_gobject.Node.Waits.{
  enum_params-IsWhole, drain-IsWhole, sync_node-IsWhole, enum_params_sync-IsWhole,
}
use pipewire_gobject.Prelude.{ℕ, Bool, true, false, if◌then◌else◌}
use pipewire_gobject.Prelude.Int.{ℤ}

-- An operation of a history, with the handlers that the application has connected.
unfoldable pub step_on : Handlers → Node → Operation → Node
unfolding start stop on_info on_param enum_params sync_node enum_params_sync on_global_remove drain
    lose_core
step_on on self (start_node connect_answers answers) = (start on connect_answers answers self).1
step_on on self stop_node = stop on self
step_on on self (info direct i) = on_info on direct self i
step_on on self (param direct seq id index next pod) = on_param on direct self seq id index next pod
step_on on self (enumerate_params answers id first num) = (enum_params answers self id first num).1
step_on on self (sync_main connect_answers start_answers answers timeout wakes reports) =
    (sync_node on connect_answers start_answers answers timeout wakes reports self).1
step_on on self
      (enumerate_sync connect_answers start_answers answers sync_answers timeout wakes reports id
        first num) =
    (enum_params_sync on connect_answers start_answers answers sync_answers timeout wakes reports
      self id first num).1
step_on on self (global_remove direct id) = on_global_remove on direct self id
step_on on self run_main_context = drain on self
step_on on self (disconnect_core core) = lose_core on self core

unfoldable pub run_on : Handlers → Node → List Operation → Node
unfolding step_on
run_on on self [] = self
run_on on self (operation ∷ rest) = run_on on (step_on on self operation) rest

module _ (on : Handlers) (respect : Respect on) where
  on_info-IsWhole :
      (direct : Bool) (self : Node) (i : Option NodeInfo)
      → IsWhole self
      → IsWhole (on_info on direct self i)
  unfolding on_info
  on_info-IsWhole direct self none w = w
  on_info-IsWhole direct self (some i) w =
      elim (copied_params i)
        as (λ copied. IsWhole (elim copied [
          | none ↦
              if not i.state_changed
              then self
              else queue_event on direct self (node_info true i.state i.error none)
          | some params ↦ queue_event on direct self (
              if i.state_changed
              then node_info true i.state i.error (some params)
              else node_info false none none (some params))
        ])) [
          | none ↦
              if-both IsWhole (not i.state_changed) w
                (queue_event-Keeps on respect direct self (node_info true i.state i.error none)
                  w).whole
          | some params ↦ (queue_event-Keeps on respect direct self _ w).whole
        ]

  on_param-IsWhole :
      (direct : Bool) (self : Node) (seq : ℤ) (id index next : ℕ) (pod : Option (List ℕ))
      → IsWhole self
      → IsWhole (on_param on direct self seq id index next pod)
  unfolding on_param
  on_param-IsWhole direct self seq id index next none w = w
  on_param-IsWhole direct self seq id index next (some pod) w =
      (queue_event-Keeps on respect direct self
        (node_param (param_new seq id index next (some pod))) w).whole

  step_on-IsWhole :
      (self : Node) (operation : Operation) → IsWhole self → IsWhole (step_on on self operation)
  unfolding step_on on_global_remove
  step_on-IsWhole self (start_node connect_answers answers) w =
      start-IsWhole on respect connect_answers answers self w
  step_on-IsWhole self stop_node w = (stop-Keeps on respect self w).whole
  step_on-IsWhole self (info direct i) w = on_info-IsWhole direct self i w
  step_on-IsWhole self (param direct seq id index next pod) w =
      on_param-IsWhole direct self seq id index next pod w
  step_on-IsWhole self (enumerate_params answers id first num) w =
      enum_params-IsWhole answers self id first num w
  step_on-IsWhole self (sync_main connect_answers start_answers answers timeout wakes reports) w =
      sync_node-IsWhole on respect connect_answers answers timeout wakes start_answers reports self
        w
  step_on-IsWhole self
        (enumerate_sync connect_answers start_answers answers sync_answers timeout wakes reports id
          first num)
        w =
      enum_params_sync-IsWhole on respect connect_answers sync_answers timeout wakes start_answers
        reports answers self id first num w
  step_on-IsWhole self (global_remove direct id) w =
      if-both IsWhole (not (id == self.node_id)) w
        (queue_event-Keeps on respect direct self node_removed w).whole
  step_on-IsWhole self run_main_context w = drain-IsWhole on respect self w
  step_on-IsWhole self (disconnect_core core) w = (lose_core-Keeps on respect self core w).whole

  -- Where the handlers may do anything to a node, but keep it whole and create no proxy: a node
  -- that is whole stays so through every history of starts, stops, syncs, events of PipeWire,
  -- requests for parameters that wait or do not, runs of the main context and disconnections of a
  -- core, whatever PipeWire answers: it has no proxy while it does not run, and no listener without
  -- its proxy.
  pub reentrant_history-IsWhole :
      (self : Node) (history : List Operation) → IsWhole self → IsWhole (run_on on self history)
  unfolding run_on
  reentrant_history-IsWhole self [] w = w
  reentrant_history-IsWhole self (operation ∷ rest) w =
      reentrant_history-IsWhole (step_on on self operation) rest (step_on-IsWhole self operation w)
