-- ===== src/Node/History.antt =====
-- Histories of a node: all operations in any order keep it steady.
use pipewire_gobject.Prelude.{ℕ, Bool, not, Option, List, [], ◌∷◌, ◌==◌, if-both}
use pipewire_gobject.Prelude.Int.{ℤ}
use pipewire_gobject.Node.Enumeration.{ParamAnswers, enum_params}
use pipewire_gobject.Core.Connection.{Core, ConnectAnswers}
use pipewire_gobject.Node.State.{Node, node_removed, quiet}
use pipewire_gobject.Node.Operations.{
  stop, NodeInfo, on_info, on_param, on_global_remove, drain, lose_core,
}
use pipewire_gobject.Node.Control.{StartAnswers, start}
use pipewire_gobject.Node.Steady.{
  IsSteady, stop-IsSteady, lose_core-IsSteady, queue_event-IsSteady, on_info-IsSteady,
  on_param-IsSteady,
}
use pipewire_gobject.Core.Sync.{SyncAnswers, Wake}
use pipewire_gobject.Node.State.{NodeReport}
use pipewire_gobject.Node.Control.{sync_node}
use pipewire_gobject.Node.Enumeration.{enum_params_sync}
use pipewire_gobject.Node.Starting.{start-IsSteady}
use pipewire_gobject.Node.Waiting.{
  drain-IsSteady, sync_node-IsSteady, enum_params-IsSteady, enum_params_sync-IsSteady,
}

pub data Operation : Type 0 where
  start_node : ConnectAnswers → StartAnswers → Operation
  stop_node : Operation
  info : Bool → Option NodeInfo → Operation
  param : Bool → ℤ → ℕ → ℕ → ℕ → Option (List ℕ) → Operation
  enumerate_params : ParamAnswers → ℕ → ℕ → ℕ → Operation
  sync_main :
      ConnectAnswers
      → StartAnswers
      → SyncAnswers
      → ℕ
      → List Wake
      → List (Bool × NodeReport)
      → Operation
  enumerate_sync :
      ConnectAnswers
      → StartAnswers
      → ParamAnswers
      → SyncAnswers
      → ℕ
      → List Wake
      → (ℤ → List (Bool × NodeReport))
      → ℕ
      → ℕ
      → ℕ
      → Operation
  global_remove : Bool → ℕ → Operation
  run_main_context : Operation
  disconnect_core : Core → Operation

unfoldable pub step : Node → Operation → Node
unfolding start stop on_info on_param enum_params sync_node enum_params_sync on_global_remove drain
    lose_core
step self (start_node connect_answers answers) = (start quiet connect_answers answers self).1
step self stop_node = stop quiet self
step self (info direct i) = on_info quiet direct self i
step self (param direct seq id index next pod) = on_param quiet direct self seq id index next pod
step self (enumerate_params answers id first num) = (enum_params answers self id first num).1
step self (sync_main connect_answers start_answers answers timeout wakes reports) =
    (sync_node quiet connect_answers start_answers answers timeout wakes reports self).1
step self
      (enumerate_sync connect_answers start_answers answers sync_answers timeout wakes reports id
        first num) =
    (enum_params_sync quiet connect_answers start_answers answers sync_answers timeout wakes reports
      self id first num).1
step self (global_remove direct id) = on_global_remove quiet direct self id
step self run_main_context = drain quiet self
step self (disconnect_core core) = lose_core quiet self core

unfoldable pub run : Node → List Operation → Node
unfolding step
run self [] = self
run self (operation ∷ rest) = run (step self operation) rest

step-IsSteady :
    (self : Node) (operation : Operation) → IsSteady self → IsSteady (step self operation)
unfolding step on_global_remove drain
step-IsSteady self (start_node connect_answers answers) w =
    start-IsSteady connect_answers answers self w
step-IsSteady self stop_node w = stop-IsSteady self w
step-IsSteady self (info direct i) w = on_info-IsSteady self direct i w
step-IsSteady self (param direct seq id index next pod) w =
    on_param-IsSteady self direct seq id index next pod w
step-IsSteady self (enumerate_params answers id first num) w =
    enum_params-IsSteady answers self id first num w
step-IsSteady self (sync_main connect_answers start_answers answers timeout wakes reports) w =
    sync_node-IsSteady connect_answers start_answers answers timeout wakes reports self w
step-IsSteady self
      (enumerate_sync connect_answers start_answers answers sync_answers timeout wakes reports id
        first num)
      w =
    enum_params_sync-IsSteady connect_answers start_answers sync_answers timeout wakes reports
      answers self id first num w
step-IsSteady self (global_remove direct id) w =
    if-both IsSteady (not (id == self.node_id)) w (queue_event-IsSteady self direct node_removed w)
step-IsSteady self run_main_context w = drain-IsSteady self w
step-IsSteady self (disconnect_core core) w = lose_core-IsSteady self core w

-- Where no handler calls back: a steady node stays so through every history of starts, stops, syncs,
-- events of PipeWire, requests for parameters that wait or do not, runs of the main context and
-- disconnections of a core, whatever PipeWire answers and whether events are dispatched at once or
-- later: it has both proxies and listeners while it runs and is bound, and none of them, no state,
-- no error and no parameters while it does not.
pub node_history-IsSteady :
    (self : Node) (history : List Operation) → IsSteady self → IsSteady (run self history)
unfolding run
node_history-IsSteady self [] w = w
node_history-IsSteady self (operation ∷ rest) w =
    node_history-IsSteady (step self operation) rest (step-IsSteady self operation w)
