-- ===== src/Node/OnCore.antt =====
-- A node as a client of its core, of src/pwg-node.c: what its operations do to the core, and that a
-- session needs a connection.
use pipewire_gobject.Prelude.{◌≡◌, refl, false, some, arith}
use pipewire_gobject.Core.Connection.{Core}
use pipewire_gobject.Core.Clients.{Client}
use pipewire_gobject.Node.State.{Node, quiet, emit}
use pipewire_gobject.Node.Operations.{
  clear_name, clear_error, clear_state, clear_lists, set_unbound, set_stopped, reset, drain, stop,
  on_info, on_param, on_global_remove, on_core_connected_notify,
}
use pipewire_gobject.Node.Calm.{
  stop-Calm, on_info-Calm, on_param-Calm, on_global_remove-Calm, drain-Calm,
}
use pipewire_gobject.Node.History.{
  Operation, start_node, stop_node, info, param, enumerate_params, sync_main, enumerate_sync,
  global_remove, run_main_context, disconnect_core, step,
}
use pipewire_gobject.Node.OnCoreWaits.{enum_params-Holds, sync_node-Holds, enum_params_sync-Holds}
use pipewire_gobject.Node.OnCoreStart.{Holds, Calm-Holds, started-Holds}

-- What a node does itself, and not its core.
abbrev pub IsOwn : Operation → Type 0
IsOwn (disconnect_core core) = ⊥
IsOwn _ = Unit {0}

pub step-Holds :
    (self : Node) (operation : Operation) (old : Core)
    → IsOwn operation
    → Holds old self
    → Holds old (step self operation)
unfolding step
step-Holds self (start_node connect_answers answers) old own h =
    started-Holds old connect_answers answers self h
step-Holds self stop_node old own h = Calm-Holds old self (stop quiet self) (stop-Calm self) h
step-Holds self (info direct i) old own h =
    Calm-Holds old self (on_info quiet direct self i) (on_info-Calm direct self i) h
step-Holds self (param direct seq id index next pod) old own h =
    Calm-Holds old self (on_param quiet direct self seq id index next pod)
      (on_param-Calm direct self seq id index next pod) h
step-Holds self (enumerate_params answers id first num) old own h =
    enum_params-Holds old answers self id first num h
step-Holds self (sync_main connect_answers start_answers answers timeout wakes reports) old own h =
    sync_node-Holds old connect_answers start_answers answers timeout wakes reports self h
step-Holds self
      (enumerate_sync connect_answers start_answers answers sync_answers timeout wakes reports id
        first num)
      old own h =
    enum_params_sync-Holds old connect_answers start_answers sync_answers timeout wakes reports
      answers self id first num h
step-Holds self (global_remove direct id) old own h =
    Calm-Holds old self (on_global_remove quiet direct self id)
      (on_global_remove-Calm direct self id) h
step-Holds self run_main_context old own h =
    Calm-Holds old self (drain quiet self) (drain-Calm self) h
step-Holds self (disconnect_core core) old own h = absurd own

pub reset_stops :
    (self : Node) (now : Core)
    → now.connected ≡ false
    → (on_core_connected_notify quiet self now).running ≡ false
unfolding on_core_connected_notify reset clear_lists clear_state set_stopped set_unbound clear_name
    clear_error emit
reset_stops self now off = ground (arith, off)

-- Nodes share a core.
abbrev pub node_client : Client
node_client = record {
  State = Node;
  Operation = (operation : Operation) × IsOwn operation;
  core = λ self. self.core;
  set_core = λ now self. record self { core = some now };
  running = λ self. self.running;
  step = λ self operation. step self operation.0;
  on_core_connected_notify = on_core_connected_notify quiet;
  core-set_core = λ now self. refl;
  running-set_core = λ now self. refl;
  core-step = λ self operation old e runs.
      step-Holds self operation.0 old operation.1 (old, e, (λ on. on), runs);
  notify_stops = reset_stops;
}
