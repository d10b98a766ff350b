-- ===== src/Device/Same.antt =====
-- Every history of a device is one of a node: what holds of the histories of nodes holds of those
-- of devices.
use pipewire_gobject.Prelude.{◌≡◌, refl, sym, ap, ◌∙◌, subst, Option, List, [], ◌∷◌, map}
use pipewire_gobject.Prelude.Int.{ℤ}
use pipewire_gobject.Error.{Outcome}
use pipewire_gobject.Node.State.{Node}
use pipewire_gobject.Node.History
use pipewire_gobject.Node.Steady.{IsSteady}
use pipewire_gobject.Device.State.{Device}
use pipewire_gobject.Device.History.{
  Operation, start_device, stop_device, info, param, enumerate_params, global_remove, sync_main,
  enumerate_sync, run_main_context, disconnect_core, step, run,
}
use pipewire_gobject.Device.Mirror.{
  as_option_info, on_info-mirrors, on_param-mirrors, on_global_remove-mirrors, drain-mirrors,
  lose_core-mirrors,
}
use pipewire_gobject.Device.Stopping.{as_node, stop-mirrors}
use pipewire_gobject.Param.Pod.{Param}
use pipewire_gobject.Device.Requests.{
  sync_device-mirrors, enum_params_sync-mirrors, as_reports, as_arrival,
}
use pipewire_gobject.Device.Asking.{start-mirrors, enum_params-mirrors}

-- The operation of a node that an operation of a device is.
abbrev pub as_operation : Operation → History.Operation
as_operation (start_device connect_answers answers) = History.start_node connect_answers answers
as_operation stop_device = History.stop_node
as_operation (info direct i) = History.info direct (as_option_info i)
as_operation (param direct seq id index next pod) = History.param direct seq id index next pod
as_operation (enumerate_params answers id first num) = History.enumerate_params answers id first num
as_operation (sync_main connect_answers start_answers answers timeout wakes reports) =
    History.sync_main connect_answers start_answers answers timeout wakes (map as_arrival reports)
as_operation
      (enumerate_sync connect_answers start_answers answers sync_answers timeout wakes reports id
        first num) =
    History.enumerate_sync connect_answers start_answers answers sync_answers timeout wakes
      (as_reports reports) id first num
as_operation (global_remove direct id) = History.global_remove direct id
as_operation run_main_context = History.run_main_context
as_operation (disconnect_core core) = History.disconnect_core core

pub step-mirrors :
    (self : Device) (operation : Operation)
    → as_node (step self operation) ≡ History.step (as_node self) (as_operation operation)
unfolding step History.step
step-mirrors self (start_device connect_answers answers) =
    ap (λ (r : Outcome (Unit {0}) × Node). r.1) (start-mirrors connect_answers answers self)
step-mirrors self stop_device = stop-mirrors self
step-mirrors self (info direct i) = on_info-mirrors direct self i
step-mirrors self (param direct seq id index next pod) =
    on_param-mirrors direct self seq id index next pod
step-mirrors self (enumerate_params answers id first num) =
    ap (λ (r : Outcome ℤ × Node). r.1) (enum_params-mirrors answers self id first num)
step-mirrors self (sync_main connect_answers start_answers answers timeout wakes reports) =
    ap (λ (r : Option (Outcome (Unit {0})) × Node). r.1)
      (sync_device-mirrors connect_answers start_answers answers timeout wakes reports self)
step-mirrors self
      (enumerate_sync connect_answers start_answers answers sync_answers timeout wakes reports id
        first num) =
    ap (λ (r : Option (Outcome (List Param)) × Node). r.1)
      (enum_params_sync-mirrors connect_answers start_answers sync_answers timeout wakes reports
        answers self id first num)
step-mirrors self (global_remove direct id) = on_global_remove-mirrors direct self id
step-mirrors self run_main_context = drain-mirrors self
step-mirrors self (disconnect_core core) = lose_core-mirrors self core

-- Where no handler calls back, every history of a device is one of a node that never has a state or
-- an error: after the same starts, stops, syncs, events, requests, runs of the main context
-- and disconnections, with the same answers of PipeWire, both have the same session, descriptors,
-- parameters and attached events, and have sent the same notifications.
pub run-mirrors :
    (self : Device) (history : List Operation)
    → as_node (run self history) ≡ History.run (as_node self) (map as_operation history)
unfolding run History.run
run-mirrors self [] = refl
run-mirrors self (operation ∷ rest) =
    run-mirrors (step self operation) rest
    ∙ ap (λ now. History.run now (map as_operation rest)) (step-mirrors self operation)

-- Where no handler calls back, a device keeps what a node keeps, through every history: it has both
-- proxies and listeners while it runs and is bound, and none of them, no descriptors and no
-- parameters while it does not.
pub device_history-IsSteady :
    (self : Device) (history : List Operation)
    → IsSteady (as_node self)
    → IsSteady (as_node (run self history))
device_history-IsSteady self history w =
    subst IsSteady (sym (run-mirrors self history))
      (History.node_history-IsSteady (as_node self) (map as_operation history) w)
