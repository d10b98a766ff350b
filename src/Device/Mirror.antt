-- ===== src/Device/Mirror.antt =====
-- A device is a node that never has a state: each operation of src/pwg-device.c does what the one
-- of src/pwg-node.c does.
use pipewire_gobject.Prelude.{
  ℕ, ◌≡◌, refl, ap, ◌∙◌, Bool, true, false, not, ◌||◌, Option, none, some, List, [], ◌∷◌, ◌++◌, map,
  ◌==◌, if-map,
}
use mathlib.Core.List.{map-append}
use pipewire_gobject.Prelude.Int.{ℤ}
use pipewire_gobject.Core.Connection.{Core, disconnect}
use pipewire_gobject.Param.Pod.{param_new}
use pipewire_gobject.Node.State.{
  ParamInfoCopy, Node, NodeSignal, NodeEvent, NodeReport, interface_node,
}
use pipewire_gobject.Node.State
use pipewire_gobject.Node.Operations
use pipewire_gobject.Device.State.{
  Device, notify_param_infos, signal_param, DeviceEvent, DeviceReport, device_info, device_param,
  device_removed, quiet,
}
use pipewire_gobject.Device.Operations.{
  update_param_infos, apply_report, dispatch_event, queue_event, DeviceInfo, on_info, on_param,
  on_global_remove, run_sources, drain, on_core_connected_notify, lose_core,
}
use pipewire_gobject.Device.Stopping.{
  as_report, as_event, as_node, emit-mirrors, stop-mirrors, reset-mirrors,
}

apply_report-mirrors :
    (self : Device) (report : DeviceReport)
    → as_node (apply_report quiet self report)
      ≡ Operations.apply_report State.quiet (as_node self) (as_report report)
unfolding apply_report Operations.apply_report Operations.apply_param_infos update_param_infos
    Operations.update_param_infos
apply_report-mirrors self (device_info copies) =
    emit-mirrors notify_param_infos (record self { param_infos = Operations.param_infos_of copies })
apply_report-mirrors self (device_param none) = refl
apply_report-mirrors self (device_param (some param)) =
    emit-mirrors (signal_param param) (record self { params = self.params ++ param ∷ [] })
apply_report-mirrors self device_removed = stop-mirrors self

dispatch_event-mirrors :
    (self : Device) (event : DeviceEvent)
    → as_node (dispatch_event quiet self event)
      ≡ Operations.dispatch_event State.quiet (as_node self) (as_event event)
unfolding dispatch_event Operations.dispatch_event
dispatch_event-mirrors self event =
    if-map as_node (not self.running || not (event.generation == self.generation)) refl
      (apply_report-mirrors self event.report)

pub queue_event-mirrors :
    (direct : Bool) (self : Device) (report : DeviceReport)
    → as_node (queue_event quiet direct self report)
      ≡ Operations.queue_event State.quiet direct (as_node self) (as_report report)
unfolding queue_event Operations.queue_event
queue_event-mirrors direct self report =
    let event : DeviceEvent = record { generation = self.generation; report = report } in
    if-map as_node direct (dispatch_event-mirrors self event) (
      ap (λ events. record (as_node self) { queue = events })
        (map-append as_event self.queue (event ∷ [])))

-- The information of a device, as one of a node.
abbrev pub as_info : DeviceInfo → Operations.NodeInfo
as_info info = record {
  state_changed = false;
  params_changed = info.params_changed;
  state = none;
  error = none;
  params = info.params;
}

abbrev pub as_option_info : Option DeviceInfo → Option Operations.NodeInfo
as_option_info none = none
as_option_info (some info) = some (as_info info)

some_info-mirrors :
    (direct : Bool) (self : Device) (changed : Bool) (params : Option (List ParamInfoCopy))
    → let told : DeviceInfo = record { params_changed = changed; params = params } in
      as_node (on_info quiet direct self (some told))
      ≡ Operations.on_info State.quiet direct (as_node self) (some (as_info told))
unfolding on_info Operations.on_info Operations.copied_params
some_info-mirrors direct self changed (some params) =
    queue_event-mirrors direct self (device_info params)
some_info-mirrors direct self true none = queue_event-mirrors direct self (device_info [])
some_info-mirrors direct self false none = refl

pub on_info-mirrors :
    (direct : Bool) (self : Device) (info : Option DeviceInfo)
    → as_node (on_info quiet direct self info)
      ≡ Operations.on_info State.quiet direct (as_node self) (as_option_info info)
unfolding on_info Operations.on_info
on_info-mirrors direct self none = refl
on_info-mirrors direct self (some info) =
    some_info-mirrors direct self info.params_changed info.params

pub on_param-mirrors :
    (direct : Bool) (self : Device) (seq : ℤ) (id index next : ℕ) (pod : Option (List ℕ))
    → as_node (on_param quiet direct self seq id index next pod)
      ≡ Operations.on_param State.quiet direct (as_node self) seq id index next pod
unfolding on_param Operations.on_param
on_param-mirrors direct self seq id index next none = refl
on_param-mirrors direct self seq id index next (some pod) =
    queue_event-mirrors direct self (device_param (param_new seq id index next (some pod)))

pub on_global_remove-mirrors :
    (direct : Bool) (self : Device) (id : ℕ)
    → as_node (on_global_remove quiet direct self id)
      ≡ Operations.on_global_remove State.quiet direct (as_node self) id
unfolding on_global_remove Operations.on_global_remove
on_global_remove-mirrors direct self id =
    if-map as_node (not (id == self.device_id)) refl
      (queue_event-mirrors direct self device_removed)

run_sources-mirrors :
    (self : Device) (events : List DeviceEvent)
    → as_node (run_sources quiet self events)
      ≡ Operations.run_sources State.quiet (as_node self) (map as_event events)
unfolding run_sources Operations.run_sources
run_sources-mirrors self [] = refl
run_sources-mirrors self (event ∷ events) =
    run_sources-mirrors (dispatch_event quiet self event) events
    ∙ ap (λ now. Operations.run_sources State.quiet now (map as_event events))
        (dispatch_event-mirrors self event)

pub drain-mirrors :
    (self : Device) → as_node (drain quiet self) ≡ Operations.drain State.quiet (as_node self)
unfolding drain Operations.drain
drain-mirrors self = run_sources-mirrors (record self { queue = [] }) self.queue

pub lose_core-mirrors :
    (self : Device) (core : Core)
    → as_node (lose_core quiet self core) ≡ Operations.lose_core State.quiet (as_node self) core
unfolding lose_core Operations.lose_core on_core_connected_notify
    Operations.on_core_connected_notify
lose_core-mirrors self core =
    let lost : Device = record self { core = some (disconnect core) } in
    if-map as_node core.connected
      (if-map as_node (disconnect core).connected refl (reset-mirrors lost)) refl
