-- ===== src/Device/Operations.antt =====
-- src/pwg-device.c: the events of a device, those of the PipeWire thread included, and stop.
use pipewire_gobject.Prelude.{
  ℕ, ◌+◌, Bool, false, not, ◌&&◌, ◌||◌, Option, none, some, List, [], ◌∷◌, ◌++◌, ◌==◌,
  if◌then◌else◌,
}
use pipewire_gobject.Prelude.Word.{u32}
use pipewire_gobject.Core.Connection.{Core, disconnect}
use pipewire_gobject.Param.Pod.{param_new}
use pipewire_gobject.Prelude.Int.{ℤ}
use pipewire_gobject.Node.State.{ParamInfoCopy}
use pipewire_gobject.Node.Operations.{param_infos_of}
use pipewire_gobject.Device.State.{
  device_param, notify_param_infos, signal_param, Device, DeviceEvent, DeviceReport, device_info,
  device_removed, Handlers, emit, notify_running, notify_bound,
}

-- pwg_device_destroy_pipewire_objects: a listener goes with its proxy, and none stays without one
unfoldable pub destroy_pipewire_objects : Device → Device
destroy_pipewire_objects self = record self {
  device = false;
  has_device_listener = false;
  registry = false;
  has_registry_listener = false;
}

-- The steps that pwg_device_reset and pwg_device_stop share.
unfoldable pub set_unbound : Handlers → Device → Device
unfolding emit
set_unbound on self =
    if self.bound then emit on notify_bound (record self { bound = false }) else self

unfoldable pub set_stopped : Handlers → Device → Device
unfolding emit
set_stopped on self =
    if self.running then emit on notify_running (record self { running = false }) else self

unfoldable pub clear_lists : Device → Device
clear_lists self = record self { param_infos = []; params = [] }

-- pwg_device_reset
unfoldable pub reset : Handlers → Device → Device
unfolding clear_lists set_unbound set_stopped
reset on self = clear_lists (
    set_stopped on (
      set_unbound on (record self {
        registry = false;
        device = false;
        has_registry_listener = false;
        has_device_listener = false;
        generation = u32 (self.generation + 1);
      })))

-- pwg_device_stop
unfoldable pub stop : Handlers → Device → Device
unfolding destroy_pipewire_objects clear_lists set_unbound set_stopped
stop on self =
    if not self.running && not self.registry && not self.device
    then self
    else clear_lists (
        set_stopped on (
          set_unbound on
            (destroy_pipewire_objects (record self { generation = u32 (self.generation + 1) }))))

-- pwg_device_update_param_infos
unfoldable pub update_param_infos : Handlers → Device → List ParamInfoCopy → Device
unfolding param_infos_of emit
update_param_infos on self copies =
    emit on notify_param_infos (record self { param_infos = param_infos_of copies })

-- The branches of pwg_device_dispatch_event.
unfoldable pub apply_report : Handlers → Device → DeviceReport → Device
unfolding update_param_infos emit stop
apply_report on self (device_info copies) = update_param_infos on self copies
apply_report on self (device_param none) = self
apply_report on self (device_param (some param)) =
    emit on (signal_param param) (record self { params = self.params ++ param ∷ [] })
apply_report on self device_removed = stop on self

-- pwg_device_dispatch_event
unfoldable pub dispatch_event : Handlers → Device → DeviceEvent → Device
unfolding apply_report
dispatch_event on self event =
    if not self.running || not (event.generation == self.generation)
    then self
    else apply_report on self event.report

-- pwg_device_queue_event; `direct` is GLib's choice in g_main_context_invoke_full
unfoldable pub queue_event : Handlers → Bool → Device → DeviceReport → Device
unfolding dispatch_event
queue_event on direct self report =
    let event : DeviceEvent = record { generation = self.generation; report = report } in
    if direct
    then dispatch_event on self event
    else record self { queue = self.queue ++ event ∷ [] }

-- struct pw_device_info, as far as the device reads it: whether change_mask has the parameters, and
-- the array `params`, which may be NULL
pub record DeviceInfo : Type 0 where
  pub params_changed : Bool
  pub params : Option (List ParamInfoCopy)

-- pwg_device_on_info
unfoldable pub on_info : Handlers → Bool → Device → Option DeviceInfo → Device
unfolding queue_event
on_info on direct self none = self
on_info on direct self (some info) = elim info.params [
  | some params ↦ queue_event on direct self (device_info params)
  | none ↦ if not info.params_changed then self else queue_event on direct self (device_info [])
]

-- pwg_device_on_param
unfoldable pub on_param : Handlers → Bool → Device → ℤ → ℕ → ℕ → ℕ → Option (List ℕ) → Device
unfolding queue_event param_new
on_param on direct self seq id index next none = self
on_param on direct self seq id index next (some pod) =
    queue_event on direct self (device_param (param_new seq id index next (some pod)))

-- pwg_device_on_global_remove
unfoldable pub on_global_remove : Handlers → Bool → Device → ℕ → Device
unfolding queue_event
on_global_remove on direct self id =
    if not (id == self.device_id) then self else queue_event on direct self device_removed

-- The main context runs the sources that are attached, oldest first.
unfoldable pub run_sources : Handlers → Device → List DeviceEvent → Device
unfolding dispatch_event
run_sources on self [] = self
run_sources on self (event ∷ events) = run_sources on (dispatch_event on self event) events

unfoldable pub drain : Handlers → Device → Device
unfolding run_sources
drain on self = run_sources on (record self { queue = [] }) self.queue

-- pwg_device_on_core_connected_notify
unfoldable pub on_core_connected_notify : Handlers → Device → Core → Device
unfolding reset
on_core_connected_notify on self core = if core.connected then self else reset on self

-- pwg_core_disconnect on the core of the device: a core that was connected notifies.
unfoldable pub lose_core : Handlers → Device → Core → Device
unfolding on_core_connected_notify disconnect
lose_core on self core =
    let lost = record self { core = some (disconnect core) } in
    if core.connected then on_core_connected_notify on lost (disconnect core) else lost
