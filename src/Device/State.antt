-- ===== src/Device/State.antt =====
-- src/pwg-device.c: struct _PwgDevice, PwgDeviceEvent, the notifications and the signal.
use pipewire_gobject.Prelude.{
  ℕ, String, Bool, false, Option, none, some, List, [], ◌∷◌, ◌++◌, if◌then◌else◌,
}
use pipewire_gobject.Core.Connection.{Core}
use pipewire_gobject.Global.{Global, is_interface}
use pipewire_gobject.Param.Pod.{Param}
use pipewire_gobject.ParamInfo.{ParamInfo}
use pipewire_gobject.Node.State.{ParamInfoCopy}

-- PwgDeviceEventType, with the fields of the event that go with it: param_infos, or param
pub data DeviceReport : Type 0 where
  device_info : List ParamInfoCopy → DeviceReport
  device_param : Option Param → DeviceReport
  device_removed : DeviceReport

-- PwgDeviceEvent
pub record DeviceEvent : Type 0 where
  pub generation : ℕ  -- unsigned int
  pub report : DeviceReport

-- What g_object_notify_by_pspec and g_signal_emit report to the application.
pub data DeviceSignal : Type 0 where
  notify_running notify_bound notify_param_infos : DeviceSignal
  signal_param : Param → DeviceSignal

-- struct _PwgDevice. `registry` and `device` say whether the pointer is not NULL. `queue` holds the
-- events of the sources that are attached to `main_context`, oldest first.
pub record Device : Type 0 where
  pub core : Option Core
  pub global : Option Global
  pub running : Bool
  pub bound : Bool
  pub param_infos : List ParamInfo
  pub params : List Param
  pub registry : Bool
  pub device : Bool
  pub device_id : ℕ
  pub has_registry_listener : Bool
  pub has_device_listener : Bool
  pub generation : ℕ  -- unsigned int
  pub next_seq : ℕ  -- int, from 1 on
  pub queue : List DeviceEvent
  pub emitted : List DeviceSignal

abbrev pub Handlers : Type 0
Handlers = DeviceSignal → Device → Device

-- No handler is connected, or none that calls back into the device.
abbrev pub quiet : Handlers
quiet sig self = self

unfoldable pub emit : Handlers → DeviceSignal → Device → Device
emit on sig self = on sig (record self { emitted = self.emitted ++ sig ∷ [] })

-- PipeWire's PW_TYPE_INTERFACE_Device
abbrev pub interface_device : String
interface_device = "PipeWire:Interface:Device"

-- pwg_device_init, pwg_device_constructed and pwg_device_new: only a device global has a wrapper
unfoldable pub device_new : Core → Global → Option Device
unfolding is_interface
device_new core global =
    if is_interface global interface_device
    then some (record {
      core = some core;
      global = some global;
      running = false;
      bound = false;
      param_infos = [];
      params = [];
      registry = false;
      device = false;
      device_id = global.id;
      has_registry_listener = false;
      has_device_listener = false;
      generation = 0;
      next_seq = 1;
      queue = [];
      emitted = [];
    })
    else none
