-- ===== src/Device/OnCore.antt =====
-- A device as a client of its core, of src/pwg-device.c: it is the node that it mirrors.
use pipewire_gobject.Prelude.{◌≡◌, refl, sym, subst, false, some, arith}
use pipewire_gobject.Core.Connection.{Core}
use pipewire_gobject.Core.Clients.{Client}
use pipewire_gobject.Node.OnCore
use pipewire_gobject.Node.OnCoreStart.{Holds}
use pipewire_gobject.Device.State.{Device, quiet, emit}
use pipewire_gobject.Device.Operations.{
  clear_lists, set_unbound, set_stopped, reset, on_core_connected_notify,
}
use pipewire_gobject.Device.Stopping.{as_node}
use pipewire_gobject.Device.History.{Operation, step}
use pipewire_gobject.Device.Same.{as_operation, step-mirrors}

-- What a device does itself, and not its core.
abbrev pub IsOwn : Operation → Type 0
IsOwn operation = OnCore.IsOwn (as_operation operation)

pub step-Holds :
    (self : Device) (operation : Operation) (old : Core)
    → IsOwn operation
    → Holds old (as_node self)
    → Holds old (as_node (step self operation))
step-Holds self operation old own h =
    subst (Holds old) (sym (step-mirrors self operation))
      (OnCore.step-Holds (as_node self) (as_operation operation) old own h)

pub reset_stops :
    (self : Device) (now : Core)
    → now.connected ≡ false
    → (on_core_connected_notify quiet self now).running ≡ false
unfolding on_core_connected_notify reset clear_lists set_stopped set_unbound emit
reset_stops self now off = ground (arith, off)

-- Devices share a core.
abbrev pub device_client : Client
device_client = record {
  State = Device;
  Operation = (operation : Operation) × IsOwn operation;
  core = λ self. self.core;
  set_core = λ now self. record self { core = some now };
  running = λ self. self.running;
  step = λ self operation. step self operation.0;
  on_core_connected_notify = on_core_connected_notify quiet;
  core-set_core = λ now self. refl;
  running-set_core = λ now self. refl;
  core-step = λ self operation old e runs.
      step-Holds self operation.0 old operation.1 (old, e, (λ on. on), runs);
  notify_stops = reset_stops;
}
