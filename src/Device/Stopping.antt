-- ===== src/Device/Stopping.antt =====
-- A device as a node, and the stop of it as that of a node.
use pipewire_gobject.Prelude.{
  ◌+◌, ◌≡◌, refl, ap, ◌∙◌, false, not, ◌&&◌, Option, none, some, [], ◌∷◌, map, if◌then◌else◌,
  if-map,
}
use mathlib.Core.List.{map-append}
use pipewire_gobject.Prelude.Word.{u32}
use pipewire_gobject.Global.{Global, is_interface}
use pipewire_gobject.Node.State.{
  ParamInfoCopy, Node, NodeSignal, NodeEvent, NodeReport, interface_node,
}
use pipewire_gobject.Node.State
use pipewire_gobject.Node.Operations
use pipewire_gobject.Device.State.{
  Device, DeviceSignal, notify_running, notify_bound, notify_param_infos, signal_param, DeviceEvent,
  DeviceReport, device_info, device_param, device_removed, quiet, emit, interface_device,
}
use pipewire_gobject.Device.Operations.{
  destroy_pipewire_objects, set_unbound, set_stopped, clear_lists, reset, stop,
}

abbrev pub as_signal : DeviceSignal → NodeSignal
as_signal notify_running = State.notify_running
as_signal notify_bound = State.notify_bound
as_signal notify_param_infos = State.notify_param_infos
as_signal (signal_param param) = State.signal_param param

abbrev pub as_report : DeviceReport → NodeReport
as_report (device_info copies) = State.node_info false none none (some copies)
as_report (device_param param) = State.node_param param
as_report device_removed = State.node_removed

abbrev pub as_event : DeviceEvent → NodeEvent
as_event event = record { generation = event.generation; report = as_report event.report }

-- The global of a device, as one of a node.
abbrev pub as_global : Global → Global
as_global global = record global {
  interface_type = if is_interface global interface_device then some interface_node else none;
}

abbrev pub as_option_global : Option Global → Option Global
as_option_global none = none
as_option_global (some global) = some (as_global global)

-- The device, as a node.
abbrev pub as_node : Device → Node
as_node self = record {
  core = self.core;
  global = as_option_global self.global;
  running = self.running;
  bound = self.bound;
  state = none;
  error = none;
  param_infos = self.param_infos;
  params = self.params;
  registry = self.registry;
  node = self.device;
  node_id = self.device_id;
  has_registry_listener = self.has_registry_listener;
  has_node_listener = self.has_device_listener;
  generation = self.generation;
  next_seq = self.next_seq;
  queue = map as_event self.queue;
  emitted = map as_signal self.emitted;
}

pub emit-mirrors :
    (sig : DeviceSignal) (self : Device)
    → as_node (emit quiet sig self) ≡ State.emit State.quiet (as_signal sig) (as_node self)
unfolding emit State.emit
emit-mirrors sig self =
    ap (λ sigs. record (as_node self) { emitted = sigs })
      (map-append as_signal self.emitted (sig ∷ []))

set_unbound-mirrors :
    (self : Device)
    → as_node (set_unbound quiet self) ≡ Operations.set_unbound State.quiet (as_node self)
unfolding set_unbound Operations.set_unbound
set_unbound-mirrors self =
    if-map as_node self.bound (emit-mirrors notify_bound (record self { bound = false })) refl

set_stopped-mirrors :
    (self : Device)
    → as_node (set_stopped quiet self) ≡ Operations.set_stopped State.quiet (as_node self)
unfolding set_stopped Operations.set_stopped
set_stopped-mirrors self =
    if-map as_node self.running (emit-mirrors notify_running (record self { running = false })) refl

-- The end of a stop and of a reset; the node has no state to clear.
ended-mirrors :
    (self : Device)
    → as_node (clear_lists (set_stopped quiet (set_unbound quiet self)))
      ≡ Operations.clear_lists (
          Operations.clear_state State.quiet (
            Operations.set_stopped State.quiet (Operations.set_unbound State.quiet (as_node self))))
unfolding clear_lists Operations.clear_lists Operations.clear_state Operations.clear_name
    Operations.clear_error
ended-mirrors self =
    ap (λ now. Operations.clear_lists (Operations.clear_state State.quiet now))
      (set_stopped-mirrors (set_unbound quiet self)
        ∙ ap (Operations.set_stopped State.quiet) (set_unbound-mirrors self))

pub stop-mirrors :
    (self : Device) → as_node (stop quiet self) ≡ Operations.stop State.quiet (as_node self)
unfolding stop Operations.stop destroy_pipewire_objects Operations.destroy_pipewire_objects
stop-mirrors self = if-map as_node (not self.running && not self.registry && not self.device) refl (
    ended-mirrors
      (destroy_pipewire_objects (record self { generation = u32 (self.generation + 1) })))

pub reset-mirrors :
    (self : Device) → as_node (reset quiet self) ≡ Operations.reset State.quiet (as_node self)
unfolding reset Operations.reset
reset-mirrors self = ended-mirrors (record self {
  registry = false;
  device = false;
  has_registry_listener = false;
  has_device_listener = false;
  generation = u32 (self.generation + 1);
})
