-- ===== src/Wrappers.antt =====
-- The wrappers on one core, src/pwg-registry.c, src/pwg-node.c, src/pwg-device.c, src/pwg-link.c and
-- src/pwg-metadata.c with src/pwg-core.c: they share it, and all hear when it is lost.
use pipewire_gobject.Prelude.{List}
use pipewire_gobject.Core.Clients.{Client, Shared, Event, run_shared}
use pipewire_gobject.Core.Sharing.{NeedCore, history-NeedCore}
use pipewire_gobject.Core.Either.{either_client}
use pipewire_gobject.Registry.OnCore.{registry_client}
use pipewire_gobject.Node.OnCore.{node_client}
use pipewire_gobject.Device.OnCore.{device_client}
use pipewire_gobject.Link.OnCore.{link_client}
use pipewire_gobject.Metadata.OnCore.{metadata_client}
mod Witnesses

-- A wrapper is a registry, a node, a device, a link or a metadata object.
abbrev pub wrapper_client : Client
wrapper_client = either_client registry_client (
    either_client node_client
      (either_client device_client (either_client link_client metadata_client)))

-- Where no handler calls back: registries, nodes, devices, links and metadata objects that share a
-- core, of which each that runs has it connected, stay so through every history of connects and
-- disconnects of the core and of operations of any of the wrappers, in any order and whatever
-- PipeWire answers: starts, stops, events and runs of the main context, the syncs and requests of
-- nodes and devices, and the clears of metadata. So no wrapper runs once the core is disconnected.
pub wrappers-NeedCore :
    (self : Shared wrapper_client) (history : List (Event wrapper_client))
    → NeedCore wrapper_client self
    → NeedCore wrapper_client (run_shared wrapper_client self history)
wrappers-NeedCore self history all = history-NeedCore wrapper_client self history all
