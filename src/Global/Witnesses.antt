-- ===== src/Global/Witnesses.antt =====
-- The choice of a name at a concrete global.
use pipewire_gobject.Prelude.{some, [], ◌∷◌}
use pipewire_gobject.Global.{Global}
use pipewire_gobject.Global.Names.{Picks, dup_first_property-Picks}

abbrev port : Global
port = record {
  id = 40;
  permissions = 457;
  interface_type = some "PipeWire:Interface:Port";
  version = 3;
  properties = ("node.name", "") ∷ ("port.name", "playback_FL") ∷ [];
}

dup_first_property-Picks_example : Picks port ("node.name" ∷ "port.name" ∷ "device.name" ∷ [])
dup_first_property-Picks_example =
    dup_first_property-Picks port ("node.name" ∷ "port.name" ∷ "device.name" ∷ [])
