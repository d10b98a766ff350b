-- ===== src/Views/NodeInfo.antt =====
-- src/pwg-node-info.c: a view of a node global, which only reads its properties.
use pipewire_gobject.Prelude.{ℕ, String, Option, none, some, if◌then◌else◌}
use pipewire_gobject.Global.{Global, GlobalKeys, dup_property}
use pipewire_gobject.Global
use pipewire_gobject.Global.Kinds.{is_node}

-- struct _PwgNodeInfo
pub record NodeInfo : Type 0 where
  pub global : Global

-- The keys of PipeWire that the view reads.
pub record NodeInfoKeys : Type 0 where
  pub node_name : String
  pub node_description : String

-- pwg_node_info_new_from_global
unfoldable pub new_from_global : Global → Option NodeInfo
unfolding is_node
new_from_global global = if is_node global then some (record { global = global }) else none

-- pwg_node_info_get_id
unfoldable pub get_id : NodeInfo → ℕ
get_id self = self.global.id

-- pwg_node_info_get_global
unfoldable pub get_global : NodeInfo → Global
get_global self = self.global

-- pwg_node_info_dup_name
unfoldable pub dup_name : NodeInfoKeys → NodeInfo → Option String
unfolding dup_property
dup_name keys self = dup_property self.global keys.node_name

-- pwg_node_info_dup_description
unfoldable pub dup_description : NodeInfoKeys → NodeInfo → Option String
unfolding dup_property
dup_description keys self = dup_property self.global keys.node_description

-- pwg_node_info_dup_media_class
unfoldable pub dup_media_class : GlobalKeys → NodeInfo → Option String
dup_media_class keys self = Global.dup_media_class keys self.global

-- pwg_node_info_dup_object_serial
unfoldable pub dup_object_serial : GlobalKeys → NodeInfo → Option String
dup_object_serial keys self = Global.dup_object_serial keys self.global
