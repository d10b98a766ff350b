-- ===== src/Views/LinkInfo.antt =====
-- src/pwg-link-info.c: a view of a link global, which only reads its properties.
use pipewire_gobject.Prelude.{ℕ, String, Bool, Option, none, some, if◌then◌else◌}
use pipewire_gobject.Global.{Global, GlobalKeys, dup_property}
use pipewire_gobject.Global
use pipewire_gobject.Global.Kinds.{is_link}
use pipewire_gobject.Views.Truth.{Strcasecmp, is_true}

-- struct _PwgLinkInfo
pub record LinkInfo : Type 0 where
  pub global : Global

-- The keys of PipeWire that the view reads.
pub record LinkInfoKeys : Type 0 where
  pub link_id : String
  pub link_output_node : String
  pub link_output_port : String
  pub link_input_node : String
  pub link_input_port : String
  pub link_passive : String
  pub link_feedback : String

-- pwg_link_info_new_from_global
unfoldable pub new_from_global : Global → Option LinkInfo
unfolding is_link
new_from_global global = if is_link global then some (record { global = global }) else none

-- pwg_link_info_get_id
unfoldable pub get_id : LinkInfo → ℕ
get_id self = self.global.id

-- pwg_link_info_get_global
unfoldable pub get_global : LinkInfo → Global
get_global self = self.global

-- pwg_link_info_dup_link_id
unfoldable pub dup_link_id : LinkInfoKeys → LinkInfo → Option String
unfolding dup_property
dup_link_id keys self = dup_property self.global keys.link_id

-- pwg_link_info_dup_output_node_id
unfoldable pub dup_output_node_id : LinkInfoKeys → LinkInfo → Option String
unfolding dup_property
dup_output_node_id keys self = dup_property self.global keys.link_output_node

-- pwg_link_info_dup_output_port_id
unfoldable pub dup_output_port_id : LinkInfoKeys → LinkInfo → Option String
unfolding dup_property
dup_output_port_id keys self = dup_property self.global keys.link_output_port

-- pwg_link_info_dup_input_node_id
unfoldable pub dup_input_node_id : LinkInfoKeys → LinkInfo → Option String
unfolding dup_property
dup_input_node_id keys self = dup_property self.global keys.link_input_node

-- pwg_link_info_dup_input_port_id
unfoldable pub dup_input_port_id : LinkInfoKeys → LinkInfo → Option String
unfolding dup_property
dup_input_port_id keys self = dup_property self.global keys.link_input_port

-- pwg_link_info_dup_object_serial
unfoldable pub dup_object_serial : GlobalKeys → LinkInfo → Option String
dup_object_serial keys self = Global.dup_object_serial keys self.global

-- pwg_link_info_property_is_true
unfoldable pub property_is_true : Strcasecmp → LinkInfo → String → Bool
unfolding dup_property is_true
property_is_true same self key = is_true same (dup_property self.global key)

-- pwg_link_info_get_passive
unfoldable pub get_passive : Strcasecmp → LinkInfoKeys → LinkInfo → Bool
unfolding property_is_true
get_passive same keys self = property_is_true same self keys.link_passive

-- pwg_link_info_get_feedback
unfoldable pub get_feedback : Strcasecmp → LinkInfoKeys → LinkInfo → Bool
unfolding property_is_true
get_feedback same keys self = property_is_true same self keys.link_feedback
