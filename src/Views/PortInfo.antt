-- ===== src/Views/PortInfo.antt =====
-- src/pwg-port-info.c: a view of a port global, which only reads its properties.
use pipewire_gobject.Prelude.{ℕ, String, Bool, Option, none, some, if◌then◌else◌}
use pipewire_gobject.Properties.{is_empty}
use pipewire_gobject.Global.{Global, GlobalKeys, dup_property}
use pipewire_gobject.Global
use pipewire_gobject.Global.Kinds.{is_port}
use pipewire_gobject.Views.Truth.{Strcasecmp, is_true}

-- struct _PwgPortInfo
pub record PortInfo : Type 0 where
  pub global : Global

-- The keys of PipeWire that the view reads.
pub record PortInfoKeys : Type 0 where
  pub port_name : String
  pub port_alias : String
  pub port_direction : String
  pub audio_channel : String
  pub port_physical : String

-- pwg_port_info_new_from_global
unfoldable pub new_from_global : Global → Option PortInfo
unfolding is_port
new_from_global global = if is_port global then some (record { global = global }) else none

-- pwg_port_info_get_id
unfoldable pub get_id : PortInfo → ℕ
get_id self = self.global.id

-- pwg_port_info_get_global
unfoldable pub get_global : PortInfo → Global
get_global self = self.global

-- pwg_port_info_dup_name
unfoldable pub dup_name : PortInfoKeys → PortInfo → Option String
unfolding dup_property
dup_name keys self = dup_property self.global keys.port_name

-- pwg_port_info_dup_alias
unfoldable pub dup_alias : PortInfoKeys → PortInfo → Option String
unfolding dup_property
dup_alias keys self = dup_property self.global keys.port_alias

-- pwg_port_info_dup_direction
unfoldable pub dup_direction : PortInfoKeys → PortInfo → Option String
unfolding dup_property
dup_direction keys self = dup_property self.global keys.port_direction

-- pwg_port_info_dup_audio_channel
unfoldable pub dup_audio_channel : PortInfoKeys → PortInfo → Option String
unfolding dup_property
dup_audio_channel keys self = dup_property self.global keys.audio_channel

-- pwg_port_info_dup_media_class
unfoldable pub dup_media_class : GlobalKeys → PortInfo → Option String
dup_media_class keys self = Global.dup_media_class keys self.global

-- pwg_port_info_dup_object_serial
unfoldable pub dup_object_serial : GlobalKeys → PortInfo → Option String
dup_object_serial keys self = Global.dup_object_serial keys self.global

-- pwg_port_info_property_is_true
unfoldable pub property_is_true : Strcasecmp → PortInfo → String → Bool
unfolding dup_property is_true
property_is_true same self key = is_true same (dup_property self.global key)

-- pwg_port_info_get_physical
unfoldable pub get_physical : Strcasecmp → PortInfoKeys → PortInfo → Bool
unfolding property_is_true
get_physical same keys self = property_is_true same self keys.port_physical

-- pwg_port_info_dup_description: the alias, unless it is empty
unfoldable pub dup_description : GlobalKeys → PortInfoKeys → PortInfo → Option String
unfolding dup_alias
dup_description global_keys keys self =
    if is_empty (dup_alias keys self)
    then Global.dup_description global_keys self.global
    else dup_alias keys self
