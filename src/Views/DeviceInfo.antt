-- ===== src/Views/DeviceInfo.antt =====
-- src/pwg-device-info.c: a view of a device global, which only reads its properties.
use pipewire_gobject.Prelude.{ℕ, String, Option, none, some, if◌then◌else◌}
use pipewire_gobject.Global.{Global, GlobalKeys, dup_property}
use pipewire_gobject.Global
use pipewire_gobject.Global.Kinds.{is_device}

-- struct _PwgDeviceInfo
pub record DeviceInfo : Type 0 where
  pub global : Global

-- The keys of PipeWire that the view reads.
pub record DeviceInfoKeys : Type 0 where
  pub device_name : String
  pub device_description : String
  pub device_nick : String
  pub device_api : String
  pub device_class : String
  pub device_form_factor : String
  pub device_bus : String
  pub device_vendor_name : String
  pub device_product_name : String

-- pwg_device_info_new_from_global
unfoldable pub new_from_global : Global → Option DeviceInfo
unfolding is_device
new_from_global global = if is_device global then some (record { global = global }) else none

-- pwg_device_info_get_id
unfoldable pub get_id : DeviceInfo → ℕ
get_id self = self.global.id

-- pwg_device_info_get_global
unfoldable pub get_global : DeviceInfo → Global
get_global self = self.global

-- pwg_device_info_dup_name
unfoldable pub dup_name : DeviceInfoKeys → DeviceInfo → Option String
unfolding dup_property
dup_name keys self = dup_property self.global keys.device_name

-- pwg_device_info_dup_description
unfoldable pub dup_description : DeviceInfoKeys → DeviceInfo → Option String
unfolding dup_property
dup_description keys self = dup_property self.global keys.device_description

-- pwg_device_info_dup_nick
unfoldable pub dup_nick : DeviceInfoKeys → DeviceInfo → Option String
unfolding dup_property
dup_nick keys self = dup_property self.global keys.device_nick

-- pwg_device_info_dup_api
unfoldable pub dup_api : DeviceInfoKeys → DeviceInfo → Option String
unfolding dup_property
dup_api keys self = dup_property self.global keys.device_api

-- pwg_device_info_dup_class
unfoldable pub dup_class : DeviceInfoKeys → DeviceInfo → Option String
unfolding dup_property
dup_class keys self = dup_property self.global keys.device_class

-- pwg_device_info_dup_form_factor
unfoldable pub dup_form_factor : DeviceInfoKeys → DeviceInfo → Option String
unfolding dup_property
dup_form_factor keys self = dup_property self.global keys.device_form_factor

-- pwg_device_info_dup_bus
unfoldable pub dup_bus : DeviceInfoKeys → DeviceInfo → Option String
unfolding dup_property
dup_bus keys self = dup_property self.global keys.device_bus

-- pwg_device_info_dup_vendor_name
unfoldable pub dup_vendor_name : DeviceInfoKeys → DeviceInfo → Option String
unfolding dup_property
dup_vendor_name keys self = dup_property self.global keys.device_vendor_name

-- pwg_device_info_dup_product_name
unfoldable pub dup_product_name : DeviceInfoKeys → DeviceInfo → Option String
unfolding dup_property
dup_product_name keys self = dup_property self.global keys.device_product_name

-- pwg_device_info_dup_media_class
unfoldable pub dup_media_class : GlobalKeys → DeviceInfo → Option String
dup_media_class keys self = Global.dup_media_class keys self.global

-- pwg_device_info_dup_object_serial
unfoldable pub dup_object_serial : GlobalKeys → DeviceInfo → Option String
dup_object_serial keys self = Global.dup_object_serial keys self.global
