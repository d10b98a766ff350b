-- ===== src/Views/ClientInfo.antt =====
-- src/pwg-client-info.c: a view of a client global, which only reads its properties.
use pipewire_gobject.Prelude.{ℕ, String, Option, none, some, if◌then◌else◌}
use pipewire_gobject.Global.{Global, GlobalKeys, dup_property}
use pipewire_gobject.Global
use pipewire_gobject.Global.Kinds.{is_client}

-- struct _PwgClientInfo
pub record ClientInfo : Type 0 where
  pub global : Global

-- The keys of PipeWire that the view reads.
pub record ClientInfoKeys : Type 0 where
  pub client_name : String
  pub app_name : String
  pub app_id : String
  pub client_api : String
  pub client_access : String
  pub app_process_binary : String
  pub app_process_id : String

-- pwg_client_info_new_from_global
unfoldable pub new_from_global : Global → Option ClientInfo
unfolding is_client
new_from_global global = if is_client global then some (record { global = global }) else none

-- pwg_client_info_get_id
unfoldable pub get_id : ClientInfo → ℕ
get_id self = self.global.id

-- pwg_client_info_get_global
unfoldable pub get_global : ClientInfo → Global
get_global self = self.global

-- pwg_client_info_dup_name
unfoldable pub dup_name : ClientInfoKeys → ClientInfo → Option String
unfolding dup_property
dup_name keys self = dup_property self.global keys.client_name

-- pwg_client_info_dup_app_name
unfoldable pub dup_app_name : ClientInfoKeys → ClientInfo → Option String
unfolding dup_property
dup_app_name keys self = dup_property self.global keys.app_name

-- pwg_client_info_dup_app_id
unfoldable pub dup_app_id : ClientInfoKeys → ClientInfo → Option String
unfolding dup_property
dup_app_id keys self = dup_property self.global keys.app_id

-- pwg_client_info_dup_api
unfoldable pub dup_api : ClientInfoKeys → ClientInfo → Option String
unfolding dup_property
dup_api keys self = dup_property self.global keys.client_api

-- pwg_client_info_dup_access
unfoldable pub dup_access : ClientInfoKeys → ClientInfo → Option String
unfolding dup_property
dup_access keys self = dup_property self.global keys.client_access

-- pwg_client_info_dup_process_binary
unfoldable pub dup_process_binary : ClientInfoKeys → ClientInfo → Option String
unfolding dup_property
dup_process_binary keys self = dup_property self.global keys.app_process_binary

-- pwg_client_info_dup_process_id
unfoldable pub dup_process_id : ClientInfoKeys → ClientInfo → Option String
unfolding dup_property
dup_process_id keys self = dup_property self.global keys.app_process_id

-- pwg_client_info_dup_object_serial
unfoldable pub dup_object_serial : GlobalKeys → ClientInfo → Option String
dup_object_serial keys self = Global.dup_object_serial keys self.global
