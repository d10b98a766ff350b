-- ===== src/Global.antt =====
-- src/pwg-global.c: the descriptor of a PipeWire global, with the properties that the registry
-- event brought. `Names` has the proofs on the names that it picks.
pub mod Names
pub mod Kinds
mod Witnesses
use pipewire_gobject.Prelude.{
  ℕ, String, Bool, true, false, Option, none, some, List, [], ◌∷◌, str_eq, strcmp0_eq,
  if◌then◌else◌,
}
use pipewire_gobject.Properties.{lookup, is_empty}

-- struct _PwgGlobal; `properties` is the a{ss} variant, in order
pub record Global : Type 0 where
  pub id : ℕ  -- unsigned int
  pub permissions : ℕ
  pub interface_type : Option String
  pub version : ℕ
  pub properties : List (String × String)

-- struct spa_dict_item
abbrev pub DictItem : Type 0
DictItem = Option String × Option String

-- The loop of pwg_global_variant_from_spa_dict: an item without key or value is left out.
unfoldable pub dict_entries : List DictItem → List (String × String)
dict_entries [] = []
dict_entries ((some key, some value) ∷ items) = (key, value) ∷ dict_entries items
dict_entries ((some key, none) ∷ items) = dict_entries items
dict_entries ((none, value) ∷ items) = dict_entries items

-- pwg_global_variant_from_spa_dict
unfoldable pub variant_from_spa_dict : Option (List DictItem) → List (String × String)
unfolding dict_entries
variant_from_spa_dict none = []
variant_from_spa_dict (some items) = dict_entries items

-- _pwg_global_new_from_spa_dict
unfoldable pub new_from_spa_dict : ℕ → ℕ → Option String → ℕ → Option (List DictItem) → Global
unfolding variant_from_spa_dict
new_from_spa_dict id permissions interface_type version dict = record {
  id = id;
  permissions = permissions;
  interface_type = interface_type;
  version = version;
  properties = variant_from_spa_dict dict;
}

-- pwg_global_dup_property
unfoldable pub dup_property : Global → String → Option String
unfolding lookup
dup_property self key = lookup key self.properties

-- pwg_global_dup_first_property; the array of keys ends with NULL
unfoldable pub dup_first_property : Global → List String → Option String
unfolding dup_property
dup_first_property self [] = none
dup_first_property self (key ∷ keys) =
    let rest = dup_first_property self keys in
    let value = dup_property self key in if is_empty value then rest else value

-- The keys of PipeWire that a descriptor reads.
pub record GlobalKeys : Type 0 where
  pub node_name : String
  pub port_name : String
  pub device_name : String
  pub client_name : String
  pub factory_name : String
  pub metadata_name : String
  pub app_name : String
  pub object_path : String
  pub node_description : String
  pub port_alias : String
  pub device_description : String
  pub module_description : String
  pub media_class : String
  pub object_serial : String

-- pwg_global_dup_name
unfoldable pub dup_name : GlobalKeys → Global → Option String
unfolding dup_first_property
dup_name keys self = dup_first_property self (
    keys.node_name ∷ keys.port_name ∷ keys.device_name ∷ keys.client_name ∷ keys.factory_name
    ∷ keys.metadata_name ∷ keys.app_name ∷ keys.object_path ∷ [])

-- pwg_global_dup_description
unfoldable pub dup_description : GlobalKeys → Global → Option String
unfolding dup_first_property
dup_description keys self = dup_first_property self (
    keys.node_description ∷ keys.port_alias ∷ keys.device_description ∷ keys.module_description
    ∷ keys.app_name ∷ [])

-- pwg_global_dup_media_class
unfoldable pub dup_media_class : GlobalKeys → Global → Option String
unfolding dup_property
dup_media_class keys self = dup_property self keys.media_class

-- pwg_global_dup_object_serial
unfoldable pub dup_object_serial : GlobalKeys → Global → Option String
unfolding dup_property
dup_object_serial keys self = dup_property self keys.object_serial

-- pwg_global_is_interface
unfoldable pub is_interface : Global → String → Bool
is_interface self interface_type = strcmp0_eq self.interface_type (some interface_type)
