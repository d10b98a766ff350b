-- ===== src/Metadata/Cache.antt =====
-- src/pwg-metadata.c: PwgMetadataEntry, and the table of entries by their printed keys.
use Prim.Native.String.{String}
use pipewire_gobject.Prelude.{
  ℕ, Bool, ◌||◌, Option, none, some, List, [], ◌∷◌, ◌==◌, strcmp0_eq, if◌then◌else◌,
}
use pipewire_gobject.Properties.{lookup, remove, replace}
use pipewire_gobject.Global.{DictItem}
use pipewire_gobject.Metadata.Decimal.{decimal}

-- PwgMetadataEntry; `value_type` is the field `type`
pub record MetadataEntry : Type 0 where
  pub subject : ℕ  -- unsigned int
  pub key : String
  pub value_type : Option String
  pub value : String

abbrev pub Entries : Type 0
Entries = List (String × MetadataEntry)

-- pwg_metadata_cache_key: "%u:%s"
unfoldable pub cache_key : ℕ → String → String
unfolding decimal
cache_key subject key = decimal subject (String.◌∷◌ ":" key)

-- pwg_metadata_lookup_entry
unfoldable pub lookup_entry : Entries → ℕ → String → Option MetadataEntry
unfolding cache_key lookup
lookup_entry entries subject key = lookup (cache_key subject key) entries

-- pwg_metadata_clear_subject
unfoldable pub clear_subject : Entries → ℕ → Entries
clear_subject [] subject = []
clear_subject ((cached, entry) ∷ entries) subject =
    let rest = clear_subject entries subject in
    if entry.subject == subject then rest else (cached, entry) ∷ rest

-- pwg_metadata_cache_change
unfoldable pub cache_change : Entries → ℕ → Option String → Option String → Option String → Entries
unfolding clear_subject cache_key remove replace
cache_change entries subject none value_type value = clear_subject entries subject
cache_change entries subject (some key) value_type none = remove (cache_key subject key) entries
cache_change entries subject (some key) value_type (some value) =
    replace (cache_key subject key)
      (record { subject = subject; key = key; value_type = value_type; value = value }) entries

abbrev pub value_of : Option MetadataEntry → Option String
value_of none = none
value_of (some entry) = some entry.value

abbrev pub type_of : Option MetadataEntry → Option String
type_of none = none
type_of (some entry) = entry.value_type

-- pwg_metadata_dup_value and pwg_metadata_dup_value_type
unfoldable pub dup_value : Entries → ℕ → String → Option String
unfolding lookup_entry
dup_value entries subject key = value_of (lookup_entry entries subject key)

unfoldable pub dup_value_type : Entries → ℕ → String → Option String
unfolding lookup_entry
dup_value_type entries subject key = type_of (lookup_entry entries subject key)

-- pwg_metadata_lookup_spa_dict
unfoldable pub lookup_items : List DictItem → String → Option String
lookup_items [] key = none
lookup_items ((item_key, item_value) ∷ items) key =
    let rest = lookup_items items key in if strcmp0_eq item_key (some key) then item_value else rest

unfoldable pub lookup_spa_dict : Option (List DictItem) → String → Option String
unfolding lookup_items
lookup_spa_dict none key = none
lookup_spa_dict (some items) key = lookup_items items key

-- pwg_metadata_value_type_is_json
unfoldable pub value_type_is_json : Option String → Bool
value_type_is_json value_type =
    strcmp0_eq value_type (some "Spa:String:JSON") || strcmp0_eq value_type (some "Spa:JSON")
