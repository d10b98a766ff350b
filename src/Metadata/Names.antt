-- ===== src/Metadata/Names.antt =====
-- src/pwg-metadata.c: the node names in the default entries, plain or in a JSON object. SPA's JSON
-- reader is an argument: `enter_object` gives the tokens of the object in a text, if it is one, each
-- as the string that spa_json_parse_stringn makes of it, if it can.
use Prim.Native.Char.{Char, code}
use Prim.Native.String.{String}
use pipewire_gobject.Prelude.{
  ◌≢◌, Bool, false, ◌||◌, Option, none, some, List, [], ◌∷◌, ◌==◌, str_eq, str_eq_iff,
  if◌then◌else◌, arith, if-both, if-cases,
}
use pipewire_gobject.Metadata.Cache.{MetadataEntry, Entries, lookup_entry, value_type_is_json}

-- g_ascii_isspace
abbrev pub is_space : Char → Bool
is_space c = code c == 32 || code c == 9 || code c == 10 || code c == 12 || code c == 13

-- pwg_metadata_value_looks_like_object
unfoldable pub value_looks_like_object : String → Bool
value_looks_like_object String.[] = false
value_looks_like_object (String.◌∷◌ c text) =
    let rest = value_looks_like_object text in if is_space c then rest else code c == 123

-- The name that is not empty.
unfoldable pub name_of : Option String → Option String
name_of none = none
name_of (some name) = if str_eq name "" then none else some name

-- The loop of pwg_metadata_dup_name_from_json over the tokens: a key, and the value of it.
unfoldable pub name_from_tokens : List (Option String) → Option String
unfolding name_of
name_from_tokens [] = none
name_from_tokens (none ∷ tokens) = none
name_from_tokens (some key ∷ []) = none
name_from_tokens (some key ∷ (value ∷ tokens)) =
    let rest = name_from_tokens tokens in if str_eq key "name" then name_of value else rest

-- pwg_metadata_dup_name_from_json, from the tokens of the object if the text is one
unfoldable pub name_from_object : Option (List (Option String)) → Option String
unfolding name_from_tokens
name_from_object none = none
name_from_object (some tokens) = name_from_tokens tokens

-- pwg_metadata_entry_dup_node_name
unfoldable pub entry_dup_node_name :
    (String → Option (List (Option String))) → Option MetadataEntry → Option String
unfolding value_type_is_json value_looks_like_object name_from_object
entry_dup_node_name enter_object none = none
entry_dup_node_name enter_object (some entry) =
    if str_eq entry.value ""
    then none
    else if value_type_is_json entry.value_type || value_looks_like_object entry.value
    then name_from_object (enter_object entry.value)
    else some entry.value

-- pwg_metadata_dup_default_node_name
unfoldable pub dup_default_node_name :
    (String → Option (List (Option String))) → Entries → String → Option String
unfolding lookup_entry entry_dup_node_name
dup_default_node_name enter_object entries key =
    entry_dup_node_name enter_object (lookup_entry entries 0 key)

name_of-nonempty : (value : Option String) → name_of value ≢ some ""
unfolding name_of
name_of-nonempty none h = ground (arith, h)
name_of-nonempty (some name) h = ground (arith, h, str_eq_iff name "")

name_from_tokens-nonempty : (tokens : List (Option String)) → name_from_tokens tokens ≢ some ""
unfolding name_from_tokens
name_from_tokens-nonempty [] h = ground (arith, h)
name_from_tokens-nonempty (none ∷ tokens) h = ground (arith, h)
name_from_tokens-nonempty (some key ∷ []) h = ground (arith, h)
name_from_tokens-nonempty (some key ∷ (value ∷ tokens)) h =
    if-both (λ r. r ≢ some "") (str_eq key "name") (name_of-nonempty value)
      (name_from_tokens-nonempty tokens) h

name_from_object-nonempty :
    (tokens : Option (List (Option String))) → name_from_object tokens ≢ some ""
unfolding name_from_object
name_from_object-nonempty none h = ground (arith, h)
name_from_object-nonempty (some tokens) h = name_from_tokens-nonempty tokens h

entry_dup_node_name-nonempty :
    (enter_object : String → Option (List (Option String))) (entry : Option MetadataEntry)
    → entry_dup_node_name enter_object entry ≢ some ""
unfolding entry_dup_node_name
entry_dup_node_name-nonempty enter_object none h = ground (arith, h)
entry_dup_node_name-nonempty enter_object (some entry) h =
    if-cases (λ r. r ≢ some "") (str_eq entry.value "") (λ _ k. ground (arith, k))
      (λ plain.
        if-both (λ r. r ≢ some "")
          (value_type_is_json entry.value_type || value_looks_like_object entry.value)
          (name_from_object-nonempty (enter_object entry.value))
          (λ k. ground (arith, plain, k, str_eq_iff entry.value "")))
      h

-- The name of a default node is never the empty text, whatever the entry holds and whatever the
-- JSON reader makes of it.
pub dup_default_node_name-nonempty :
    (enter_object : String → Option (List (Option String))) (entries : Entries) (key : String)
    → dup_default_node_name enter_object entries key ≢ some ""
unfolding dup_default_node_name
dup_default_node_name-nonempty enter_object entries key =
    entry_dup_node_name-nonempty enter_object (lookup_entry entries 0 key)
