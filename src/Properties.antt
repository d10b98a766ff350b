-- ===== src/Properties.antt =====
-- The string tables that applications fill before a connection: GHashTable with g_str_hash and
-- g_str_equal, as src/pwg-stream.c and src/pwg-core.c use it. No order of iteration is promised,
-- and the model keeps the order of first insertion.
use pipewire_gobject.Prelude.{
  String, Bool, true, Option, none, some, List, [], ◌∷◌, ◌≡◌, refl, str_eq, str_eq_iff,
  if◌then◌else◌, arith,
}

module _ {ℓ} {V : Type ℓ} where
  -- g_hash_table_lookup
  unfoldable pub lookup : String → List (String × V) → Option V
  lookup key [] = none
  lookup key ((k, v) ∷ table) = if str_eq k key then some v else lookup key table

  -- g_hash_table_remove
  unfoldable pub remove : String → List (String × V) → List (String × V)
  remove key [] = []
  remove key ((k, v) ∷ table) =
      let rest = remove key table in if str_eq k key then rest else (k, v) ∷ rest

  -- g_hash_table_replace
  unfoldable pub replace : String → V → List (String × V) → List (String × V)
  replace key value [] = (key, value) ∷ []
  replace key value ((k, v) ∷ table) =
      if str_eq k key then (key, value) ∷ table else (k, v) ∷ replace key value table

  pub lookup-remove :
      (key j : String) (table : List (String × V))
      → lookup j (remove key table) ≡ (if str_eq key j then none else lookup j table)
  unfolding lookup remove
  lookup-remove key j [] = ground arith
  lookup-remove key j ((k, v) ∷ table) =
      ground (arith, lookup-remove key j table, str_eq_iff k key, str_eq_iff k j, str_eq_iff key j)

  pub lookup-replace :
      (key j : String) (value : V) (table : List (String × V))
      → lookup j (replace key value table) ≡ (if str_eq key j then some value else lookup j table)
  unfolding lookup replace
  lookup-replace key j value [] = refl
  lookup-replace key j value ((k, v) ∷ table) =
      ground (
        arith,
        lookup-replace key j value table,
        str_eq_iff k key,
        str_eq_iff k j,
        str_eq_iff key j,
      )

pub ruleset table_laws = (lookup-remove, lookup-replace)

-- `key == NULL || key[0] == '\0'`
abbrev pub is_empty : Option String → Bool
is_empty none = true
is_empty (some s) = str_eq s ""
