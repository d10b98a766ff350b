-- ===== src/Global/Names.antt =====
-- The names of a global: the first of several properties that is not empty.
use pipewire_gobject.Prelude.{
  ◌≡◌, refl, ap, String, true, false, none, List, [], ◌∷◌, ◌++◌, All, arith, ◌⊎◌, inl, inr,
  Bool-cases,
}
use pipewire_gobject.Properties.{is_empty}
use pipewire_gobject.Global.{Global, dup_property, dup_first_property}

-- Either no key has a value that is not empty, and there is no name, or the name is the value of
-- the first that has one.
abbrev pub Picks : Global → List String → Type 0
Picks self keys =
    ((dup_first_property self keys ≡ none)
      × All (λ key. is_empty (dup_property self key) ≡ true) keys)
    ⊎ ((before : List String) × (key : String) × (after : List String) × (keys
          ≡ before ++ key ∷ after)
        × All (λ earlier. is_empty (dup_property self earlier) ≡ true) before
        × (is_empty (dup_property self key) ≡ false)
        × (dup_first_property self keys ≡ dup_property self key))

-- A name found by several keys is never empty, and it is the value of the first key that has one
-- that is not; without a name, no key has one.
pub dup_first_property-Picks : (self : Global) (keys : List String) → Picks self keys
unfolding dup_first_property
dup_first_property-Picks self [] = inl (refl, tt)
dup_first_property-Picks self (key ∷ keys) = elim (Bool-cases (is_empty (dup_property self key))) [
  | inr e ↦ inr ([], key, keys, refl, tt, e, ground (arith, e))
  | inl e ↦ elim (dup_first_property-Picks self keys) [
    | inl (n, all) ↦ inl (ground (arith, e, n), (e, all))
    | inr (before, first, after, split, all, f, found) ↦ inr (
      key ∷ before,
      first,
      after,
      ap (λ rest. key ∷ rest) split,
      (e, all),
      f,
      ground (arith, e, found),
    )
  ]
]
