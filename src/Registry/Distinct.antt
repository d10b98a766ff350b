-- ===== src/Registry/Distinct.antt =====
-- The list of globals has each id once, and adding and removing act on it as on a map.
use pipewire_gobject.Prelude.{
  ℕ, ◌≡◌, refl, sym, ap, subst, ◌∙◌, if-both, false, Option, none, some, List, [], ◌∷◌, ◌++◌, ◌==◌,
  arith, if◌then◌else◌, Option-cases, Bool-cases, inl, inr,
}
use pipewire_gobject.Global.{Global}
use pipewire_gobject.Registry.Dispatch.{find_global, remove_at, without}
use pipewire_gobject.Registry.Lookup.{global_of}

abbrev pub lookup_in : List Global → ℕ → Option Global
lookup_in globals id = global_of (find_global globals id)

abbrev pub removed_from : List Global → ℕ → List Global
removed_from globals id = without globals (find_global globals id)

pub lookup_in-cons :
    (global : Global) (globals : List Global) (id : ℕ)
    → lookup_in (global ∷ globals) id
      ≡ (if global.id == id then some global else lookup_in globals id)
unfolding find_global
lookup_in-cons global globals id = elim (Bool-cases (global.id == id)) [
  | inl e ↦ rw (e, find_global) refl
  | inr e ↦ elim (Option-cases (find_global globals id)) [
    | inl n ↦ rw (e, n, find_global) refl
    | inr (found, n) ↦ rw (e, n, find_global) refl
  ]
]

pub removed_from-cons :
    (global : Global) (globals : List Global) (id : ℕ)
    → removed_from (global ∷ globals) id
      ≡ (if global.id == id then globals else global ∷ removed_from globals id)
unfolding find_global remove_at
removed_from-cons global globals id = elim (Bool-cases (global.id == id)) [
  | inl e ↦ rw (e, find_global) refl
  | inr e ↦ elim (Option-cases (find_global globals id)) [
    | inl n ↦ rw (e, n, find_global) refl
    | inr (found, n) ↦ rw (e, n, find_global) refl
  ]
]

-- No id stands twice.
abbrev pub Distinct : List Global → Type 0
Distinct [] = Unit
Distinct (global ∷ globals) = (lookup_in globals global.id ≡ none) × Distinct globals

pub lookup_in-removed_from :
    (globals : List Global) (id : ℕ) (other : ℕ)
    → Distinct globals
    → lookup_in (removed_from globals id) other
      ≡ (if id == other then none else lookup_in globals other)
lookup_in-removed_from [] id other d = unfold find_global in ground arith
lookup_in-removed_from (global ∷ globals) id other d =
    ap (λ left. lookup_in left other) (removed_from-cons global globals id)
    ∙ elim (Bool-cases (global.id == id)) [
      | inl e ↦ rw e (
          let same : global.id ≡ id = ground (arith, e) in
          let gone : lookup_in globals id ≡ none = ap (lookup_in globals) (sym same) ∙ d.0 in
          elim (Bool-cases (id == other)) [
            | inl f ↦ rw f (
                let both : id ≡ other = ground (arith, f) in
                ap (lookup_in globals) (sym both) ∙ gone)
            | inr f ↦ ground (arith, f, lookup_in-cons global globals other, same)
          ])
      | inr e ↦ rw e (
          lookup_in-cons global (removed_from globals id) other
          ∙ ground (
            arith,
            e,
            lookup_in-removed_from globals id other d.1,
            lookup_in-cons global globals other,
          ))
    ]

pub lookup_in-append :
    (globals : List Global) (global : Global) (other : ℕ)
    → lookup_in globals global.id ≡ none
    → lookup_in (globals ++ global ∷ []) other
      ≡ (if global.id == other then some global else lookup_in globals other)
lookup_in-append [] global other n = lookup_in-cons global [] other
lookup_in-append (first ∷ globals) global other n =
    let apart : (first.id == global.id) ≡ false =
      ground (arith, n, lookup_in-cons first globals global.id) in
    let rest : lookup_in globals global.id ≡ none =
      ground (arith, n, apart, lookup_in-cons first globals global.id) in
    lookup_in-cons first (globals ++ global ∷ []) other
    ∙ ground (
      arith,
      apart,
      lookup_in-append globals global other rest,
      lookup_in-cons first globals other,
    )

pub removed_from-Distinct :
    (globals : List Global) (id : ℕ) → Distinct globals → Distinct (removed_from globals id)
removed_from-Distinct [] id d = unfold find_global in tt
removed_from-Distinct (global ∷ globals) id d =
    subst Distinct (sym (removed_from-cons global globals id)) (
      if-both Distinct (global.id == id) d.1 (
        lookup_in-removed_from globals id global.id d.1 ∙ ground (arith, d.0),
        removed_from-Distinct globals id d.1,
      ))

pub append-Distinct :
    (globals : List Global) (global : Global)
    → lookup_in globals global.id ≡ none
    → Distinct globals
    → Distinct (globals ++ global ∷ [])
append-Distinct [] global n d = (unfold find_global in refl, tt)
append-Distinct (first ∷ globals) global n d =
    let apart : (first.id == global.id) ≡ false =
      ground (arith, n, lookup_in-cons first globals global.id) in
    let rest : lookup_in globals global.id ≡ none =
      ground (arith, n, apart, lookup_in-cons first globals global.id) in
    (
      lookup_in-append globals global first.id rest ∙ ground (arith, apart, d.0),
      append-Distinct globals global rest d.1,
    )
