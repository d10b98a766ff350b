-- ===== src/Metadata/Refinement.antt =====
-- The cache as a map from subject and key: what the property events of PipeWire say.
use Prim.Native.String.{String}
use pipewire_gobject.Prelude.{
  ℕ, ◌≡◌, refl, sym, ap, fun_ext, ◌∙◌, ◌&&◌, Option, none, some, List, [], ◌∷◌, All, ◌==◌, str_eq,
  str_eq_iff, if◌then◌else◌, arith, Bool-cases, inl, inr, if-both,
}
use pipewire_gobject.Properties.{lookup, remove, replace, lookup-remove, lookup-replace}
use pipewire_gobject.Metadata.Cache.{
  MetadataEntry, Entries, cache_key, lookup_entry, clear_subject, cache_change,
}
use pipewire_gobject.Metadata.Keys.{cache_key_injective}

-- What is known of a subject and a key.
abbrev pub Known : Type 0
Known = ℕ → String → Option MetadataEntry

-- A property event: subject, key, type and value.
pub record Property : Type 0 where
  pub subject : ℕ
  pub key : Option String
  pub value_type : Option String
  pub value : Option String

-- What one event says: no key clears the subject, no value the key of the subject.
abbrev pub learn : Known → ℕ → Option String → Option String → Option String → Known
learn known subject none value_type value s k = if subject == s then none else known s k
learn known subject (some key) value_type none s k =
    if subject == s && str_eq key k then none else known s k
learn known subject (some key) value_type (some value) s k =
    if subject == s && str_eq key k
    then some (record { subject = subject; key = key; value_type = value_type; value = value })
    else known s k

-- Every entry stands under its own printed key.
abbrev pub WellKeyed : Entries → Type 0
WellKeyed entries = All (λ item. item.0 ≡ cache_key item.1.subject item.1.key) entries

-- Comparing printed keys is comparing subjects and keys.
same_key :
    (subject : ℕ) (key : String) (s : ℕ) (k : String)
    → str_eq (cache_key subject key) (cache_key s k) ≡ (subject == s && str_eq key k)
same_key subject key s k = elim (Bool-cases (str_eq (cache_key subject key) (cache_key s k))) [
  | inl e ↦
      let (a, b) =
        cache_key_injective subject s key k
          ((str_eq_iff (cache_key subject key) (cache_key s k)).0 e) in
      e ∙ ground (arith, a, b, str_eq_iff key k)
  | inr e ↦ elim (Bool-cases (subject == s && str_eq key k)) [
    | inr f ↦ e ∙ sym f
    | inl f ↦
        let a : subject ≡ s = ground (arith, f) in
        let b : key ≡ k = (str_eq_iff key k).0 (ground (arith, f)) in
        absurd (
          ground (
            arith,
            e,
            (str_eq_iff (cache_key subject key) (cache_key s k)).1
                (ap (cache_key subject) b ∙ ap (λ n. cache_key n k) a),
          ))
  ]
]

own_key :
    (item : String × MetadataEntry) (s : ℕ) (k : String)
    → item.0 ≡ cache_key item.1.subject item.1.key
    → str_eq item.0 (cache_key s k) ≡ (item.1.subject == s && str_eq item.1.key k)
own_key item s k h =
    ap (λ text. str_eq text (cache_key s k)) h ∙ same_key item.1.subject item.1.key s k

lookup-clear_subject :
    (entries : Entries) (subject : ℕ) (s : ℕ) (k : String)
    → WellKeyed entries
    → lookup (cache_key s k) (clear_subject entries subject)
      ≡ (if subject == s then none else lookup (cache_key s k) entries)
unfolding clear_subject lookup
lookup-clear_subject [] subject s k w = ground arith
lookup-clear_subject ((cached, entry) ∷ entries) subject s k w =
    ground (arith, own_key (cached, entry) s k w.0, lookup-clear_subject entries subject s k w.1)

-- The laws of the table, at printed keys.
lookup-change :
    (entries : Entries) (subject : ℕ) (key value_type value : Option String) (s : ℕ) (k : String)
    → WellKeyed entries
    → lookup_entry (cache_change entries subject key value_type value) s k
      ≡ learn (lookup_entry entries) subject key value_type value s k
unfolding lookup_entry cache_change
lookup-change entries subject none value_type value s k w =
    lookup-clear_subject entries subject s k w
lookup-change entries subject (some key) value_type none s k w =
    lookup-remove (cache_key subject key) (cache_key s k) entries
    ∙ ap (λ b. if b then none else lookup (cache_key s k) entries) (same_key subject key s k)
lookup-change entries subject (some key) value_type (some value) s k w =
    let entry : MetadataEntry = record {
      subject = subject;
      key = key;
      value_type = value_type;
      value = value;
    } in
    lookup-replace (cache_key subject key) (cache_key s k) entry entries
    ∙ ap (λ b. if b then some entry else lookup (cache_key s k) entries) (same_key subject key s k)

clear_subject-WellKeyed :
    (entries : Entries) (subject : ℕ)
    → WellKeyed entries
    → WellKeyed (clear_subject entries subject)
unfolding clear_subject
clear_subject-WellKeyed [] subject w = tt
clear_subject-WellKeyed ((cached, entry) ∷ entries) subject w =
    if-both WellKeyed (entry.subject == subject) (clear_subject-WellKeyed entries subject w.1)
      (w.0, clear_subject-WellKeyed entries subject w.1)

remove-WellKeyed :
    (text : String) (entries : Entries) → WellKeyed entries → WellKeyed (remove text entries)
unfolding remove
remove-WellKeyed text [] w = tt
remove-WellKeyed text ((cached, entry) ∷ entries) w =
    if-both WellKeyed (str_eq cached text) (remove-WellKeyed text entries w.1)
      (w.0, remove-WellKeyed text entries w.1)

replace-WellKeyed :
    (entry : MetadataEntry) (entries : Entries)
    → WellKeyed entries
    → WellKeyed (replace (cache_key entry.subject entry.key) entry entries)
unfolding replace
replace-WellKeyed entry [] w = (refl, tt)
replace-WellKeyed entry ((cached, old) ∷ entries) w =
    if-both WellKeyed (str_eq cached (cache_key entry.subject entry.key)) (refl, w.1)
      (w.0, replace-WellKeyed entry entries w.1)

pub cache_change-WellKeyed :
    (entries : Entries) (subject : ℕ) (key value_type value : Option String)
    → WellKeyed entries
    → WellKeyed (cache_change entries subject key value_type value)
unfolding cache_change
cache_change-WellKeyed entries subject none value_type value w =
    clear_subject-WellKeyed entries subject w
cache_change-WellKeyed entries subject (some key) value_type none w =
    remove-WellKeyed (cache_key subject key) entries w
cache_change-WellKeyed entries subject (some key) value_type (some value) w =
    replace-WellKeyed
      (record { subject = subject; key = key; value_type = value_type; value = value }) entries w

-- What a run of events says, and what the cache makes of it.
abbrev pub learn_all : Known → List Property → Known
learn_all known [] = known
learn_all known (p ∷ properties) =
    learn_all (learn known p.subject p.key p.value_type p.value) properties

abbrev pub cache_all : Entries → List Property → Entries
cache_all entries [] = entries
cache_all entries (p ∷ properties) =
    cache_all (cache_change entries p.subject p.key p.value_type p.value) properties

-- After any property events the cache answers each subject and key as the events say, in their
-- order, on top of what it held: an event without a key clears its subject, one without a value its
-- key, and any other sets the entry. The cache starts with every entry under its own printed key.
pub cache_all-refines :
    (entries : Entries) (properties : List Property) (s : ℕ) (k : String)
    → WellKeyed entries
    → lookup_entry (cache_all entries properties) s k
      ≡ learn_all (lookup_entry entries) properties s k
cache_all-refines entries [] s k w = refl
cache_all-refines entries (p ∷ properties) s k w =
    let changed : Entries = cache_change entries p.subject p.key p.value_type p.value in
    cache_all-refines changed properties s k
      (cache_change-WellKeyed entries p.subject p.key p.value_type p.value w)
    ∙ ap (λ known. learn_all known properties s k)
        (fun_ext
          (λ i. fun_ext (λ j. lookup-change entries p.subject p.key p.value_type p.value i j w)))
