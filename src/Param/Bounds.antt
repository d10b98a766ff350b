-- ===== src/Param/Bounds.antt =====
-- Which reads of the bytes of a parameter stay inside of them.
use pipewire_gobject.Prelude.{
  false, ap, ◌∙◌, ==_refl, ℕ, ◌+◌, ◌≤◌, ◌<◌, ◌≡◌, refl, subst, ◌↔◌, ◌⊎◌, ◌≢◌, Option, none, some,
  List, [], ◌∷◌, length, length-drop, drop, ltb, arith, Bool-cases, inl, inr,
}
use pipewire_gobject.Param.Pod.{
  Param, PodLayout, IsLayout, word, read_u32, pod_size, get_pod, pod_type, get_pod_type,
  object_field, get_object_type, get_object_id,
}

word-none : (bytes : List ℕ) → (word bytes ≡ none) ↔ (length bytes < 4)
word-none [] = (λ h. omega arith, λ h. refl)
word-none (a ∷ []) = (λ h. omega arith, λ h. refl)
word-none (a ∷ b ∷ []) = (λ h. omega arith, λ h. refl)
word-none (a ∷ b ∷ c ∷ []) = (λ h. omega arith, λ h. refl)
word-none (a ∷ b ∷ c ∷ d ∷ rest) = (λ h. absurd (cc), λ h. absurd (omega arith))

-- A read of four bytes leaves the buffer just when they do not fit behind the offset.
pub read_u32-none :
    (bytes : List ℕ) (offset : ℕ) → (read_u32 bytes offset ≡ none) ↔ (length bytes < offset + 4)
unfolding read_u32
read_u32-none bytes offset =
    let (there, back) = word-none (drop offset bytes) in
    let len = length-drop offset bytes in
    (λ h. let short = there h in omega arith, λ h. back (omega arith))

-- The length of a POD, header included, fits the buffer.
abbrev pub Fits : PodLayout → List ℕ → Type 0
Fits layout bytes =
    (size : ℕ) × (pod_size layout bytes ≡ some size)
    × (layout.sizeof_pod ≤ size)
    × (size ≤ length bytes)

module _ (layout : PodLayout) (lawful : IsLayout layout) where
  header_read :
      (bytes : List ℕ) (offset : ℕ)
      → offset + 4 ≤ layout.sizeof_pod
      → layout.sizeof_pod ≤ length bytes
      → (value : ℕ) × (read_u32 bytes offset ≡ some value)
  header_read bytes offset inside header =
      elim (read_u32 bytes offset)
          as (λ r. (r ≡ none → length bytes < offset + 4) → (value : ℕ) × (r ≡ some value)) [
            | none ↦ λ short. absurd (let h = short refl in omega arith)
            | some value ↦ λ short. (value, refl)
          ]
        (read_u32-none bytes offset).0

  -- What pwg_param_get_pod gives: NULL, or the bytes, which then hold a whole POD.
  abbrev pub Gives : Param → Option (Option (List ℕ)) → Type 0
  Gives self r = (r ≡ some none) ⊎ ((r ≡ some (some self.bytes)) × Fits layout self.bytes)

  size_read :
      (bytes : List ℕ)
      → layout.sizeof_pod ≤ length bytes
      → (size : ℕ) × (pod_size layout bytes ≡ some (layout.sizeof_pod + size))
  unfolding pod_size
  size_read bytes header =
      let (size, e) = header_read bytes layout.size_at lawful.size_inside header in
      (size, rw (e, pod_size) refl)

  get_pod-Gives : (self : Param) → Gives self (get_pod layout self)
  unfolding get_pod
  get_pod-Gives self = elim (Bool-cases (ltb (length self.bytes) layout.sizeof_pod)) [
    | inl short ↦ inl (rw (short, get_pod) refl)
    | inr long ↦
        let (size, e) = size_read self.bytes (ground (arith, long)) in
        elim (Bool-cases (ltb (length self.bytes) (layout.sizeof_pod + size))) [
          | inl short ↦ inl (rw (long, e, short, get_pod) refl)
          | inr fits ↦ inr (
            rw (long, e, fits, get_pod) refl,
            (layout.sizeof_pod + size, e, omega arith, ground (arith, fits)),
          )
        ]
  ]

  got :
      (self : Param) (pod : List ℕ)
      → Gives self (some (some pod))
      → (pod ≡ self.bytes) × Fits layout self.bytes
  got self pod (inl null) = absurd (cc)
  got self pod (inr (there, fits)) = (ground (arith, there), fits)

  -- A field of the header is read inside of the bytes; `none` would be a read outside of them.
  get_pod_type-reads : (self : Param) → get_pod_type layout self ≢ none
  unfolding get_pod_type pod_type
  get_pod_type-reads self h = elim (get_pod-Gives self) [
    | inl null ↦ ground (arith, h, null)
    | inr (there, fits) ↦
        let (value, read) =
          header_read self.bytes layout.type_at lawful.type_inside
            (omega (arith, fits.2, fits.3)) in
        ground (arith, h, there, read)
  ]

  get_pod-reads : (self : Param) → get_pod layout self ≢ none
  get_pod-reads self h = elim (get_pod-Gives self) [
    | inl null ↦ ground (arith, h, null)
    | inr (there, fits) ↦ ground (arith, h, there)
  ]

  -- Whatever the bytes of a parameter are: looking for its POD and for the type of it never reads
  -- outside of them, and a POD that is found is the bytes, which hold all of it, header included.
  pub get_pod_in_bounds :
      (self : Param)
      → (get_pod layout self ≢ none)
        × (get_pod_type layout self ≢ none)
        × ((pod : List ℕ)
            → get_pod layout self ≡ some (some pod)
            → (pod ≡ self.bytes) × Fits layout self.bytes)
  get_pod_in_bounds self = (
    get_pod-reads self,
    get_pod_type-reads self,
    λ pod there. got self pod (subst (Gives self) there (get_pod-Gives self)),
  )

module _ (layout : PodLayout) where
  -- The POD of an object, whose body may yet be too short for its fields.
  abbrev pub IsObject : Param → Type 0
  IsObject self =
      (get_pod layout self ≡ some (some self.bytes))
      × (pod_type layout self.bytes ≡ some layout.type_object)

  field-overrun :
      (self : Param) (offset : ℕ)
      → IsObject self
      → object_field layout offset self ≡ read_u32 self.bytes offset
  unfolding object_field
  field-overrun self offset (there, type) =
      rw (there, type, object_field) (rw (==_refl layout.type_object, ◌≡◌) refl)

  object_type-none :
      (self : Param)
      → IsObject self
      → ((get_object_type layout self ≡ none) ↔ (length self.bytes < layout.object_type_at + 4))
        × ((get_object_id layout self ≡ none) ↔ (length self.bytes < layout.object_id_at + 4))
  unfolding get_object_type get_object_id
  object_type-none self object =
      rw
        (
          field-overrun self layout.object_type_at object,
          field-overrun self layout.object_id_at object,
        )
        (
          read_u32-none self.bytes layout.object_type_at,
          read_u32-none self.bytes layout.object_id_at,
        )

  -- SPA's layout: struct spa_pod is its size and its type, and the body of an object begins with
  -- its type and its id. The number of the type fits a byte.
  pub record IsSpa : Type 0 where
    pub sizeof_pod : layout.sizeof_pod ≡ 8
    pub size_at : layout.size_at ≡ 0
    pub type_at : layout.type_at ≡ 4
    pub object_type_at : layout.object_type_at ≡ 8
    pub object_id_at : layout.object_id_at ≡ 12

  -- A POD of the type of objects with the given body, little-endian.
  abbrev pub object_of : List ℕ → List ℕ
  object_of body = length body ∷ 0 ∷ 0 ∷ 0 ∷ layout.type_object ∷ 0 ∷ 0 ∷ 0 ∷ body

  object_of-IsObject :
      (self : Param) (body : List ℕ) → IsSpa → self.bytes ≡ object_of body → IsObject self
  unfolding get_pod pod_type pod_size
  object_of-IsObject self body spa e =
      let total : length self.bytes ≡ 8 + length body = ap length e ∙ omega arith in
      let size : pod_size layout self.bytes ≡ some (layout.sizeof_pod + length body) =
        rw (pod_size, spa.size_at, e) (ap some (omega arith)) in
      let long : ltb (length self.bytes) layout.sizeof_pod ≡ false =
        ground (arith, total, spa.sizeof_pod) in
      let fits : ltb (length self.bytes) (layout.sizeof_pod + length body) ≡ false =
        ground (arith, total, spa.sizeof_pod) in
      (rw (long, size, fits, get_pod) refl, rw (pod_type, spa.type_at, e) (ap some (omega arith)))

  -- The type and the id of an object are read behind the header with no further test: with SPA's
  -- layout, a parameter whose bytes are the POD of an object with a body of less than 8 bytes passes
  -- the search for its POD, and then the read of the id leaves the bytes, and that of the type does
  -- so just when the body has less than 4.
  pub object_type_overruns :
      (self : Param) (body : List ℕ)
      → IsSpa
      → self.bytes ≡ object_of body
      → length body < 8
      → (get_pod layout self ≡ some (some self.bytes))
        × ((get_object_type layout self ≡ none) ↔ (length body < 4))
        × (get_object_id layout self ≡ none)
  object_type_overruns self body spa e short =
      let object = object_of-IsObject self body spa e in
      let (type, id) = object_type-none self object in
      let total : length self.bytes ≡ 8 + length body = ap length e ∙ omega arith in
      (
        object.0,
        (
          λ h. let less = type.0 h in omega (arith, less, total, spa.object_type_at),
          λ h. type.1 (omega (arith, h, total, spa.object_type_at)),
        ),
        id.1 (omega (arith, short, total, spa.object_id_at)),
      )
