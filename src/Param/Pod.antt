-- ===== src/Param/Pod.antt =====
-- src/pwg-param.c: struct _PwgParam, and how its bytes are read as a POD.
use pipewire_gobject.Prelude.{
  ℕ, ◌+◌, ◌*◌, ◌≤◌, not, Option, none, some, List, [], ◌∷◌, length, drop, ltb, ◌==◌, if◌then◌else◌,
}
use pipewire_gobject.Prelude.Int.{ℤ}

-- struct _PwgParam; `bytes` are the bytes of the GBytes
pub record Param : Type 0 where
  pub seq : ℤ  -- int
  pub id : ℕ  -- unsigned int
  pub index : ℕ
  pub next : ℕ
  pub bytes : List ℕ

-- _pwg_param_new; a NULL GBytes is refused
unfoldable pub param_new : ℤ → ℕ → ℕ → ℕ → Option (List ℕ) → Option Param
param_new seq id index next none = none
param_new seq id index next (some bytes) =
    some (record { seq = seq; id = id; index = index; next = next; bytes = bytes })

-- The structs of SPA that are laid over the bytes: the size of struct spa_pod, and where the four
-- uint32_t fields stand that the code reads.
pub record PodLayout : Type 0 where
  pub sizeof_pod : ℕ
  pub size_at : ℕ
  pub type_at : ℕ
  pub object_type_at : ℕ
  pub object_id_at : ℕ
  pub type_object : ℕ  -- SPA_TYPE_Object

-- The fields of struct spa_pod stand inside it, those of the body of an object behind it.
pub record IsLayout (layout : PodLayout) : Type 0 where
  pub size_inside : layout.size_at + 4 ≤ layout.sizeof_pod
  pub type_inside : layout.type_at + 4 ≤ layout.sizeof_pod
  pub object_type_behind : layout.sizeof_pod ≤ layout.object_type_at
  pub object_id_behind : layout.sizeof_pod ≤ layout.object_id_at

-- A little-endian uint32_t.
abbrev pub word : List ℕ → Option ℕ
word (a ∷ b ∷ c ∷ d ∷ rest) = some (a + 256 * b + 65536 * c + 16777216 * d)
word (a ∷ b ∷ c ∷ []) = none
word (a ∷ b ∷ []) = none
word (a ∷ []) = none
word [] = none

-- A read of four bytes at an offset of the buffer; `none` is a read outside of it.
unfoldable pub read_u32 : List ℕ → ℕ → Option ℕ
read_u32 bytes offset = word (drop offset bytes)

module _ (layout : PodLayout) where
  -- SPA_POD_SIZE of a buffer that has a header
  unfoldable pub pod_size : List ℕ → Option ℕ
  unfolding read_u32
  pod_size bytes = elim (read_u32 bytes layout.size_at) [
    | none ↦ none
    | some size ↦ some (layout.sizeof_pod + size)
  ]

  -- pwg_param_get_pod. The outer `none` is a read outside of the buffer, the inner one is NULL.
  unfoldable pub get_pod : Param → Option (Option (List ℕ))
  unfolding pod_size
  get_pod self =
      if ltb (length self.bytes) layout.sizeof_pod then some none else elim (pod_size self.bytes) [
        | none ↦ none
        | some size ↦ if ltb (length self.bytes) size then some none else some (some self.bytes)
      ]

  -- SPA_POD_TYPE
  unfoldable pub pod_type : List ℕ → Option ℕ
  unfolding read_u32
  pod_type bytes = read_u32 bytes layout.type_at

  -- pwg_param_get_pod_type
  unfoldable pub get_pod_type : Param → Option ℕ
  unfolding get_pod pod_type
  get_pod_type self = elim (get_pod self) [
    | none ↦ none
    | some none ↦ some 0
    | some (some pod) ↦ pod_type pod
  ]

  -- A field of an object's body, or 0 where the POD is not an object.
  unfoldable pub object_field : ℕ → Param → Option ℕ
  unfolding get_pod pod_type read_u32
  object_field offset self = elim (get_pod self) [
    | none ↦ none
    | some none ↦ some 0
    | some (some pod) ↦ elim (pod_type pod) [
      | none ↦ none
      | some type ↦ if not (type == layout.type_object) then some 0 else read_u32 pod offset
    ]
  ]

  -- pwg_param_get_object_type
  unfoldable pub get_object_type : Param → Option ℕ
  unfolding object_field
  get_object_type self = object_field layout.object_type_at self

  -- pwg_param_get_object_id
  unfoldable pub get_object_id : Param → Option ℕ
  unfolding object_field
  get_object_id self = object_field layout.object_id_at self
