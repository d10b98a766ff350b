-- ===== src/Param/Witnesses.antt =====
-- The theorems on parameters at concrete bytes and a concrete builder.
use pipewire_gobject.Prelude.{
  ℕ, ◌+◌, ◌<◌, ◌≡◌, ◌≢◌, ◌↔◌, refl, String, true, false, none, some, List, [], ◌∷◌, ltb, not, ◌==◌,
  if◌then◌else◌, arith,
}
use pipewire_gobject.Prelude.Int.{pos}
use pipewire_gobject.Param.Pod.{
  Param, PodLayout, IsLayout, get_pod, get_pod_type, get_object_type, get_object_id,
}
use pipewire_gobject.Param.Build.{Frame, Builder, Value, new_props_controls}
use pipewire_gobject.Param.Bounds.{Fits, IsSpa, get_pod_in_bounds, object_type_overruns}
use pipewire_gobject.Param.Controls.{
  all_controls, write_object, Advances, new_props_controls-validates,
}

abbrev layout : PodLayout
layout = record {
  sizeof_pod = 8;
  size_at = 0;
  type_at = 4;
  object_type_at = 8;
  object_id_at = 12;
  type_object = 15;
}

layout-IsLayout : IsLayout layout
layout-IsLayout = record {
  size_inside = omega arith;
  type_inside = omega arith;
  object_type_behind = omega arith;
  object_id_behind = omega arith;
}

-- The header of an object with an empty body.
abbrev bare : Param
bare = record {
  seq = pos 0;
  id = 3;
  index = 0;
  next = 0;
  bytes = 0 ∷ 0 ∷ 0 ∷ 0 ∷ 15 ∷ 0 ∷ 0 ∷ 0 ∷ [];
}

get_pod_in_bounds_example :
    (get_pod layout bare ≢ none)
    × (get_pod_type layout bare ≢ none)
    × ((pod : List ℕ)
        → get_pod layout bare ≡ some (some pod)
        → (pod ≡ bare.bytes) × Fits layout bare.bytes)
get_pod_in_bounds_example = get_pod_in_bounds layout layout-IsLayout bare

layout-IsSpa : IsSpa layout
layout-IsSpa = record {
  sizeof_pod = refl;
  size_at = refl;
  type_at = refl;
  object_type_at = refl;
  object_id_at = refl;
}

object_type_overruns_example :
    (get_pod layout bare ≡ some (some bare.bytes))
    × ((get_object_type layout bare ≡ none) ↔ (0 < 4))
    × (get_object_id layout bare ≡ none)
object_type_overruns_example = object_type_overruns layout bare [] layout-IsSpa refl (omega arith)

-- A builder that only counts the bytes, and has room for any number of them.
abbrev counter : Builder ℕ ℕ
counter =
    let frame : Frame = record { id = 0; parent = 0; flags = 0 } in
    record {
      start = λ size. 0;
      push_object = λ b. ((pos 0, b + 16), frame);
      push_struct = λ b. ((pos 0, b + 8), frame);
      prop_volume = λ b. (pos 0, b + 8);
      prop_mute = λ b. (pos 0, b + 8);
      prop_params = λ b. (pos 0, b + 8);
      add_float = λ b v. (pos 0, b + 16);
      add_bool = λ b v. (pos 0, b + 16);
      add_string = λ b s. (pos 0, b + 9);
      raw_empty = λ b. (pos 0, b + 8);
      raw_zeroes = λ b n. (pos 0, b + n);
      offset = λ b. b;
      is_first = λ b. false;
      frame_of = λ b f. true;
      write_pod = λ b f. b;
      restore = λ b parent flags. b;
      written = λ b f. [];
    }

-- Small numbers in place of `double`.
abbrev numbers : Value ℕ
numbers = record {
  is_finite = λ v. not (v == 9);
  below = λ v. false;
  above = λ v. ltb 100 v;
  at_least_zero = λ v. true;
  at_most_max = λ v. not (ltb 100 v);
  to_float = λ v. v;
}

abbrev controls : List (String × ℕ)
controls = ("gain", 3) ∷ ("mix", 9) ∷ []

new_props_controls-validates_example : new_props_controls counter numbers (some controls) ≡ (
    if all_controls counter numbers controls then write_object counter numbers controls else none)
new_props_controls-validates_example = new_props_controls-validates counter numbers controls

counter-Advances : Advances counter
counter-Advances b n h = refl
