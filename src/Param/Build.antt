-- ===== src/Param/Build.antt =====
-- src/pwg-param.c: the parameters that an application builds. The builder of SPA is a parameter.
use pipewire_gobject.Prelude.{
  ℕ, ◌-◌, ◌%◌, String, Bool, true, false, not, ◌||◌, Option, none, some, List, [], ◌∷◌, ◌==◌,
  str_eq, if◌then◌else◌,
}
use pipewire_gobject.Prelude.Int.{ℤ, pos, is_negative}
use pipewire_gobject.Param.Pod.{Param, param_new}

-- struct spa_pod_frame, as far as the code reads it. Its POD grows with what is added to the
-- builder, so it is part of the state of the builder, and `id` says which one it is; a pop goes back
-- to the frame around it and to its flags.
pub record Frame : Type 0 where
  pub id : ℕ
  pub parent : ℕ
  pub flags : ℕ

-- The builder of SPA, over a state of its own. A call gives its result, which is negative where it
-- fails, and the state after it; `frame_of` says whether spa_pod_builder_frame finds the frame, and `written` the bytes of
-- the POD of a frame that was popped.
pub record Builder (B V : Type 0) : Type 0 where
  pub start : ℕ → B
  pub push_object : B → (ℤ × B) × Frame
  pub push_struct : B → (ℤ × B) × Frame
  pub prop_volume : B → ℤ × B
  pub prop_mute : B → ℤ × B
  pub prop_params : B → ℤ × B
  pub add_float : B → V → ℤ × B
  pub add_bool : B → Bool → ℤ × B
  pub add_string : B → String → ℤ × B
  pub raw_empty : B → ℤ × B
  pub raw_zeroes : B → ℕ → ℤ × B
  pub offset : B → ℕ
  pub is_first : B → Bool
  pub frame_of : B → Frame → Bool
  pub write_pod : B → Frame → B
  pub restore : B → ℕ → ℕ → B
  pub written : B → Frame → List ℕ

-- What the code asks of a `double`, and the narrowing to `float`.
pub record Value (V : Type 0) : Type 0 where
  pub is_finite : V → Bool
  pub below : V → Bool  -- < -G_MAXFLOAT
  pub above : V → Bool  -- > G_MAXFLOAT
  pub at_least_zero : V → Bool  -- >= 0.0
  pub at_most_max : V → Bool  -- <= G_MAXFLOAT
  pub to_float : V → V

-- PWG_PARAM_POD_ALIGN and the sizes of the buffers
abbrev pub pod_align : ℕ
pod_align = 8

abbrev simple_props_buffer_size : ℕ
simple_props_buffer_size = 256

abbrev pub control_props_buffer_size : ℕ
control_props_buffer_size = 65536

-- The padding behind an offset.
unfoldable pub pad_of : ℕ → ℕ
pad_of offset = let remainder = offset % 8 in if remainder == 0 then 0 else pod_align - remainder

module _ {B V : Type 0} (builder : Builder B V) where
  -- pwg_param_builder_pad_offset
  unfoldable pub pad_offset : B → ℤ × B
  unfolding pad_of
  pad_offset b =
      let pad = pad_of (builder.offset b) in
      if pad == 0 then (pos 0, b) else builder.raw_zeroes b pad

  -- The first step of pwg_param_builder_pop_frame: an empty POD where nothing was added.
  unfoldable pub add_empty : B → ℤ × B
  add_empty b = if builder.is_first b then builder.raw_empty b else (pos 0, b)

  -- pwg_param_builder_pop_frame: the builder, or NULL
  unfoldable pub pop_frame : B → Frame → Option B
  unfolding add_empty pad_offset
  pop_frame b frame =
      let filled = add_empty b in
      if is_negative filled.0
      then none
      else (let found = builder.frame_of filled.1 frame in
          let closed =
            builder.restore (if found then builder.write_pod filled.1 frame else filled.1)
              frame.parent frame.flags in
          let padded = pad_offset closed in
          if is_negative padded.0 then none else if found then some padded.1 else none)

-- The parameter of a POD that was written; SPA_PARAM_Props is 2 of SPA's ids.
abbrev pub param_props : ℕ
param_props = 2

unfoldable pub props_param : List ℕ → Option Param
unfolding param_new
props_param bytes = param_new (pos 0) param_props 0 0 (some bytes)

module _ {B V : Type 0} (builder : Builder B V) (value : Value V) where
  -- Two calls one after the other; the second one is not made where the first one fails.
  unfoldable pub then_add : ℤ × B → (B → ℤ × B) → Option B
  then_add first second =
      let result = second first.1 in
      if is_negative first.0 then none else if is_negative result.0 then none else some result.1

  unfoldable pub add_volume : Bool → V → B → Option B
  unfolding then_add
  add_volume has_volume volume b =
      if has_volume
      then then_add (builder.prop_volume b) (λ c. builder.add_float c (value.to_float volume))
      else some b

  unfoldable pub add_mute : Bool → Bool → B → Option B
  unfolding then_add
  add_mute has_mute mute b =
      if has_mute then then_add (builder.prop_mute b) (λ c. builder.add_bool c mute) else some b

  -- The end of both constructors: the object is closed and copied.
  unfoldable pub finish : Frame → Option B → Option Param
  unfolding pop_frame props_param
  finish frame none = none
  finish frame (some b) = elim (pop_frame builder b frame) [
    | none ↦ none
    | some closed ↦ props_param (builder.written closed frame)
  ]

  unfoldable pub and_then : Option B → (B → Option B) → Option B
  and_then none next = none
  and_then (some b) next = next b

  -- pwg_param_new_props
  unfoldable pub new_props : Bool → V → Bool → Bool → Option Param
  unfolding add_volume add_mute finish and_then
  new_props has_volume volume has_mute mute =
      let pushed = builder.push_object (builder.start simple_props_buffer_size) in
      if is_negative pushed.0.0
      then none
      else finish pushed.1
          (and_then (add_volume has_volume volume pushed.0.1) (add_mute has_mute mute))

  -- pwg_param_new_props_volume
  unfoldable pub new_props_volume : V → Option Param
  unfolding new_props
  new_props_volume volume =
      if not (value.at_least_zero volume)
      then none
      else if not (value.at_most_max volume)
      then none
      else new_props true volume false false

  -- pwg_param_new_props_mute; the volume that goes with it is not read
  unfoldable pub new_props_mute : V → Bool → Option Param
  unfolding new_props
  new_props_mute unread mute = new_props false unread true mute

  -- The tests of a control, in their order.
  unfoldable pub is_control : String → V → Bool
  is_control name v =
      if str_eq name ""
      then false
      else if not (value.is_finite v) || value.below v || value.above v
      then false
      else true

  -- A control in the struct: its name and its value.
  unfoldable pub add_control : String → V → B → Option B
  unfolding then_add
  add_control name v b =
      then_add (builder.add_string b name) (λ c. builder.add_float c (value.to_float v))

  -- The loop of pwg_param_new_props_controls
  unfoldable pub add_controls : List (String × V) → B → Option B
  unfolding is_control add_control and_then
  add_controls [] b = some b
  add_controls ((name, v) ∷ controls) b =
      if is_control name v
      then and_then (add_control name v b) (λ next. add_controls controls next)
      else none

  -- From the struct of the controls on.
  unfoldable pub build_controls : Frame → List (String × V) → B → Option Param
  unfolding add_controls finish and_then pop_frame
  build_controls object_frame controls b =
      let pushed = builder.push_struct b in
      if is_negative pushed.0.0
      then none
      else finish object_frame
          (and_then (add_controls controls pushed.0.1) (λ c. pop_frame builder c pushed.1))

  -- pwg_param_new_props_controls; `none` is a variant that is no a{sd}
  unfoldable pub new_props_controls : Option (List (String × V)) → Option Param
  unfolding build_controls
  new_props_controls none = none
  new_props_controls (some controls) =
      let pushed = builder.push_object (builder.start control_props_buffer_size) in
      let prop = builder.prop_params pushed.0.1 in
      if is_negative pushed.0.0
      then none
      else if is_negative prop.0
      then none
      else build_controls pushed.1 controls prop.1
