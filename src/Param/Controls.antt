-- ===== src/Param/Controls.antt =====
-- What the parameters that an application builds are made of.
use pipewire_gobject.Prelude.{
  str_eq, not, ℕ, ◌+◌, ◌%◌, ◌<◌, ◌≡◌, refl, ap, subst, ◌≢◌, ◌∙◌, String, Bool, true, false, ◌&&◌,
  ◌||◌, Option, none, some, List, [], ◌∷◌, ◌==◌, if◌then◌else◌, if-cases, arith,
}
use pipewire_gobject.Prelude.Int.{ℤ, is_negative}
use pipewire_gobject.Param.Pod.{Param}
use pipewire_gobject.Param.Build.{
  Frame, Builder, Value, pad_of, pad_offset, add_empty, pop_frame, finish, and_then, is_control,
  add_control, add_controls, build_controls, new_props_controls, pod_align,
  control_props_buffer_size,
}

none-if : {P : Type 0} (c : Bool) → ◌≡◌ {A = Option P} none (if c then none else none)
none-if true = refl
none-if false = refl

-- A choice behind three guards.
if-guards :
    {P : Type 0} (c p q r : Bool) (m n : Option P)
    → m ≡ (if c then n else none)
    → (if p then none else (if q then none else (if r then none else m)))
      ≡ (if c then (if p || q || r then none else n) else none)
if-guards c true q r m n h = none-if c
if-guards c false true r m n h = none-if c
if-guards c false false true m n h = none-if c
if-guards c false false false m n h = h

module _ {B V : Type 0} (builder : Builder B V) (value : Value V) where
  -- What the docs ask of each control: a name that is not empty, and a finite value in the range of
  -- `float`.
  abbrev pub all_controls : List (String × V) → Bool
  all_controls [] = true
  all_controls ((name, v) ∷ controls) =
      let rest = all_controls controls in
      not (str_eq name "")
      && value.is_finite v
      && not (value.below v)
      && not (value.above v)
      && rest

  is_control-eq :
      (name : String) (v : V) (rest : Bool)
      → (is_control builder value name v && rest) ≡ (
          not (str_eq name "")
          && value.is_finite v
          && not (value.below v)
          && not (value.above v)
          && rest)
  unfolding is_control
  is_control-eq name v rest = ground arith

  -- The controls written one after the other, with no test of them.
  abbrev pub write_controls : List (String × V) → B → Option B
  write_controls [] b = some b
  write_controls ((name, v) ∷ controls) b =
      and_then builder value (add_control builder value name v b)
        (λ next. write_controls controls next)

  -- The object with a struct of the controls in it, with no test of them.
  abbrev pub write_object : List (String × V) → Option Param
  write_object controls =
      let pushed = builder.push_object (builder.start control_props_buffer_size) in
      let prop = builder.prop_params pushed.0.1 in
      let inner = builder.push_struct prop.1 in
      if is_negative pushed.0.0 || is_negative prop.0 || is_negative inner.0.0
      then none
      else finish builder value pushed.1 (
          and_then builder value (write_controls controls inner.0.1)
            (λ c. pop_frame builder c inner.1))

  and_then-if :
      (c : Bool) (m : Option B) (f g : B → Option B)
      → ((b : B) → f b ≡ (if c then g b else none))
      → and_then builder value m f ≡ (if c then and_then builder value m g else none)
  unfolding and_then
  and_then-if c none f g h = none-if c
  and_then-if c (some b) f g h = h b

  add_controls-eq :
      (controls : List (String × V)) (b : B)
      → add_controls builder value controls b
        ≡ (if all_controls controls then write_controls controls b else none)
  unfolding add_controls
  add_controls-eq [] b = refl
  add_controls-eq ((name, v) ∷ controls) b =
      subst
        (λ t.
          add_controls builder value ((name, v) ∷ controls) b
          ≡ (if t then write_controls ((name, v) ∷ controls) b else none))
        (is_control-eq name v (all_controls controls))
        (elim (is_control builder value name v)
          as (λ t.
            (if t
              then and_then builder value (add_control builder value name v b)
                  (λ next. add_controls builder value controls next)
              else none)
            ≡ (if t && all_controls controls
                then write_controls ((name, v) ∷ controls) b
                else none)) [
                  | true ↦
                      and_then-if (all_controls controls) (add_control builder value name v b)
                        (λ next. add_controls builder value controls next)
                        (λ next. write_controls controls next)
                        (λ next. add_controls-eq controls next)
                  | false ↦ refl
                ])

  finish-none :
      (frame : Frame) (c : Bool) (m : Option B)
      → finish builder value frame (if c then m else none)
        ≡ (if c then finish builder value frame m else none)
  unfolding finish
  finish-none frame true m = refl
  finish-none frame false m = refl

  and_then-pulls :
      (c : Bool) (m : Option B) (f : B → Option B)
      → and_then builder value (if c then m else none) f
        ≡ (if c then and_then builder value m f else none)
  unfolding and_then
  and_then-pulls true m f = refl
  and_then-pulls false m f = refl

  -- Whatever the builder answers: an array with a control whose name is empty, or whose value is not
  -- finite or outside the range of `float`, gives no parameter, wherever it stands in the array, and
  -- any other array gives what writing all of its controls with no test gives.
  pub new_props_controls-validates :
      (controls : List (String × V))
      → new_props_controls builder value (some controls)
        ≡ (if all_controls controls then write_object controls else none)
  unfolding new_props_controls build_controls
  new_props_controls-validates controls =
      let pushed = builder.push_object (builder.start control_props_buffer_size) in
      let prop = builder.prop_params pushed.0.1 in
      let inner = builder.push_struct prop.1 in
      let close = λ (c : B). pop_frame builder c inner.1 in
      let body : finish builder value pushed.1
            (and_then builder value (add_controls builder value controls inner.0.1) close)
          ≡ (if all_controls controls
              then finish builder value pushed.1
                  (and_then builder value (write_controls controls inner.0.1) close)
              else none) =
        ap (λ m. finish builder value pushed.1 (and_then builder value m close))
          (add_controls-eq controls inner.0.1)
        ∙ ap (finish builder value pushed.1)
            (and_then-pulls (all_controls controls) (write_controls controls inner.0.1) close)
        ∙ finish-none pushed.1 (all_controls controls)
            (and_then builder value (write_controls controls inner.0.1) close) in
      if-guards (all_controls controls) (is_negative pushed.0.0) (is_negative prop.0)
        (is_negative inner.0.0)
        (finish builder value pushed.1
          (and_then builder value (add_controls builder value controls inner.0.1) close))
        (finish builder value pushed.1
          (and_then builder value (write_controls controls inner.0.1) close))
        body

-- What a write of zeroes does to the offset of a builder.
abbrev pub Advances : {B V : Type 0} → Builder B V → Type 0
Advances {B} builder =
    (b : B) (n : ℕ)
    → is_negative (builder.raw_zeroes b n).0 ≡ false
    → builder.offset (builder.raw_zeroes b n).1 ≡ builder.offset b + n

none-ne-some : {A : Type 0} {a : A} → none ≢ some a
none-ne-some h = cc

some_injective : {A : Type 0} {a b : A} → some a ≡ some b → a ≡ b
some_injective h = cc

pad_of-aligns : (offset : ℕ) → ((offset + pad_of offset) % 8 ≡ 0) × (pad_of offset < 8)
unfolding pad_of
pad_of-aligns offset = ground arith

module _ {B V : Type 0} (builder : Builder B V) (advances : Advances builder) where
  pad_offset-aligns :
      (b : B)
      → is_negative (pad_offset builder b).0 ≡ false
      → builder.offset (pad_offset builder b).1 % 8 ≡ 0
  unfolding pad_offset
  pad_offset-aligns b =
      let pad = pad_of (builder.offset b) in
      let (aligned, small) = pad_of-aligns (builder.offset b) in
      if-cases (λ (r : ℤ × B). is_negative r.0 ≡ false → builder.offset r.1 % 8 ≡ 0) (pad == 0)
        (λ e h. ground (arith, e, aligned)) (λ e h. ap (λ n. n % 8) (advances b pad h) ∙ aligned)

  -- A frame that was closed ends at a multiple of 8 bytes, as a POD must, whatever was added to it,
  -- where a write of zeroes moves the offset of the builder by as many bytes.
  pub pop_frame-aligns :
      (b closed : B) (frame : Frame)
      → pop_frame builder b frame ≡ some closed
      → builder.offset closed % pod_align ≡ 0
  unfolding pop_frame
  pop_frame-aligns b closed frame =
      let Aligned = λ (r : Option B). r ≡ some closed → builder.offset closed % pod_align ≡ 0 in
      let filled = add_empty builder b in
      let found = builder.frame_of filled.1 frame in
      let restored =
        builder.restore (if found then builder.write_pod filled.1 frame else filled.1) frame.parent
          frame.flags in
      let padded = pad_offset builder restored in
      if-cases Aligned (is_negative filled.0) (λ _ h. absurd (none-ne-some h))
        (λ _.
          if-cases Aligned (is_negative padded.0) (λ _ h. absurd (none-ne-some h))
            (λ e.
              if-cases Aligned found
                (λ _ h.
                  subst (λ c. builder.offset c % 8 ≡ 0) (some_injective h)
                    (pad_offset-aligns restored e))
                (λ _ h. absurd (none-ne-some h))))
