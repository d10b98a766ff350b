-- ===== src/Stream/Frames.antt =====
-- Memory: what the callbacks read lies inside PipeWire's buffer, and what a block announces lies
-- inside the bytes that it carries.
use Prim.Native.Nat.{min}
use pipewire_gobject.Prelude.{
  ◌<◌, ◌++◌, append_assoc, sym, ap, ◌∙◌, true, false, ℕ, zero, suc, ◌+◌, ◌-◌, ◌≤◌, ◌≡◌, refl, ◌⊎◌,
  inl, inr, List, [], ◌∷◌, some, arith, if-cases, not, ◌||◌, length, take, drop, length-drop, ltb,
  ◌==◌,
}
use pipewire_gobject.Double.{Double}
use pipewire_gobject.Stream.State.{Stream}
use pipewire_gobject.Stream.Process.{Spa, Chunk, process_chunk, handle_f32_audio}

length-take : {A : Type 0} (n : ℕ) (xs : List A) → length (take n xs) ≡ min n (length xs)
length-take zero xs = omega arith
length-take (suc n) [] = omega arith
length-take (suc n) (x ∷ xs) = omega (arith, length-take n xs)

length-slice :
    {A : Type 0} (offset : ℕ) (size : ℕ) (xs : List A)
    → offset + size ≤ length xs
    → length (take size (drop offset xs)) ≡ size
length-slice offset size xs h =
    ground (arith, length-take size (drop offset xs), length-drop offset xs)

take-append-drop : {A : Type 0} (n : ℕ) (xs : List A) → take n xs ++ drop n xs ≡ xs
take-append-drop zero xs = refl
take-append-drop (suc n) [] = refl
take-append-drop (suc n) (x ∷ xs) = ap (λ rest. x ∷ rest) (take-append-drop n xs)

module _ {V Pod : Type 0} (D : Double V) (spa : Spa Pod) where
  -- Why a chunk is not handled.
  abbrev pub Refused : Stream V → ℕ → Chunk → Type 0
  Refused self maxsize chunk =
      ((self.raw.format == spa.audio_format_f32) ≡ false)
      ⊎ ((self.raw.channels ≡ 0) ⊎ (maxsize < chunk.offset + chunk.size))

  -- What stands in the buffer at the place of a chunk.
  abbrev pub At : List ℕ → Chunk → List ℕ → Type 0
  At bytes chunk view =
      (before : List ℕ) × (after : List ℕ) × (bytes ≡ before ++ view ++ after)
      × (length before ≡ chunk.offset)
      × (length view ≡ chunk.size)

  slice-At :
      (bytes : List ℕ) (chunk : Chunk)
      → chunk.offset + chunk.size ≤ length bytes
      → At bytes chunk (take chunk.size (drop chunk.offset bytes))
  slice-At bytes chunk h =
      let rest = drop chunk.offset bytes in
      (
        take chunk.offset bytes,
        drop chunk.size rest,
        sym (
            append_assoc (take chunk.offset bytes) (take chunk.size rest) (drop chunk.size rest)
            ∙ ap (λ xs. take chunk.offset bytes ++ xs) (take-append-drop chunk.size rest)
            ∙ take-append-drop chunk.offset bytes),
        omega (arith, length-take chunk.offset bytes, h),
        length-slice chunk.offset chunk.size bytes h,
      )

  -- A chunk leaves the stream as it is where the format is not F32, where there are no channels, or
  -- where it does not lie inside the buffer. Otherwise the bytes that are handed on are those of the
  -- buffer from the offset of the chunk on, as many as its size says, and all inside the buffer.
  pub process_chunk_in_bounds :
      (self : Stream V) (bytes : List ℕ) (maxsize : ℕ) (chunk : Chunk)
      → maxsize ≤ length bytes
      → (Refused self maxsize chunk × (process_chunk D spa self bytes maxsize chunk ≡ self))
        ⊎ (((self.raw.format == spa.audio_format_f32) ≡ true)
            × (0 < self.raw.channels)
            × (chunk.offset + chunk.size ≤ maxsize)
            × ((view : List ℕ) × At bytes chunk view
                × (process_chunk D spa self bytes maxsize chunk
                    ≡ handle_f32_audio D self (some view) self.raw.rate self.raw.channels)))
  unfolding process_chunk
  process_chunk_in_bounds self bytes maxsize chunk h =
      let Result : Stream V → Type 0 = λ next.
        (Refused self maxsize chunk × (next ≡ self))
        ⊎ (((self.raw.format == spa.audio_format_f32) ≡ true)
            × (0 < self.raw.channels)
            × (chunk.offset + chunk.size ≤ maxsize)
            × ((view : List ℕ) × At bytes chunk view
                × (next ≡ handle_f32_audio D self (some view) self.raw.rate self.raw.channels))) in
      if-cases Result (not (self.raw.format == spa.audio_format_f32))
        (λ other. inl (inl (ground (arith, other)), refl))
        (λ float.
          if-cases Result (self.raw.channels == 0)
            (λ silent. inl (inr (inl (ground (arith, silent))), refl))
            (λ some_channel.
              if-cases Result (ltb maxsize chunk.offset || ltb (maxsize - chunk.offset) chunk.size)
                (λ outside. inl (inr (inr (ground (arith, outside))), refl))
                (λ e.
                  let inside : chunk.offset + chunk.size ≤ maxsize = ground (arith, e) in
                  inr (
                    ground (arith, float),
                    ground (arith, some_channel),
                    inside,
                    (
                      take chunk.size (drop chunk.offset bytes),
                      slice-At bytes chunk (omega (arith, inside, h)),
                      refl,
                    ),
                  ))))
