-- ===== src/Stream/Buffer.antt =====
-- What one buffer from PipeWire leaves of a stream that delivers blocks.
use pipewire_gobject.Prelude.{
  ℕ, suc, ◌+◌, ◌-◌, ◌*◌, ◌/◌, ◌≤◌, ◌<◌, ◌≡◌, refl, sym, ap, subst, ◌∙◌, true, false, ◌||◌, some,
  List, [], ◌∷◌, ◌++◌, arith, length, take, ltb, ◌==◌, if-both, if-cases, if◌then◌else◌,
}
use pipewire_gobject.Prelude.Word.{u32, u64}
use pipewire_gobject.Double.{Double, max}
use pipewire_gobject.Stream.State.{Stream, PendingBlock}
use pipewire_gobject.Stream.Queue.{queue_peak, queue_audio_block, drop_oldest}
use pipewire_gobject.Stream.Process.{samples, peak_of, queue_f32, handle_f32_audio}

-- A buffer with at least one whole frame of `channels` samples of 4 bytes, of a size that a
-- uint32_t can state.
abbrev pub IsWhole : ℕ → List ℕ → Type 0
IsWhole channels bytes =
    (0 < channels) × (channels * 4 ≤ length bytes) × (length bytes < 4294967296)

module _ {V : Type 0} (D : Double V) (rate : ℕ) (channels : ℕ) where
  -- The peak of a buffer's whole samples.
  abbrev pub loudness : List ℕ → V
  loudness bytes = peak_of D D.zero_val (samples D (take (length bytes / 4 * 4) bytes))

  -- The block that carries a buffer.
  abbrev pub block_for : ℕ → List ℕ → PendingBlock V
  block_for sequence bytes = record {
    bytes = take (length bytes / 4 * 4) bytes;
    sample_format = some "F32";
    rate = rate;
    channels = channels;
    bytes_per_sample = 4;
    n_frames = length bytes / 4 / channels;
    sequence = sequence;
    peak = loudness bytes;
  }

  handle_whole :
      (self : Stream V) (bytes : List ℕ)
      → IsWhole channels bytes
      → handle_f32_audio D self (some bytes) rate channels
        ≡ queue_f32 D self bytes
            (length bytes / 4)
            (length bytes / 4 / channels)
            rate
            channels
            (loudness bytes)
  unfolding handle_f32_audio
  handle_whole self bytes h =
      let fits : u32 (length bytes / 4) ≡ length bytes / 4 = omega (arith, h.2) in
      let enough : (ltb (length bytes) 4 || channels == 0) ≡ false = ground (arith, h.0, h.1) in
      let some_frame : (length bytes / 4 / channels == 0) ≡ false = grind (arith, h.0, h.1) in
      rw (fits, enough, some_frame) refl

  whole-cons :
      (bytes : List ℕ)
      → 4 ≤ length bytes
      → (byte : ℕ) × (rest : List ℕ) × (take (length bytes / 4 * 4) bytes ≡ byte ∷ rest)
  whole-cons [] h = absurd (omega arith)
  whole-cons (byte ∷ rest) h =
      let e : length (byte ∷ rest) / 4 * 4 ≡ suc (length (byte ∷ rest) / 4 * 4 - 1) = omega arith in
      (byte, take (length (byte ∷ rest) / 4 * 4 - 1) rest, ap (λ n. take n (byte ∷ rest)) e)

  abbrev pub Same : Stream V → Stream V → Type 0
  Same self next =
      (next.deliver_audio_blocks ≡ self.deliver_audio_blocks)
      × (next.running ≡ self.running)
      × (next.has_pending_format ≡ self.has_pending_format)
      × (next.has_pending_graph_rate ≡ self.has_pending_graph_rate)
      × (next.emitted ≡ self.emitted)

  abbrev Appended : Stream V → PendingBlock V → Stream V → Type 0
  Appended self block next =
      Same self next
      × (next.has_pending_peak ≡ self.has_pending_peak)
      × (next.pending_peak ≡ self.pending_peak)
      × (next.pending_blocks ≡ drop_oldest (self.pending_blocks ++ block ∷ []))
      × (next.next_sequence ≡ u64 (self.next_sequence + 1))

  abbrev Levelled : Stream V → V → Stream V → Type 0
  Levelled self peak next =
      Same self next
      × (next.has_pending_peak ≡ true)
      × (next.pending_peak ≡ (if self.has_pending_peak then max D self.pending_peak peak else peak))
      × (next.pending_blocks ≡ self.pending_blocks)
      × (next.next_sequence ≡ self.next_sequence)

  queue_audio_block-Appended :
      (self : Stream V) (view : List ℕ) (byte : ℕ) (rest : List ℕ) (n_frames : ℕ) (peak : V)
      → view ≡ byte ∷ rest
      → Appended self
          (record {
            bytes = view;
            sample_format = some "F32";
            rate = rate;
            channels = channels;
            bytes_per_sample = 4;
            n_frames = n_frames;
            sequence = self.next_sequence;
            peak = peak;
          })
          (queue_audio_block self (some view) (some "F32") rate channels 4 n_frames peak)
  unfolding queue_audio_block
  queue_audio_block-Appended self [] byte rest n_frames peak e = absurd (ground (arith, e))
  queue_audio_block-Appended self (b ∷ view) byte rest n_frames peak e =
      if-both (Appended self _) self.dispatch_pending
        ((refl, refl, refl, refl, refl), refl, refl, refl, refl)
        ((refl, refl, refl, refl, refl), refl, refl, refl, refl)

  queue_peak-Levelled : (self : Stream V) (peak : V) → Levelled self peak (queue_peak D self peak)
  unfolding queue_peak
  queue_peak-Levelled self peak =
      if-both (Levelled self peak) self.dispatch_pending
        ((refl, refl, refl, refl, refl), refl, refl, refl, refl)
        ((refl, refl, refl, refl, refl), refl, refl, refl, refl)

  queue_f32-delivering :
      (self : Stream V) (bytes : List ℕ) (n_samples : ℕ) (n_frames : ℕ) (peak : V)
      → self.deliver_audio_blocks ≡ true
      → queue_f32 D self bytes n_samples n_frames rate channels peak
        ≡ queue_audio_block
            (queue_peak D self peak)
            (some (take (u32 (n_samples * 4)) bytes))
            (some "F32")
            rate
            channels
            4
            n_frames
            peak
  unfolding queue_f32
  queue_f32-delivering self bytes n_samples n_frames peak on =
      if-cases
        (λ next.
          next
          ≡ queue_audio_block (queue_peak D self peak) (some (take (u32 (n_samples * 4)) bytes))
              (some "F32") rate channels 4 n_frames peak)
        self.deliver_audio_blocks (λ _. refl) (λ off. absurd (ground (arith, on, off)))

  -- What a callback with a whole buffer changes of a stream that delivers blocks.
  abbrev Took : Stream V → List ℕ → Stream V → Type 0
  Took self bytes next =
      Same self next
      × (next.has_pending_peak ≡ true)
      × (next.pending_peak ≡ (
          if self.has_pending_peak
          then max D self.pending_peak (loudness bytes)
          else loudness bytes))
      × (next.pending_blocks
          ≡ drop_oldest (self.pending_blocks ++ block_for self.next_sequence bytes ∷ []))
      × (next.next_sequence ≡ u64 (self.next_sequence + 1))

  join :
      (self : Stream V) (mid : Stream V) (bytes : List ℕ) (next : Stream V)
      → Levelled self (loudness bytes) mid
      → Appended mid (block_for mid.next_sequence bytes) next
      → Took self bytes next
  join self mid bytes next ((l0, l1, l2, l3, l4), l5, l6, l7, l8)
        ((a0, a1, a2, a3, a4), a5, a6, a7, a8) =
      (
        (a0 ∙ l0, a1 ∙ l1, a2 ∙ l2, a3 ∙ l3, a4 ∙ l4),
        a5 ∙ l5,
        a6 ∙ l6,
        a7
            ∙ ap (λ old. drop_oldest (old ++ block_for mid.next_sequence bytes ∷ [])) l7
            ∙ ap (λ n. drop_oldest (self.pending_blocks ++ block_for n bytes ∷ [])) l8,
        a8 ∙ ap (λ n. u64 (n + 1)) l8,
      )

  pub handle-Took :
      (self : Stream V) (bytes : List ℕ)
      → IsWhole channels bytes
      → self.deliver_audio_blocks ≡ true
      → Took self bytes (handle_f32_audio D self (some bytes) rate channels)
  handle-Took self bytes h on =
      let (byte, rest, e) = whole-cons bytes (ground (arith, h.0, h.1)) in
      let fits : u32 (length bytes / 4 * 4) ≡ length bytes / 4 * 4 = omega (arith, h.2) in
      let mid : Stream V = queue_peak D self (loudness bytes) in
      let queued : Stream V =
        queue_audio_block mid (some (take (length bytes / 4 * 4) bytes)) (some "F32") rate channels
          4 (length bytes / 4 / channels) (loudness bytes) in
      let same : handle_f32_audio D self (some bytes) rate channels ≡ queued =
        handle_whole self bytes h
        ∙ queue_f32-delivering self bytes (length bytes / 4) (length bytes / 4 / channels)
            (loudness bytes) on
        ∙ ap
            (λ n.
              queue_audio_block mid (some (take n bytes)) (some "F32") rate channels 4
                (length bytes / 4 / channels) (loudness bytes))
            fits in
      subst (Took self bytes) (sym same) (
        join self mid bytes queued (queue_peak-Levelled self (loudness bytes)) (
          queue_audio_block-Appended mid (take (length bytes / 4 * 4) bytes) byte rest
            (length bytes / 4 / channels) (loudness bytes) e))
