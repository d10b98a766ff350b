-- ===== src/Stream/Delivery.antt =====
-- What an application hears of a capture: the signals of one dispatch, and the way of audio from
-- PipeWire's buffers to the signals, by functions that say it without the stream.
use pipewire_gobject.Prelude.{
  ℕ, ◌≡◌, refl, sym, ap, ◌∙◌, Bool, true, false, not, ◌&&◌, Option, none, some, List, [], ◌∷◌, ◌++◌,
  append-nil, append_assoc, arith, ◌==◌, if◌then◌else◌,
}
use pipewire_gobject.Audio.{AudioBlock}
use pipewire_gobject.Double.{Double}
use pipewire_gobject.Stream.State.{
  Stream, Signal, PendingBlock, quiet, emit, notify_rate, notify_channels, notify_audio_format,
  notify_graph_rate, notify_peak, level, audio_block,
}
use pipewire_gobject.Stream.Dispatch.{
  snapshot, take_pending, make_block, emit_audio_block, publish_format, publish_graph_rate,
  publish_peak, publish_blocks, dispatch_pending, emit_peak,
}

module _ {V : Type 0} where
  -- The signal for a block; without a format there is none.
  unfoldable pub signal_of : Option (AudioBlock V) → List (Signal V)
  signal_of none = []
  signal_of (some made) = audio_block made ∷ []

  -- The signals for pending blocks, in order.
  unfoldable pub announced : List (PendingBlock V) → List (Signal V)
  unfolding make_block signal_of
  announced [] = []
  announced (block ∷ blocks) = signal_of (make_block block) ++ announced blocks

  -- What there is to say of each kind, given whether the stream runs and what it shows.
  abbrev pub format_signals : Stream V → List (Signal V)
  format_signals self =
      if self.has_pending_format
      then notify_rate ∷ notify_channels ∷ notify_audio_format ∷ []
      else []

  abbrev pub rate_signals : Stream V → Bool → ℕ → List (Signal V)
  rate_signals self running shown =
      if running && self.has_pending_graph_rate && not (shown == self.pending_graph_rate)
      then notify_graph_rate ∷ []
      else []

  abbrev pub peak_signals : Stream V → Bool → List (Signal V)
  peak_signals self running =
      if running && self.has_pending_peak then notify_peak ∷ level self.pending_peak ∷ [] else []

  abbrev pub block_signals : List (PendingBlock V) → Bool → List (Signal V)
  block_signals blocks running = if running then announced blocks else []

  -- The signals that a stream owes for what is pending.
  unfoldable pub report : Stream V → List (Signal V)
  unfolding announced
  report self =
      format_signals self
      ++ rate_signals self self.running self.graph_rate
      ++ peak_signals self self.running
      ++ block_signals self.pending_blocks self.running

  join_signals :
      (running : Bool) (made : List (Signal V)) (blocks : List (PendingBlock V))
      (old : List (Signal V))
      → (old ++ (if running then made else [])) ++ (if running then announced blocks else [])
        ≡ old ++ (if running then made ++ announced blocks else [])
  join_signals true made blocks old = append_assoc old made (announced blocks)
  join_signals false made blocks old = append_assoc old [] []

  -- One turn of the loop over the blocks.
  deliver_one :
      (block : PendingBlock V) (self : Stream V)
      → let next = if self.running then emit_audio_block quiet block self else self in
        (next.emitted ≡ self.emitted ++ (if self.running then signal_of (make_block block) else []))
        × (next.running ≡ self.running)
  unfolding emit_audio_block signal_of emit
  deliver_one block self =
      elim (make_block block)
        as (λ made.
          let next =
            if self.running
            then (elim made [ none ↦ self | some block ↦ emit quiet (audio_block block) self ])
            else self in
          (next.emitted ≡ self.emitted ++ (if self.running then signal_of made else []))
          × (next.running ≡ self.running)) [
            | none ↦ ground (arith, append-nil self.emitted)
            | some made ↦ ground (arith, append-nil self.emitted)
          ]

  publish_blocks-quiet :
      (blocks : List (PendingBlock V)) (self : Stream V)
      → (publish_blocks quiet blocks self).emitted
        ≡ self.emitted ++ block_signals blocks self.running
  unfolding publish_blocks announced
  publish_blocks-quiet [] self = ground (arith, append-nil self.emitted)
  publish_blocks-quiet (block ∷ blocks) self =
      let next : Stream V = if self.running then emit_audio_block quiet block self else self in
      let made : List (Signal V) = signal_of (make_block block) in
      let (sent, same) = deliver_one block self in
      publish_blocks-quiet blocks next
      ∙ ap (λ running. next.emitted ++ (if running then announced blocks else [])) same
      ∙ ap (λ old. old ++ (if self.running then announced blocks else [])) sent
      ∙ join_signals self.running made blocks self.emitted

  publish_format-quiet :
      (self : Stream V) (now : Stream V)
      → let next = publish_format quiet (snapshot self) now in
        (next.emitted ≡ now.emitted ++ format_signals self)
        × (next.running ≡ now.running)
        × (next.graph_rate ≡ now.graph_rate)
        × (next.graph_rate_revision ≡ now.graph_rate_revision)
  unfolding publish_format snapshot emit
  publish_format-quiet self now = ground (
    arith,
    append-nil now.emitted,
    append_assoc now.emitted (notify_rate ∷ []) (notify_channels ∷ []),
    append_assoc now.emitted (notify_rate ∷ notify_channels ∷ []) (notify_audio_format ∷ []),
  )

  publish_graph_rate-quiet :
      (self : Stream V) (now : Stream V)
      → now.graph_rate_revision ≡ self.graph_rate_revision
      → let next = publish_graph_rate quiet (snapshot self) now in
        (next.emitted ≡ now.emitted ++ rate_signals self now.running now.graph_rate)
        × (next.running ≡ now.running)
  unfolding publish_graph_rate snapshot emit
  publish_graph_rate-quiet self now h = ground (arith, append-nil now.emitted, h)

  publish_peak-quiet :
      (self : Stream V) (now : Stream V)
      → let next = publish_peak quiet (snapshot self) now in
        (next.emitted ≡ now.emitted ++ peak_signals self now.running) × (next.running ≡ now.running)
  unfolding publish_peak snapshot emit emit_peak
  publish_peak-quiet self now = ground (
    arith,
    append-nil now.emitted,
    append_assoc now.emitted (notify_peak ∷ []) (level self.pending_peak ∷ []),
  )

assoc4 : {A : Type 0} (a b c d e : List A) → a ++ b ++ c ++ d ++ e ≡ a ++ (b ++ c ++ d ++ e)
assoc4 a b c d e =
    ap (λ front. front ++ d ++ e) (append_assoc a b c)
    ∙ ap (λ front. front ++ e) (append_assoc a (b ++ c) d)
    ∙ append_assoc a (b ++ c ++ d) e

module _ {V : Type 0} (D : Double V) where
  dispatch_pending_phases :
      (self : Stream V)
      → dispatch_pending D quiet self
        ≡ publish_blocks quiet self.pending_blocks (
            publish_peak quiet (snapshot self) (
              publish_graph_rate quiet
                (snapshot self)
                (publish_format quiet (snapshot self) (take_pending D self))))
  unfolding dispatch_pending
  dispatch_pending_phases self = refl

  report_parts :
      (self : Stream V)
      → report self
        ≡ format_signals self
          ++ rate_signals self self.running self.graph_rate
          ++ peak_signals self self.running
          ++ block_signals self.pending_blocks self.running
  unfolding report
  report_parts self = refl

  -- A dispatch whose handlers do not call back sends exactly the signals that the stream owes for
  -- what is pending, in this order: the format, the graph rate, the peak, the blocks.
  pub dispatch_pending_report :
      (self : Stream V) → (dispatch_pending D quiet self).emitted ≡ self.emitted ++ report self
  unfolding take_pending snapshot
  dispatch_pending_report self =
      let taken = snapshot self in
      let start = take_pending D self in
      let formatted = publish_format quiet taken start in
      let rated = publish_graph_rate quiet taken formatted in
      let levelled = publish_peak quiet taken rated in
      let (f, fr, fg, fv) = publish_format-quiet self start in
      let (g, gr) = publish_graph_rate-quiet self formatted fv in
      let (p, pr) = publish_peak-quiet self rated in
      let b = publish_blocks-quiet self.pending_blocks levelled in
      let shown : List (Signal V) = rate_signals self self.running self.graph_rate in
      let heard : List (Signal V) = peak_signals self self.running in
      let blocks : List (Signal V) = block_signals self.pending_blocks self.running in
      let after_rate : rated.emitted ≡ (self.emitted ++ format_signals self) ++ shown =
        g
        ∙ ap (λ r. formatted.emitted ++ rate_signals self r formatted.graph_rate) fr
        ∙ ap (λ n. formatted.emitted ++ rate_signals self self.running n) fg
        ∙ ap (λ old. old ++ shown) f in
      let after_peak : levelled.emitted
          ≡ ((self.emitted ++ format_signals self) ++ shown) ++ heard =
        p
        ∙ ap (λ r. rated.emitted ++ peak_signals self r) (gr ∙ fr)
        ∙ ap (λ old. old ++ heard) after_rate in
      ap (λ s. s.emitted) (dispatch_pending_phases self)
      ∙ b
      ∙ ap (λ r. levelled.emitted ++ block_signals self.pending_blocks r) (pr ∙ gr ∙ fr)
      ∙ ap (λ old. old ++ blocks) after_peak
      ∙ assoc4 self.emitted (format_signals self) shown heard blocks
      ∙ ap (λ rest. self.emitted ++ rest) (sym (report_parts self))
