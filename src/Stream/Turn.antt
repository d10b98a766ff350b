-- ===== src/Stream/Turn.antt =====
-- What a turn of the main context leaves pending: nothing.
use pipewire_gobject.Prelude.{
  ◌≡◌, ◌≢◌, refl, sym, ◌∙◌, Bool, true, false, String, Option, List, [], ◌∷◌, ◌++◌, append-nil,
  arith, ltb, ◌==◌, not, ◌&&◌, Option-cases, inl, inr, if-both, if-cases,
}
use pipewire_gobject.Double.{Double}
use pipewire_gobject.Stream.State.{Stream, PendingBlock, quiet, emit, stream_new_audio_capture}
use pipewire_gobject.Stream.Dispatch.{
  Snapshot, snapshot, take_pending, make_block, emit_peak, emit_audio_block, publish_format,
  publish_graph_rate, publish_peak, publish_blocks, dispatch_pending,
}
use pipewire_gobject.Stream.Delivery.{announced, report, dispatch_pending_report}
use pipewire_gobject.Stream.Process.{Spa}
use pipewire_gobject.Stream.Control.{Keys}
use pipewire_gobject.Stream.Machine.{Operation, dispatch, step, run}
use pipewire_gobject.Stream.Invariant.{IsWellFormed, Respect}
use pipewire_gobject.Stream.History.{history-IsWellFormed}

unset : (flag wakes : Bool) → (flag ≡ true → wakes ≡ true) → wakes ≡ false → flag ≡ false
unset true wakes h off = sym (h refl) ∙ off
unset false wakes h off = refl

no_elements :
    {A : Type 0} (xs : List A) (wakes : Bool) → (xs ≢ [] → wakes ≡ true) → wakes ≡ false → xs ≡ []
no_elements [] wakes h off = refl
no_elements (x ∷ xs) wakes h off = absurd (ground (arith, sym (h (λ e. ground (arith, e))) ∙ off))

module _ {V : Type 0} where
  -- Nothing is pending, and no source is attached.
  pub record IsIdle (self : Stream V) : Type 0 where
    pub no_source : self.sources ≡ 0
    pub no_dispatch : self.dispatch_pending ≡ false
    pub no_format : self.has_pending_format ≡ false
    pub no_rate : self.has_pending_graph_rate ≡ false
    pub no_peak : self.has_pending_peak ≡ false
    pub no_blocks : self.pending_blocks ≡ []

  publish_format-IsIdle :
      (taken : Snapshot V) (self : Stream V)
      → IsIdle self
      → IsIdle (publish_format quiet taken self)
  unfolding publish_format emit
  publish_format-IsIdle taken self w = if-both IsIdle taken.has_format (ground (arith, w)) w

  publish_graph_rate-IsIdle :
      (taken : Snapshot V) (self : Stream V)
      → IsIdle self
      → IsIdle (publish_graph_rate quiet taken self)
  unfolding publish_graph_rate emit
  publish_graph_rate-IsIdle taken self w =
      if-both IsIdle
        (taken.has_graph_rate
          && self.running
          && taken.graph_rate_revision == self.graph_rate_revision
          && not (self.graph_rate == taken.graph_rate))
        (ground (arith, w)) w

  publish_peak-IsIdle :
      (taken : Snapshot V) (self : Stream V) → IsIdle self → IsIdle (publish_peak quiet taken self)
  unfolding publish_peak emit_peak emit
  publish_peak-IsIdle taken self w =
      if-both IsIdle (taken.has_peak && self.running) (ground (arith, w)) w

  emit_audio_block-IsIdle :
      (block : PendingBlock V) (self : Stream V)
      → IsIdle self
      → IsIdle (emit_audio_block quiet block self)
  unfolding emit_audio_block
  emit_audio_block-IsIdle block self w = elim (Option-cases (make_block block)) [
    | inl e ↦ rw (e, emit_audio_block) w
    | inr (b, e) ↦ rw (e, emit_audio_block, emit) (ground (arith, w))
  ]

  publish_blocks-IsIdle :
      (blocks : List (PendingBlock V)) (self : Stream V)
      → IsIdle self
      → IsIdle (publish_blocks quiet blocks self)
  unfolding publish_blocks
  publish_blocks-IsIdle [] self w = w
  publish_blocks-IsIdle (block ∷ blocks) self w =
      publish_blocks-IsIdle blocks _
        (if-both IsIdle self.running (emit_audio_block-IsIdle block self w) w)

  -- A stream that has nothing pending owes no signal.
  report-IsIdle : (self : Stream V) → IsIdle self → report self ≡ []
  unfolding report announced
  report-IsIdle self w = ground (arith, w.no_format, w.no_rate, w.no_peak, w.no_blocks)

  no_source-IsIdle :
      (self : Stream V) → IsWellFormed self → ltb 0 self.sources ≡ false → IsIdle self
  no_source-IsIdle self w e =
      let off : self.dispatch_pending ≡ false = ground (arith, e, w.scheduled) in
      record {
        no_source = ground (arith, e);
        no_dispatch = off;
        no_format = unset self.has_pending_format self.dispatch_pending w.format_wakes off;
        no_rate = unset self.has_pending_graph_rate self.dispatch_pending w.rate_wakes off;
        no_peak = unset self.has_pending_peak self.dispatch_pending w.peak_wakes off;
        no_blocks = no_elements self.pending_blocks self.dispatch_pending w.blocks_wake off;
      }

module _ {V : Type 0} (D : Double V) where
  take_pending-IsIdle : (self : Stream V) → IsWellFormed self → IsIdle (take_pending D self)
  unfolding take_pending
  take_pending-IsIdle self w = ground (arith, w.scheduled)

  dispatch_pending-IsIdle :
      (self : Stream V) → IsWellFormed self → IsIdle (dispatch_pending D quiet self)
  unfolding dispatch_pending
  dispatch_pending-IsIdle self w = publish_blocks-IsIdle (snapshot self).blocks _ (
      publish_peak-IsIdle (snapshot self) _ (
        publish_graph_rate-IsIdle (snapshot self) _
          (publish_format-IsIdle (snapshot self) _ (take_pending-IsIdle self w))))

quiet-Respect : {V : Type 0} → Respect (IsWellFormed {V = V}) quiet
quiet-Respect = record { at = λ sig self w. w }

module _ {V Pod : Type 0} (D : Double V) (spa : Spa Pod) (keys : Keys) where
  turn_reports :
      (self : Stream V)
      → IsWellFormed self
      → let after = step D spa keys quiet self dispatch in
        (after.emitted ≡ self.emitted ++ report self) × IsIdle after
  unfolding step
  turn_reports self w =
      if-cases (λ (after : Stream V). (after.emitted ≡ self.emitted ++ report self) × IsIdle after)
        (ltb 0 self.sources)
        (λ _. (dispatch_pending_report D self, dispatch_pending-IsIdle D self w))
        (λ e.
          let idle = no_source-IsIdle self w e in
          (sym (append-nil self.emitted) ∙ rw (report-IsIdle self idle) refl, idle))

  -- Where no handler calls back: after every history of calls, callbacks and turns of the main
  -- context of a new stream, whatever PipeWire answers, the next turn of the main context sends
  -- all signals that the stream owes for what is pending, and leaves nothing pending and no source
  -- attached.
  pub next_turn_reports :
      (target_object : Option String) (monitor : Bool) (history : List (Operation Pod))
      → let before =
          run D spa keys quiet (stream_new_audio_capture D target_object monitor) history in
        let after = step D spa keys quiet before dispatch in
        (after.emitted ≡ before.emitted ++ report before) × IsIdle after
  next_turn_reports target_object monitor history =
      turn_reports (run D spa keys quiet (stream_new_audio_capture D target_object monitor) history)
        (history-IsWellFormed D spa keys quiet quiet-Respect target_object monitor history)
