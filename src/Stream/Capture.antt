-- ===== src/Stream/Capture.antt =====
-- The way of captured audio from PipeWire's buffers to the application: what a run of buffers
-- leaves pending, and what one dispatch then delivers.
use pipewire_gobject.Prelude.{
  ℕ, ◌+◌, ◌≡◌, refl, sym, ap, ◌∙◌, true, false, some, List, [], ◌∷◌, ◌++◌, append-nil, append_assoc,
  All, arith, take_last, if◌then◌else◌,
}
use pipewire_gobject.Prelude.Word.{u64}
use pipewire_gobject.Double.{Double, max}
use pipewire_gobject.Stream.State.{
  Stream, PendingBlock, quiet, max_pending_blocks, notify_peak, level,
}
use pipewire_gobject.Stream.Queue.{drop_oldest}
use pipewire_gobject.Stream.Dispatch.{dispatch_pending}
use pipewire_gobject.Stream.Process.{handle_f32_audio}
use pipewire_gobject.Stream.Backlog.{drop_oldest-eq-take_last, drop_oldest-append}
use pipewire_gobject.Stream.Delivery.{announced, report, dispatch_pending_report}
use pipewire_gobject.Stream.Buffer.{IsWhole, loudness, block_for, Same, handle-Took}

module _ {V : Type 0} (D : Double V) (rate : ℕ) (channels : ℕ) where
  -- The blocks that carry a run of buffers, numbered from `sequence`.
  abbrev pub captured : ℕ → List (List ℕ) → List (PendingBlock V)
  captured sequence [] = []
  captured sequence (bytes ∷ buffers) =
      block_for D rate channels sequence bytes ∷ captured (u64 (sequence + 1)) buffers

  -- The loudest of a run of buffers.
  abbrev pub loudest : V → List (List ℕ) → V
  loudest peak [] = peak
  loudest peak (bytes ∷ buffers) = loudest (max D peak (loudness D rate channels bytes)) buffers

  -- The callback runs once for each buffer.
  abbrev pub capture : Stream V → List (List ℕ) → Stream V
  capture self [] = self
  capture self (bytes ∷ buffers) =
      capture (handle_f32_audio D self (some bytes) rate channels) buffers

  -- What a run of buffers leaves, behind a first one.
  abbrev pub Gathered : Stream V → List (PendingBlock V) → List (List ℕ) → Stream V → Type 0
  Gathered self waiting buffers next =
      Same D rate channels self next
      × (next.has_pending_peak ≡ true)
      × (next.pending_peak ≡ loudest self.pending_peak buffers)
      × (next.pending_blocks ≡ drop_oldest (waiting ++ captured self.next_sequence buffers))

  capture-Gathered :
      (self : Stream V) (waiting : List (PendingBlock V)) (buffers : List (List ℕ))
      → All (IsWhole channels) buffers
      → self.deliver_audio_blocks ≡ true
      → self.has_pending_peak ≡ true
      → self.pending_blocks ≡ drop_oldest waiting
      → Gathered self waiting buffers (capture self buffers)
  capture-Gathered self waiting [] all on p w =
      ((refl, refl, refl, refl, refl), p, refl, w ∙ ap drop_oldest (sym (append-nil waiting)))
  capture-Gathered self waiting (bytes ∷ buffers) all on p w =
      let next = handle_f32_audio D self (some bytes) rate channels in
      let block = block_for D rate channels self.next_sequence bytes in
      let ((t0, t1, t2, t3, t4), t5, t6, t7, t8) =
        handle-Took D rate channels self bytes all.0 on in
      let louder : next.pending_peak ≡ max D self.pending_peak (loudness D rate channels bytes) =
        t6
        ∙ ap
            (λ b.
              if b
              then max D self.pending_peak (loudness D rate channels bytes)
              else loudness D rate channels bytes)
            p in
      let more : next.pending_blocks ≡ drop_oldest (waiting ++ block ∷ []) =
        t7
        ∙ ap (λ old. drop_oldest (old ++ block ∷ [])) w
        ∙ drop_oldest-append waiting (block ∷ []) in
      let ((r0, r1, r2, r3, r4), r5, r6, r7) =
        capture-Gathered next (waiting ++ block ∷ []) buffers all.1 (t0 ∙ on) t5 more in
      (
        (r0 ∙ t0, r1 ∙ t1, r2 ∙ t2, r3 ∙ t3, r4 ∙ t4),
        r5,
        r6 ∙ ap (λ peak. loudest peak buffers) louder,
        r7
            ∙ ap (λ n. drop_oldest (waiting ++ block ∷ [] ++ captured n buffers)) t8
            ∙ ap drop_oldest (
                append_assoc waiting (block ∷ [])
                  (captured (u64 (self.next_sequence + 1)) buffers)),
      )

  report_running :
      (self : Stream V)
      → self.running ≡ true
      → self.has_pending_format ≡ false
      → self.has_pending_graph_rate ≡ false
      → self.has_pending_peak ≡ true
      → report self ≡ notify_peak ∷ level self.pending_peak ∷ announced self.pending_blocks
  unfolding report
  report_running self r f g p = ground (arith, r, f, g, p)

  -- From a running stream that delivers blocks and has nothing pending: after callbacks with at
  -- least one buffer, each of a whole frame or more, one dispatch sends the peak notification, the
  -- level, which is the loudest peak of all the buffers, and the blocks of the newest 64 buffers,
  -- oldest first, numbered in the order of the callbacks. Nothing is sent twice or out of order.
  pub capture_delivers :
      (self : Stream V) (first : List ℕ) (buffers : List (List ℕ))
      → All (IsWhole channels) (first ∷ buffers)
      → self.deliver_audio_blocks ≡ true
      → self.running ≡ true
      → self.has_pending_format ≡ false
      → self.has_pending_graph_rate ≡ false
      → self.has_pending_peak ≡ false
      → self.pending_blocks ≡ []
      → (dispatch_pending D quiet (capture self (first ∷ buffers))).emitted
        ≡ self.emitted
          ++ notify_peak
            ∷ level (loudest (loudness D rate channels first) buffers)
            ∷ announced
                (take_last max_pending_blocks (captured self.next_sequence (first ∷ buffers)))
  capture_delivers self first buffers all on running f g p b =
      let next = handle_f32_audio D self (some first) rate channels in
      let block = block_for D rate channels self.next_sequence first in
      let ((t0, t1, t2, t3, t4), t5, t6, t7, t8) =
        handle-Took D rate channels self first all.0 on in
      let waiting : next.pending_blocks ≡ drop_oldest (block ∷ []) =
        t7 ∙ ap (λ old. drop_oldest (old ++ block ∷ [])) b in
      let peak : next.pending_peak ≡ loudness D rate channels first =
        t6
        ∙ ap
            (λ c.
              if c
              then max D self.pending_peak (loudness D rate channels first)
              else loudness D rate channels first)
            p in
      let last : Stream V = capture next buffers in
      let ((r0, r1, r2, r3, r4), r5, r6, r7) =
        capture-Gathered next (block ∷ []) buffers all.1 (t0 ∙ on) t5 waiting in
      let blocks : last.pending_blocks
          ≡ take_last max_pending_blocks (captured self.next_sequence (first ∷ buffers)) =
        r7
        ∙ ap (λ n. drop_oldest (block ∷ captured n buffers)) t8
        ∙ drop_oldest-eq-take_last (captured self.next_sequence (first ∷ buffers)) in
      dispatch_pending_report D last
      ∙ ap (λ rest. last.emitted ++ rest)
          (report_running last (r1 ∙ t1 ∙ running) (r2 ∙ t2 ∙ f) (r3 ∙ t3 ∙ g) r5)
      ∙ ap (λ old. old ++ notify_peak ∷ level last.pending_peak ∷ announced last.pending_blocks)
          (r4 ∙ t4)
      ∙ ap (λ v. self.emitted ++ notify_peak ∷ level v ∷ announced last.pending_blocks)
          (r6 ∙ ap (λ v. loudest v buffers) peak)
      ∙ ap
          (λ bs.
            self.emitted
            ++ notify_peak
              ∷ level (loudest (loudness D rate channels first) buffers)
              ∷ announced bs)
          blocks
