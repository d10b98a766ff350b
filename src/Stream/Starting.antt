-- ===== src/Stream/Starting.antt =====
-- pwg_stream_start: what a failure leaves behind.
use pipewire_gobject.Prelude.{
  ◌≡◌, refl, true, false, ◌⊎◌, inl, inr, not, ◌||◌, arith, if-both, if-cases,
}
use pipewire_gobject.Prelude.Int.{is_negative}
use pipewire_gobject.Double.{Double}
use pipewire_gobject.Error.{Outcome, ok, err, PwgError, Outcome-cases, pipewire, no_memory}
use pipewire_gobject.Stream.State.{Stream, Handlers, emit, notify_running}
use pipewire_gobject.Stream.Control.{
  Keys, Answers, start, start_session, stop, start_properties, validate_requested_format,
}

module _ {V : Type 0} (D : Double V) (on : Handlers V) where
  -- What a start of a stream that does not run can come to.
  abbrev pub Started : Stream V → Outcome (Unit {0}) × Stream V → Type 0
  Started self r =
      ((r.0 ≡ ok tt)
        × (r.1
            ≡ emit on notify_running (record self {
              thread_loop = true;
              context = true;
              core = true;
              stream = true;
              running = true;
            })))
      ⊎ ((e : PwgError) × (r.0 ≡ err e)
          × ((r.1 ≡ record self { thread_loop = false }) ⊎ (r.1 ≡ self) ⊎ (r.1 ≡ stop D on self)))

  start_session-Started :
      (keys : Keys) (answers : Answers) (self : Stream V)
      → Started self (start_session D on keys answers self)
  unfolding start_session stop
  start_session-Started keys answers self =
      let looping = record self { thread_loop = true } in
      let connected = record looping { context = true; core = true } in
      let P = Started self in
      if-both P (not answers.thread_loop_new) (inr (pipewire, refl, inl refl)) (
        if-both P (not answers.context_new) (inr (pipewire, refl, inr (inr refl))) (
          if-both P (not answers.context_connect) (inr (pipewire, refl, inr (inr refl))) (
            if-both P (not answers.properties_new) (inr (no_memory, refl, inr (inr refl))) (
              if-both P (not (answers.stream_new (start_properties keys connected)))
                (inr (pipewire, refl, inr (inr refl)))
                (if-both P
                  (is_negative answers.stream_connect || is_negative answers.thread_loop_start)
                  (inr (pipewire, refl, inr (inr refl))) (inl (refl, refl)))))))

  -- A start of a stream that does not run either succeeds, with all four PipeWire objects there
  -- and the stream running, or it fails and leaves the stream as it was, but for the pointer to
  -- the thread loop, or as `stop` leaves it: no object of the attempt stays behind.
  pub start-Started :
      (keys : Keys) (answers : Answers) (self : Stream V)
      → self.running ≡ false
      → Started self (start D on keys answers self)
  unfolding start
  start-Started keys answers self h =
      if-cases (Started self) self.running (λ e. cc)
        (λ _.
          elim (Outcome-cases (
            validate_requested_format self.requested_sample_format self.requested_rate
              self.requested_channels)) [
                | inl (format, e) ↦ rw e (start_session-Started keys answers self)
                | inr (code, e) ↦ rw e (inr (code, refl, inr (inl refl)))
              ])

  -- A stream that runs is left alone.
  pub start_running :
      (keys : Keys) (answers : Answers) (self : Stream V)
      → self.running ≡ true
      → start D on keys answers self ≡ (ok tt, self)
  unfolding start
  start_running keys answers self h = ground arith
