-- ===== src/Stream/Calls.antt =====
-- The calls of an application keep a stream well formed, as src/pwg-stream.c makes them.
use pipewire_gobject.Prelude.{
  ℕ, Bool, true, false, String, Option, none, some, arith, not, ◌||◌, if-both,
}
use pipewire_gobject.Prelude.Int.{is_negative}
use pipewire_gobject.Error.{Outcome}
use pipewire_gobject.Double.{Double}
use pipewire_gobject.Stream.State.{
  Stream, Handlers, notify_running, notify_graph_rate, notify_deliver_audio_blocks,
}
use pipewire_gobject.Stream.Control.{
  Keys, Answers, start, stop, stop_session, set_requested_format, set_pipewire_property,
  set_deliver_audio_blocks, start_properties, start_session, reset_graph_rate,
}
use pipewire_gobject.Stream.Invariant.{IsWellFormed, Respect, emit-IsWellFormed}

module _ {V : Type 0} (on : Handlers V) (respect : Respect IsWellFormed on) where
  pub set_requested_format-IsWellFormed :
      (self : Stream V) (f : Option String) (rate channels : ℕ)
      → IsWellFormed self
      → IsWellFormed (set_requested_format self f rate channels).1
  unfolding set_requested_format
  set_requested_format-IsWellFormed self f rate channels w = ground arith

  pub set_pipewire_property-IsWellFormed :
      (self : Stream V) (key value : Option String)
      → IsWellFormed self
      → IsWellFormed (set_pipewire_property self key value).1
  unfolding set_pipewire_property
  set_pipewire_property-IsWellFormed self none value w = w
  set_pipewire_property-IsWellFormed self (some key) value w = ground arith

  pub set_deliver_audio_blocks-IsWellFormed :
      (self : Stream V) (deliver : Bool)
      → IsWellFormed self
      → IsWellFormed (set_deliver_audio_blocks on self deliver)
  unfolding set_deliver_audio_blocks
  set_deliver_audio_blocks-IsWellFormed self true w = ground (
    arith,
    emit-IsWellFormed respect notify_deliver_audio_blocks
        (record self { deliver_audio_blocks = true }),
  )
  set_deliver_audio_blocks-IsWellFormed self false w = ground (
    arith,
    emit-IsWellFormed respect notify_deliver_audio_blocks
        (record self { deliver_audio_blocks = false }),
  )

module _ {V : Type 0} (D : Double V) (on : Handlers V) (respect : Respect IsWellFormed on) where
  -- Between `stop_session` and `reset_graph_rate` a graph rate may stand without a run.
  reset_graph_rate-IsWellFormed :
      (self : Stream V)
      → IsWellFormed self
      → IsWellFormed (reset_graph_rate on (stop_session D self))
  unfolding stop_session reset_graph_rate
  reset_graph_rate-IsWellFormed self w = ground (
    arith,
    emit-IsWellFormed respect notify_graph_rate (record (stop_session D self) { graph_rate = 0 }),
  )

  pub stop-IsWellFormed : (self : Stream V) → IsWellFormed self → IsWellFormed (stop D on self)
  unfolding stop
  stop-IsWellFormed self w = ground (
    arith,
    reset_graph_rate-IsWellFormed self w,
    emit-IsWellFormed respect notify_running (reset_graph_rate on (stop_session D self)),
  )

  -- The pointers to PipeWire's objects play no part.
  handles-IsWellFormed :
      {thread_loop context core stream : Bool} (self : Stream V)
      → IsWellFormed self
      → IsWellFormed (record self {
        thread_loop = thread_loop;
        context = context;
        core = core;
        stream = stream;
      })
  handles-IsWellFormed self w = ground arith

  start_session-IsWellFormed :
      (keys : Keys) (answers : Answers) (self : Stream V)
      → IsWellFormed self
      → IsWellFormed (start_session D on keys answers self).1
  unfolding start_session
  start_session-IsWellFormed keys answers self w =
      let looping = record self { thread_loop = true } in
      let connected = record looping { context = true; core = true } in
      let streaming = record connected { stream = true } in
      let P : Outcome (Unit {0}) × Stream V → Type 0 = λ r. IsWellFormed r.1 in
      if-both P (not answers.thread_loop_new) (handles-IsWellFormed self w) (
        if-both P (not answers.context_new)
          (stop-IsWellFormed (record looping { context = false }) (handles-IsWellFormed self w))
          (if-both P (not answers.context_connect)
            (stop-IsWellFormed (record looping { context = true; core = false })
              (handles-IsWellFormed self w))
            (if-both P (not answers.properties_new)
              (stop-IsWellFormed connected (handles-IsWellFormed self w))
              (if-both P (not (answers.stream_new (start_properties keys connected)))
                (stop-IsWellFormed (record connected { stream = false })
                  (handles-IsWellFormed self w))
                (if-both P
                  (is_negative answers.stream_connect || is_negative answers.thread_loop_start)
                  (stop-IsWellFormed streaming (handles-IsWellFormed self w))
                  (emit-IsWellFormed respect notify_running (record streaming { running = true })
                    (ground arith)))))))

  pub start-IsWellFormed :
      (keys : Keys) (answers : Answers) (self : Stream V)
      → IsWellFormed self
      → IsWellFormed (start D on keys answers self).1
  unfolding start
  start-IsWellFormed keys answers self w =
      ground (arith, start_session-IsWellFormed keys answers self w)
