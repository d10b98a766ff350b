-- ===== src/Stream/History.antt =====
-- What holds of a stream over every history of operations.
use pipewire_gobject.Prelude.{◌≡◌, Bool, true, String, Option, List, [], ◌∷◌, arith, ltb, if-cases}
use pipewire_gobject.Double.{Double}
use pipewire_gobject.Stream.State.{Stream, Handlers, stream_new_audio_capture}
use pipewire_gobject.Stream.Process.{Spa}
use pipewire_gobject.Stream.Control.{Keys}
use pipewire_gobject.Stream.Machine.{
  Operation, process, param_changed, dispatch, request_format, set_property, deliver_blocks,
  start_stream, stop_stream, step, run,
}
use pipewire_gobject.Stream.Invariant.{IsWellFormed, Respect, dispatch_pending-IsWellFormed}
use pipewire_gobject.Stream.Callbacks.{on_process-IsWellFormed, on_param_changed-IsWellFormed}
use pipewire_gobject.Stream.Calls.{
  set_requested_format-IsWellFormed, set_pipewire_property-IsWellFormed,
  set_deliver_audio_blocks-IsWellFormed, stop-IsWellFormed, start-IsWellFormed,
}

attached-pending :
    {V : Type 0} (self : Stream V)
    → IsWellFormed self
    → ltb 0 self.sources ≡ true
    → self.dispatch_pending ≡ true
attached-pending self w e = ground arith

module _ {V Pod : Type 0} (D : Double V) (spa : Spa Pod) (keys : Keys) (on : Handlers V)
    (respect : Respect IsWellFormed on) where
  step-IsWellFormed :
      (self : Stream V) (operation : Operation Pod)
      → IsWellFormed self
      → IsWellFormed (step D spa keys on self operation)
  unfolding step
  step-IsWellFormed self (process cycle) w = on_process-IsWellFormed D spa self cycle w
  step-IsWellFormed self (param_changed id param) w =
      on_param_changed-IsWellFormed spa self id param w
  step-IsWellFormed self dispatch w =
      if-cases (IsWellFormed {V = V}) (ltb 0 self.sources)
        (λ e. dispatch_pending-IsWellFormed respect D self (attached-pending self w e) w) (λ _. w)
  step-IsWellFormed self (request_format f rate channels) w =
      set_requested_format-IsWellFormed on respect self f rate channels w
  step-IsWellFormed self (set_property key value) w =
      set_pipewire_property-IsWellFormed on respect self key value w
  step-IsWellFormed self (deliver_blocks deliver) w =
      set_deliver_audio_blocks-IsWellFormed on respect self deliver w
  step-IsWellFormed self (start_stream answers) w =
      start-IsWellFormed D on respect keys answers self w
  step-IsWellFormed self stop_stream w = stop-IsWellFormed D on respect self w

  run-IsWellFormed :
      (self : Stream V) (history : List (Operation Pod))
      → IsWellFormed self
      → IsWellFormed (run D spa keys on self history)
  unfolding run
  run-IsWellFormed self [] w = w
  run-IsWellFormed self (operation ∷ rest) w =
      run-IsWellFormed (step D spa keys on self operation) rest (step-IsWellFormed self operation w)

  -- A new stream is well formed, and stays so through every history of calls, callbacks and
  -- dispatches, whatever PipeWire answers, if the handlers keep it so: at most 64 blocks wait, at
  -- most one dispatch source is attached, nothing waits without one, and a stream that does not
  -- run has the graph rate 0.
  pub history-IsWellFormed :
      (target_object : Option String) (monitor : Bool) (history : List (Operation Pod))
      → IsWellFormed (run D spa keys on (stream_new_audio_capture D target_object monitor) history)
  history-IsWellFormed target_object monitor history =
      run-IsWellFormed (stream_new_audio_capture D target_object monitor) history
        (unfold stream_new_audio_capture in ground arith)
