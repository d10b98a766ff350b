-- ===== src/Stream/Machine.antt =====
-- A stream as a machine: the calls of the application, the callbacks of PipeWire on its thread, and
-- the runs of the main context, in any order. Each is atomic up to the handlers that it runs.
use pipewire_gobject.Prelude.{ℕ, Bool, String, Option, List, [], ◌∷◌, ltb, if◌then◌else◌}
use pipewire_gobject.Double.{Double}
use pipewire_gobject.Stream.State.{Stream, Handlers}
use pipewire_gobject.Stream.Dispatch.{dispatch_pending}
use pipewire_gobject.Stream.Process.{Spa, Cycle, on_process, on_param_changed}
use pipewire_gobject.Stream.Control.{
  Keys, Answers, start, stop, set_requested_format, set_pipewire_property, set_deliver_audio_blocks,
}

pub data Operation (Pod : Type 0) : Type 0 where
  process : Cycle → Operation Pod
  param_changed : ℕ → Option Pod → Operation Pod
  dispatch : Operation Pod
  request_format : Option String → ℕ → ℕ → Operation Pod
  set_property : Option String → Option String → Operation Pod
  deliver_blocks : Bool → Operation Pod
  start_stream : Answers → Operation Pod
  stop_stream : Operation Pod

module _ {V Pod : Type 0} (D : Double V) (spa : Spa Pod) (keys : Keys) (on : Handlers V) where
  -- The main context runs a source only if one is attached.
  unfoldable pub step : Stream V → Operation Pod → Stream V
  unfolding on_process on_param_changed dispatch_pending set_requested_format set_pipewire_property
      set_deliver_audio_blocks start stop
  step self (process cycle) = (on_process D spa self cycle).0
  step self (param_changed id param) = on_param_changed spa self id param
  step self dispatch = if ltb 0 self.sources then dispatch_pending D on self else self
  step self (request_format sample_format rate channels) =
      (set_requested_format self sample_format rate channels).1
  step self (set_property key value) = (set_pipewire_property self key value).1
  step self (deliver_blocks deliver) = set_deliver_audio_blocks on self deliver
  step self (start_stream answers) = (start D on keys answers self).1
  step self stop_stream = stop D on self

  unfoldable pub run : Stream V → List (Operation Pod) → Stream V
  unfolding step
  run self [] = self
  run self (operation ∷ rest) = run (step self operation) rest
