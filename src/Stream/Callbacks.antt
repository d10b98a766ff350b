-- ===== src/Stream/Callbacks.antt =====
-- The callbacks of PipeWire keep a stream well formed.
use pipewire_gobject.Prelude.{
  ℕ, Option, none, some, List, [], ◌∷◌, arith, inl, inr, take, drop, length, ◌/◌, ◌*◌, Option-cases,
}
use pipewire_gobject.Prelude.Word.{u32}
use pipewire_gobject.Double.{Double}
use pipewire_gobject.Stream.State.{Stream}
use pipewire_gobject.Stream.Queue.{queue_peak}
use pipewire_gobject.Stream.Process.{
  Spa, Cycle, Chunk, SpaData, on_process, on_param_changed, process_chunk, process_data,
  process_buffer, handle_f32_audio, queue_f32, observe_clock, clock_rate, samples, peak_of,
}
use pipewire_gobject.Stream.Invariant.{
  IsWellFormed, queue_peak-IsWellFormed, queue_graph_rate-IsWellFormed,
  queue_audio_block-IsWellFormed,
}

module _ {V : Type 0} (D : Double V) where
  queue_f32-IsWellFormed :
      (self : Stream V) (bytes : List ℕ) (n_samples n_frames rate channels : ℕ) (peak : V)
      → IsWellFormed self
      → IsWellFormed (queue_f32 D self bytes n_samples n_frames rate channels peak)
  unfolding queue_f32
  queue_f32-IsWellFormed self bytes n_samples n_frames rate channels peak w = ground (
    arith,
    queue_peak-IsWellFormed D self peak w,
    queue_audio_block-IsWellFormed (queue_peak D self peak)
        (some (take (u32 (n_samples * 4)) bytes)) (some "F32") rate channels 4 n_frames peak,
  )

  handle_f32_audio-IsWellFormed :
      (self : Stream V) (bytes : Option (List ℕ)) (rate channels : ℕ)
      → IsWellFormed self
      → IsWellFormed (handle_f32_audio D self bytes rate channels)
  unfolding handle_f32_audio
  handle_f32_audio-IsWellFormed self none rate channels w = w
  handle_f32_audio-IsWellFormed self (some bytes) rate channels w = ground (
    arith,
    queue_f32-IsWellFormed self bytes (u32 (length bytes / 4)) (u32 (length bytes / 4) / channels)
        rate channels (peak_of D D.zero_val (samples D (take (u32 (length bytes / 4) * 4) bytes)))
        w,
  )

observe_clock-IsWellFormed :
    {V : Type 0} (self : Stream V) (time : Option (ℕ × ℕ))
    → IsWellFormed self
    → IsWellFormed (observe_clock self time)
unfolding observe_clock
observe_clock-IsWellFormed self none w = w
observe_clock-IsWellFormed self (some (num, denom)) w =
    queue_graph_rate-IsWellFormed self (clock_rate num denom) w

module _ {V Pod : Type 0} (D : Double V) (spa : Spa Pod) where
  process_chunk-IsWellFormed :
      (self : Stream V) (bytes : List ℕ) (maxsize : ℕ) (chunk : Chunk)
      → IsWellFormed self
      → IsWellFormed (process_chunk D spa self bytes maxsize chunk)
  unfolding process_chunk
  process_chunk-IsWellFormed self bytes maxsize chunk w = ground (
    arith,
    handle_f32_audio-IsWellFormed D self (some (take chunk.size (drop chunk.offset bytes)))
        self.raw.rate self.raw.channels w,
  )

  process_data-IsWellFormed :
      (self : Stream V) (bytes : Option (List ℕ)) (maxsize : ℕ) (chunk : Option Chunk)
      → IsWellFormed self
      → IsWellFormed (process_data D spa self bytes maxsize chunk)
  unfolding process_data
  process_data-IsWellFormed self (some bytes) maxsize (some chunk) w =
      process_chunk-IsWellFormed self bytes maxsize chunk w
  process_data-IsWellFormed self none maxsize chunk w = w
  process_data-IsWellFormed self (some bytes) maxsize none w = w

  process_buffer-IsWellFormed :
      (self : Stream V) (spa_buffer : Option (List SpaData))
      → IsWellFormed self
      → IsWellFormed (process_buffer D spa self spa_buffer)
  unfolding process_buffer
  process_buffer-IsWellFormed self none w = w
  process_buffer-IsWellFormed self (some []) w = w
  process_buffer-IsWellFormed self (some (spa_data ∷ _)) w =
      ground
        (arith, process_data-IsWellFormed self spa_data.bytes spa_data.maxsize spa_data.chunk w)

  pub on_process-IsWellFormed :
      (self : Stream V) (cycle : Cycle)
      → IsWellFormed self
      → IsWellFormed (on_process D spa self cycle).0
  unfolding on_process
  on_process-IsWellFormed self cycle w = elim (Option-cases cycle.buffer) [
    | inl e ↦ rw e (observe_clock-IsWellFormed self cycle.time w)
    | inr (b, e) ↦
        rw e (process_buffer-IsWellFormed _ b (observe_clock-IsWellFormed self cycle.time w))
  ]

module _ {V Pod : Type 0} (spa : Spa Pod) where
  pub on_param_changed-IsWellFormed :
      (self : Stream V) (id : ℕ) (param : Option Pod)
      → IsWellFormed self
      → IsWellFormed (on_param_changed spa self id param)
  unfolding on_param_changed
  on_param_changed-IsWellFormed self id none w = w
  on_param_changed-IsWellFormed self id (some param) w = ground arith
