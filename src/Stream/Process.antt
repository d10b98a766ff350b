-- ===== src/Stream/Process.antt =====
-- src/pwg-stream.c: the callbacks that PipeWire calls on its own thread.
use pipewire_gobject.Prelude.{
  ℕ, ◌-◌, ◌*◌, ◌/◌, ◌%◌, String, not, ◌&&◌, ◌||◌, Option, none, some, List, [], ◌∷◌, length, take,
  drop, ltb, ◌==◌, if◌then◌else◌,
}
use pipewire_gobject.Prelude.Int.{ℤ, is_negative}
use pipewire_gobject.Prelude.Word.{u32}
use pipewire_gobject.Double.{Double, max}
use pipewire_gobject.Stream.State.{Stream, AudioInfoRaw}
use pipewire_gobject.Stream.Queue.{queue_peak, queue_audio_block, queue_graph_rate, queue_format}

-- The SPA identifiers that the code compares with, and SPA's parsers: the result, and what the
-- structure holds after the call.
pub record Spa (Pod : Type 0) : Type 0 where
  pub param_format : ℕ
  pub media_type_audio : ℕ
  pub media_subtype_raw : ℕ
  pub audio_format_f32 : ℕ
  pub format_parse : Pod → ℕ × ℕ → ℤ × ℕ × ℕ
  pub format_audio_raw_parse : Pod → AudioInfoRaw → AudioInfoRaw

-- struct spa_chunk, and the fields of struct spa_data that the callback reads
pub record Chunk : Type 0 where
  pub offset : ℕ  -- uint32_t
  pub size : ℕ  -- uint32_t

pub record SpaData : Type 0 where
  pub bytes : Option (List ℕ)  -- `data`
  pub maxsize : ℕ  -- uint32_t
  pub chunk : Option Chunk

-- What PipeWire answers in one call of `process`: the time, as numerator and denominator of the
-- rate, if pw_stream_get_time_n returns 0, and the buffer, if one is dequeued, with its `datas` if
-- its spa_buffer is not NULL.
pub record Cycle : Type 0 where
  pub time : Option (ℕ × ℕ)
  pub buffer : Option (Option (List SpaData))

-- The float samples in a buffer; what is left of the last one is not read.
unfoldable pub samples : {V : Type 0} → Double V → List ℕ → List V
samples D (a ∷ b ∷ c ∷ d ∷ rest) = D.of_bytes a b c d ∷ samples D rest
samples D _ = []

-- The expression for `graph_rate` in pwg_stream_on_process.
unfoldable pub clock_rate : ℕ → ℕ → ℕ
clock_rate num denom = if not (num == 0) && denom % num == 0 then denom / num else 0

module _ {V : Type 0} (D : Double V) where
  -- The loop `peak = MAX (peak, fabs (samples[n]))`.
  unfoldable pub peak_of : V → List V → V
  peak_of peak [] = peak
  peak_of peak (sample ∷ rest) = peak_of (max D peak (D.fabs sample)) rest

  -- The rest of pwg_stream_handle_f32_audio, once there is at least one whole frame.
  unfoldable pub queue_f32 : Stream V → List ℕ → ℕ → ℕ → ℕ → ℕ → V → Stream V
  unfolding queue_peak queue_audio_block
  queue_f32 self bytes n_samples n_frames rate channels peak =
      let levelled = queue_peak D self peak in
      if self.deliver_audio_blocks
      then queue_audio_block levelled (some (take (u32 (n_samples * 4)) bytes)) (some "F32") rate
          channels 4 n_frames peak
      else levelled

  -- pwg_stream_handle_f32_audio; `size` is the length of the data
  unfoldable pub handle_f32_audio : Stream V → Option (List ℕ) → ℕ → ℕ → Stream V
  unfolding queue_f32 peak_of samples
  handle_f32_audio self none rate channels = self
  handle_f32_audio self (some bytes) rate channels =
      let n_samples = u32 (length bytes / 4) in
      let n_frames = n_samples / channels in
      if ltb (length bytes) 4 || channels == 0
      then self
      else if n_frames == 0
      then self
      else queue_f32 self bytes n_samples n_frames rate channels
          (peak_of D.zero_val (samples D (take (n_samples * 4) bytes)))

module _ {V : Type 0} where
  -- The clock observation at the top of pwg_stream_on_process.
  unfoldable pub observe_clock : Stream V → Option (ℕ × ℕ) → Stream V
  unfolding clock_rate queue_graph_rate
  observe_clock self none = self
  observe_clock self (some (num, denom)) = queue_graph_rate self (clock_rate num denom)

module _ {Pod : Type 0} (spa : Spa Pod) where
  -- pwg_stream_sample_format_name
  unfoldable pub sample_format_name : ℕ → String
  sample_format_name format = if format == spa.audio_format_f32 then "F32" else "unknown"

  -- pwg_stream_sample_format_bytes_per_sample
  unfoldable pub sample_format_bytes_per_sample : ℕ → ℕ
  sample_format_bytes_per_sample format = if format == spa.audio_format_f32 then 4 else 0

module _ {V Pod : Type 0} (D : Double V) (spa : Spa Pod) where
  -- The part of pwg_stream_on_process behind the test that the data and the chunk are there.
  unfoldable pub process_chunk : Stream V → List ℕ → ℕ → Chunk → Stream V
  unfolding handle_f32_audio
  process_chunk self bytes maxsize chunk =
      if not (self.raw.format == spa.audio_format_f32)
      then self
      else if self.raw.channels == 0
      then self
      else if ltb maxsize chunk.offset || ltb (maxsize - chunk.offset) chunk.size
      then self
      else handle_f32_audio D self (some (take chunk.size (drop chunk.offset bytes))) self.raw.rate
          self.raw.channels

  unfoldable pub process_data : Stream V → Option (List ℕ) → ℕ → Option Chunk → Stream V
  unfolding process_chunk
  process_data self (some bytes) maxsize (some chunk) = process_chunk self bytes maxsize chunk
  process_data self _ maxsize _ = self

  unfoldable pub process_buffer : Stream V → Option (List SpaData) → Stream V
  unfolding process_data
  process_buffer self none = self
  process_buffer self (some []) = self
  process_buffer self (some (spa_data ∷ _)) =
      process_data self spa_data.bytes spa_data.maxsize spa_data.chunk

  -- pwg_stream_on_process, and how many buffers it gives back by pw_stream_queue_buffer
  unfoldable pub on_process : Stream V → Cycle → Stream V × ℕ
  unfolding observe_clock process_buffer
  on_process self cycle =
      let observed = observe_clock self cycle.time in
      elim cycle.buffer [
        | none ↦ (observed, 0)
        | some spa_buffer ↦ (process_buffer observed spa_buffer, 1)
      ]

module _ {V Pod : Type 0} (spa : Spa Pod) where
  parsed_format : Stream V → Pod → Stream V
  unfolding queue_format sample_format_name sample_format_bytes_per_sample
  parsed_format self param =
      let raw = spa.format_audio_raw_parse param self.raw in
      queue_format (record self { raw = raw }) (some (sample_format_name spa raw.format)) raw.rate
        raw.channels (sample_format_bytes_per_sample spa raw.format)

  -- pwg_stream_on_param_changed
  unfoldable pub on_param_changed : Stream V → ℕ → Option Pod → Stream V
  unfolding parsed_format
  on_param_changed self id none = self
  on_param_changed self id (some param) =
      if not (id == spa.param_format)
      then self
      else (let (result, media_type, media_subtype) =
            spa.format_parse param (self.media_type, self.media_subtype) in
          let stored = record self { media_type = media_type; media_subtype = media_subtype } in
          if is_negative result
          then stored
          else if not (media_type == spa.media_type_audio)
              || not (media_subtype == spa.media_subtype_raw)
          then stored
          else parsed_format stored param)
