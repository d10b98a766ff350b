-- ===== src/Stream/Queue.antt =====
-- src/pwg-stream.c: the pwg_stream_queue_* functions, by which the PipeWire thread leaves work for
-- the main context. Each is one critical section of `dispatch_lock`.
use pipewire_gobject.Prelude.{
  ℕ, ◌+◌, String, true, Option, none, some, List, [], ◌∷◌, ◌++◌, length, ltb, ◌==◌, if◌then◌else◌,
}
use pipewire_gobject.Prelude.Word.{u64}
use pipewire_gobject.Double.{Double, max}
use pipewire_gobject.Stream.State.{Stream, PendingBlock, max_pending_blocks}

-- `while (g_queue_get_length (...) > PWG_STREAM_MAX_PENDING_BLOCKS)` pop the head
unfoldable pub drop_oldest : {V : Type 0} → List (PendingBlock V) → List (PendingBlock V)
drop_oldest [] = []
drop_oldest (block ∷ rest) =
    let dropped = drop_oldest rest in
    if ltb max_pending_blocks (length (block ∷ rest)) then dropped else block ∷ rest

module _ {V : Type 0} where
  -- pwg_stream_queue_dispatch_locked
  unfoldable pub queue_dispatch_locked : Stream V → Stream V
  queue_dispatch_locked self =
      if self.dispatch_pending
      then self
      else record self { dispatch_pending = true; sources = self.sources + 1 }

  -- pwg_stream_queue_graph_rate
  unfoldable pub queue_graph_rate : Stream V → ℕ → Stream V
  unfolding queue_dispatch_locked
  queue_graph_rate self rate =
      if self.observed_graph_rate == rate
      then self
      else queue_dispatch_locked (record self {
        observed_graph_rate = rate;
        graph_rate_revision = u64 (self.graph_rate_revision + 1);
        pending_graph_rate = rate;
        has_pending_graph_rate = true;
      })

  -- pwg_stream_queue_format
  unfoldable pub queue_format : Stream V → Option String → ℕ → ℕ → ℕ → Stream V
  unfolding queue_dispatch_locked
  queue_format self sample_format rate channels bytes_per_sample =
      queue_dispatch_locked (record self {
        pending_sample_format = sample_format;
        pending_rate = rate;
        pending_channels = channels;
        pending_bytes_per_sample = bytes_per_sample;
        has_pending_format = true;
      })

  -- pwg_stream_queue_audio_block; the size is that of the bytes, and none are NULL or empty data
  unfoldable pub queue_audio_block :
      Stream V → Option (List ℕ) → Option String → ℕ → ℕ → ℕ → ℕ → V → Stream V
  unfolding queue_dispatch_locked
  queue_audio_block self none sample_format rate channels bytes_per_sample n_frames peak = self
  queue_audio_block self (some []) sample_format rate channels bytes_per_sample n_frames peak = self
  queue_audio_block self (some (byte ∷ bytes)) sample_format rate channels bytes_per_sample n_frames
        peak =
      queue_dispatch_locked (record self {
        next_sequence = u64 (self.next_sequence + 1);
        pending_blocks = drop_oldest (
            self.pending_blocks
            ++ record {
              bytes = byte ∷ bytes;
              sample_format = sample_format;
              rate = rate;
              channels = channels;
              bytes_per_sample = bytes_per_sample;
              n_frames = n_frames;
              sequence = self.next_sequence;
              peak = peak;
            }
              ∷ []);
      })

module _ {V : Type 0} (D : Double V) where
  -- pwg_stream_queue_peak
  unfoldable pub queue_peak : Stream V → V → Stream V
  unfolding queue_dispatch_locked
  queue_peak self peak = queue_dispatch_locked (record self {
    pending_peak = if self.has_pending_peak then max D self.pending_peak peak else peak;
    has_pending_peak = true;
  })
