-- ===== src/Stream/Dispatch.antt =====
-- src/pwg-stream.c: pwg_stream_dispatch_pending, by phases. Between two phases the handlers of the
-- application have run, and may have changed the stream.
use pipewire_gobject.Prelude.{
  ℕ, ◌-◌, String, Bool, false, not, ◌&&◌, Option, none, some, List, [], ◌∷◌, ◌==◌, if◌then◌else◌,
}
use pipewire_gobject.Double.{Double}
use pipewire_gobject.Audio.{AudioBlock, audio_format_new, audio_block_new}
use pipewire_gobject.Stream.State.{
  Stream, PendingBlock, Handlers, emit, notify_rate, notify_channels, notify_audio_format,
  notify_graph_rate, notify_peak, level, audio_block,
}

-- The `sample_format != NULL ? sample_format : "unknown"` of the dispatch.
abbrev pub or_unknown : Option String → Option String
or_unknown none = some "unknown"
or_unknown (some name) = some name

-- The local variables of the dispatch.
pub record Snapshot (V : Type 0) : Type 0 where
  pub has_peak : Bool
  pub has_format : Bool
  pub has_graph_rate : Bool
  pub graph_rate : ℕ
  pub graph_rate_revision : ℕ
  pub sample_format : Option String
  pub peak : V
  pub rate : ℕ
  pub channels : ℕ
  pub bytes_per_sample : ℕ
  pub blocks : List (PendingBlock V)

module _ {V : Type 0} where
  unfoldable pub snapshot : Stream V → Snapshot V
  snapshot self = record {
    has_peak = self.has_pending_peak;
    has_format = self.has_pending_format;
    has_graph_rate = self.has_pending_graph_rate;
    graph_rate = self.pending_graph_rate;
    graph_rate_revision = self.graph_rate_revision;
    sample_format = self.pending_sample_format;
    peak = self.pending_peak;
    rate = self.pending_rate;
    channels = self.pending_channels;
    bytes_per_sample = self.pending_bytes_per_sample;
    blocks = self.pending_blocks;
  }

  -- pwg_stream_emit_peak
  unfoldable pub emit_peak : Handlers V → V → Stream V → Stream V
  unfolding emit
  emit_peak on peak self = emit on (level peak) (emit on notify_peak (record self { peak = peak }))

  -- The block that pwg_stream_emit_audio_block makes of a pending one.
  unfoldable pub make_block : PendingBlock V → Option (AudioBlock V)
  unfolding audio_format_new audio_block_new
  make_block pending =
      audio_block_new
        (audio_format_new pending.sample_format pending.rate pending.channels
          pending.bytes_per_sample)
        pending.bytes pending.n_frames pending.sequence pending.peak

  -- pwg_stream_emit_audio_block
  unfoldable pub emit_audio_block : Handlers V → PendingBlock V → Stream V → Stream V
  unfolding emit make_block
  emit_audio_block on pending self = elim (make_block pending) [
    | none ↦ self
    | some block ↦ emit on (audio_block block) self
  ]

  -- The second critical section and the notification after it.
  unfoldable pub publish_graph_rate : Handlers V → Snapshot V → Stream V → Stream V
  unfolding emit
  publish_graph_rate on taken self =
      if taken.has_graph_rate
        && self.running
        && taken.graph_rate_revision == self.graph_rate_revision
        && not (self.graph_rate == taken.graph_rate)
      then emit on notify_graph_rate (record self { graph_rate = taken.graph_rate })
      else self

  unfoldable pub publish_format : Handlers V → Snapshot V → Stream V → Stream V
  unfolding emit audio_format_new
  publish_format on taken self =
      if taken.has_format
      then emit on notify_audio_format (
          emit on notify_channels (
            emit on notify_rate (record self {
              rate = taken.rate;
              channels = taken.channels;
              audio_format =
                  audio_format_new (or_unknown taken.sample_format) taken.rate taken.channels
                    taken.bytes_per_sample;
            })))
      else self

  unfoldable pub publish_peak : Handlers V → Snapshot V → Stream V → Stream V
  unfolding emit_peak
  publish_peak on taken self =
      if taken.has_peak && self.running then emit_peak on taken.peak self else self

  -- The loop over the blocks that were taken.
  unfoldable pub publish_blocks : Handlers V → List (PendingBlock V) → Stream V → Stream V
  unfolding emit_audio_block
  publish_blocks on [] self = self
  publish_blocks on (block ∷ blocks) self =
      publish_blocks on blocks (if self.running then emit_audio_block on block self else self)

module _ {V : Type 0} (D : Double V) where
  -- The first critical section. The source that runs is removed when the dispatch returns, and no
  -- other run of it can begin before, so it counts as removed here.
  unfoldable pub take_pending : Stream V → Stream V
  take_pending self = record self {
    has_pending_graph_rate = false;
    pending_sample_format = none;
    pending_blocks = [];
    dispatch_pending = false;
    has_pending_peak = false;
    pending_peak = D.zero_val;
    has_pending_format = false;
    sources = self.sources - 1;
  }

  -- pwg_stream_dispatch_pending
  unfoldable pub dispatch_pending : Handlers V → Stream V → Stream V
  unfolding snapshot take_pending publish_format publish_graph_rate publish_peak publish_blocks
  dispatch_pending on self =
      let taken = snapshot self in
      publish_blocks on taken.blocks (
        publish_peak on taken
          (publish_graph_rate on taken (publish_format on taken (take_pending self))))
