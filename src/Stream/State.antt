-- ===== src/Stream/State.antt =====
-- src/pwg-stream.c: struct _PwgStream, PwgStreamPendingBlock, the signals, and pwg_stream_init.
use pipewire_gobject.Prelude.{ℕ, String, Bool, false, Option, none, some, List, [], ◌∷◌, ◌++◌}
use pipewire_gobject.Double.{Double}
use pipewire_gobject.Audio.{AudioFormat, AudioBlock}

-- PwgStreamPendingBlock; `bytes` is the field `data`
pub record PendingBlock (V : Type 0) : Type 0 where
  pub bytes : List ℕ
  pub sample_format : Option String
  pub rate : ℕ
  pub channels : ℕ
  pub bytes_per_sample : ℕ
  pub n_frames : ℕ
  pub sequence : ℕ  -- uint64_t
  pub peak : V

-- What g_object_notify_by_pspec and g_signal_emit report to the application.
pub data Signal (V : Type 0) : Type 0 where
  notify_running notify_rate notify_channels notify_audio_format : Signal V
  notify_graph_rate notify_peak notify_deliver_audio_blocks : Signal V
  level : V → Signal V
  audio_block : AudioBlock V → Signal V

-- struct spa_audio_info_raw, as far as the stream reads it
pub record AudioInfoRaw : Type 0 where
  pub format : ℕ
  pub rate : ℕ
  pub channels : ℕ

-- struct _PwgStream. A PipeWire object is the Bool that says whether its pointer is not NULL.
-- `sources` counts the dispatch sources that are attached to `main_context`, and `emitted` lists
-- the signals so far, oldest first.
pub record Stream (V : Type 0) : Type 0 where
  pub target_object : Option String
  pub monitor : Bool
  pub pipewire_properties : List (String × String)
  pub requested_sample_format : Option String
  pub requested_rate : ℕ
  pub requested_channels : ℕ
  pub deliver_audio_blocks : Bool
  pub running : Bool
  pub graph_rate : ℕ
  pub observed_graph_rate : ℕ
  pub pending_graph_rate : ℕ
  pub has_pending_graph_rate : Bool
  pub graph_rate_revision : ℕ  -- uint64_t
  pub rate : ℕ
  pub channels : ℕ
  pub peak : V
  pub audio_format : Option AudioFormat
  pub media_type : ℕ
  pub media_subtype : ℕ
  pub raw : AudioInfoRaw
  pub thread_loop : Bool
  pub context : Bool
  pub core : Bool
  pub stream : Bool
  pub dispatch_pending : Bool
  pub has_pending_peak : Bool
  pub pending_peak : V
  pub has_pending_format : Bool
  pub pending_sample_format : Option String
  pub pending_rate : ℕ
  pub pending_channels : ℕ
  pub pending_bytes_per_sample : ℕ
  pub pending_blocks : List (PendingBlock V)
  pub next_sequence : ℕ  -- uint64_t
  pub sources : ℕ
  pub emitted : List (Signal V)

-- The handlers that an application has connected: what they leave of the stream when a signal
-- reaches them. They run inside the emission and may call any function of the stream.
abbrev pub Handlers : Type 0 → Type 0
Handlers V = Signal V → Stream V → Stream V

-- No handler is connected, or none that calls back into the stream.
abbrev pub quiet : {V : Type 0} → Handlers V
quiet sig s = s

unfoldable pub emit : {V : Type 0} → Handlers V → Signal V → Stream V → Stream V
emit on sig self = on sig (record self { emitted = self.emitted ++ sig ∷ [] })

abbrev pub max_pending_blocks : ℕ
max_pending_blocks = 64

-- pwg_stream_init and pwg_stream_new_audio_capture; GObject zeroes the rest of the instance
unfoldable pub stream_new_audio_capture : {V : Type 0} → Double V → Option String → Bool → Stream V
stream_new_audio_capture D target_object monitor = record {
  target_object = target_object;
  monitor = monitor;
  pipewire_properties = [];
  requested_sample_format = some "F32";
  requested_rate = 48000;
  requested_channels = 2;
  deliver_audio_blocks = false;
  running = false;
  graph_rate = 0;
  observed_graph_rate = 0;
  pending_graph_rate = 0;
  has_pending_graph_rate = false;
  graph_rate_revision = 0;
  rate = 0;
  channels = 0;
  peak = D.zero_val;
  audio_format = none;
  media_type = 0;
  media_subtype = 0;
  raw = record { format = 0; rate = 0; channels = 0 };
  thread_loop = false;
  context = false;
  core = false;
  stream = false;
  dispatch_pending = false;
  has_pending_peak = false;
  pending_peak = D.zero_val;
  has_pending_format = false;
  pending_sample_format = none;
  pending_rate = 0;
  pending_channels = 0;
  pending_bytes_per_sample = 0;
  pending_blocks = [];
  next_sequence = 0;
  sources = 0;
  emitted = [];
}
