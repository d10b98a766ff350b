-- ===== src/Stream/Control.antt =====
-- src/pwg-stream.c: the functions that an application calls. PipeWire's answers are arguments.
use pipewire_gobject.Prelude.{
  ℕ, ◌+◌, String, Bool, true, false, not, ◌&&◌, ◌||◌, Option, none, some, List, [], ◌∷◌, ◌++◌, ◌==◌,
  str_eq, strcmp0_eq, if◌then◌else◌,
}
use pipewire_gobject.Prelude.Int.{ℤ, is_negative}
use pipewire_gobject.Prelude.Word.{u64}
use pipewire_gobject.Properties.{replace, remove, is_empty}
use pipewire_gobject.Double.{Double}
use pipewire_gobject.Error.{Outcome, ok, err, failed, no_memory, pipewire}
use pipewire_gobject.Stream.State.{
  Stream, Handlers, emit, notify_running, notify_graph_rate, notify_deliver_audio_blocks,
}

-- The formats that pwg_stream_sample_format_from_name can give: SPA_AUDIO_FORMAT_F32 alone.
pub data SampleFormat : Type 0 where
  f32 : SampleFormat

-- pwg_stream_sample_format_from_name
unfoldable pub sample_format_from_name : Option String → Outcome SampleFormat
sample_format_from_name sample_format =
    if is_empty sample_format
    then err failed
    else if strcmp0_eq sample_format (some "F32")
    then ok f32
    else err failed

-- pwg_stream_validate_requested_format
unfoldable pub validate_requested_format : Option String → ℕ → ℕ → Outcome SampleFormat
unfolding sample_format_from_name
validate_requested_format sample_format rate channels =
    elim (sample_format_from_name sample_format) [
      | err e ↦ err e
      | ok format ↦
          if rate == 0
          then err failed
          else if not (channels == 1) && not (channels == 2)
          then err failed
          else ok format
    ]

-- The keys of PipeWire that start writes.
pub record Keys : Type 0 where
  pub media_type : String
  pub media_category : String
  pub media_role : String
  pub media_name : String
  pub target_object : String
  pub stream_capture_sink : String

-- What PipeWire answers to the calls of pwg_stream_start: whether a pointer is not NULL, or the
-- result.
pub record Answers : Type 0 where
  pub thread_loop_new : Bool
  pub context_new : Bool
  pub context_connect : Bool
  pub properties_new : Bool
  pub stream_new : List (String × String) → Bool
  pub stream_connect : ℤ
  pub thread_loop_start : ℤ

target_property : Keys → Option String → List (String × String)
target_property keys none = []
target_property keys (some name) = if str_eq name "" then [] else (keys.target_object, name) ∷ []

-- The table after a valid change: a NULL value takes the key out.
unfoldable pub updated_properties :
    String → Option String → List (String × String) → List (String × String)
updated_properties key none table = remove key table
updated_properties key (some value) table = replace key value table

module _ {V : Type 0} where
  -- The pw_properties_set calls of pwg_stream_start, in order: a later one of a key wins.
  unfoldable pub start_properties : Keys → Stream V → List (String × String)
  unfolding target_property
  start_properties keys self =
      (keys.media_type, "Audio")
      ∷ (keys.media_category, if self.monitor then "Monitor" else "Capture")
      ∷ (keys.media_role, if self.monitor then "DSP" else "Music")
      ∷ (keys.media_name, if self.monitor then "Pwg monitor stream" else "Pwg audio stream")
      ∷ (target_property keys self.target_object
          ++ ((if self.monitor then (keys.stream_capture_sink, "true") ∷ [] else [])
              ++ self.pipewire_properties))

  -- pwg_stream_set_requested_format
  unfoldable pub set_requested_format :
      Stream V → Option String → ℕ → ℕ → Outcome (Unit {0}) × Stream V
  unfolding validate_requested_format
  set_requested_format self sample_format rate channels =
      if self.running
      then (err failed, self)
      else elim (validate_requested_format sample_format rate channels) [
        | err e ↦ (err e, self)
        | ok format ↦ (
          ok tt,
          record self {
            requested_sample_format = some "F32";
            requested_rate = rate;
            requested_channels = channels;
          },
        )
      ]

  -- pwg_stream_set_pipewire_property
  unfoldable pub set_pipewire_property :
      Stream V → Option String → Option String → Outcome (Unit {0}) × Stream V
  unfolding updated_properties
  set_pipewire_property self none value = (err failed, self)
  set_pipewire_property self (some key) value =
      if str_eq key "" then (err failed, self) else if self.running then (err failed, self) else (
        ok tt,
        record self { pipewire_properties = updated_properties key value self.pipewire_properties },
      )

  -- pwg_stream_set_deliver_audio_blocks
  unfoldable pub set_deliver_audio_blocks : Handlers V → Stream V → Bool → Stream V
  unfolding emit
  set_deliver_audio_blocks on self true =
      if self.deliver_audio_blocks
      then self
      else emit on notify_deliver_audio_blocks (record self { deliver_audio_blocks = true })
  set_deliver_audio_blocks on self false =
      if self.deliver_audio_blocks
      then emit on notify_deliver_audio_blocks (record self { deliver_audio_blocks = false })
      else self

  -- pwg_stream_stop: the graph rate goes back to 0, with a notification if it was not
  unfoldable pub reset_graph_rate : Handlers V → Stream V → Stream V
  unfolding emit
  reset_graph_rate on self =
      if self.graph_rate == 0
      then self
      else emit on notify_graph_rate (record self { graph_rate = 0 })

module _ {V : Type 0} (D : Double V) where
  -- pwg_stream_stop up to the first notification: the PipeWire objects that there are go away,
  -- then what is pending.
  unfoldable pub stop_session : Stream V → Stream V
  stop_session self = record self {
    running = false;
    stream = false;
    core = false;
    context = false;
    thread_loop = false;
    has_pending_peak = false;
    has_pending_graph_rate = false;
    observed_graph_rate = 0;
    graph_rate_revision = u64 (self.graph_rate_revision + 1);
    pending_peak = D.zero_val;
    has_pending_format = false;
    pending_sample_format = none;
    pending_blocks = [];
  }

  -- pwg_stream_stop
  unfoldable pub stop : Handlers V → Stream V → Stream V
  unfolding stop_session reset_graph_rate emit
  stop on self =
      let stopped = reset_graph_rate on (stop_session self) in
      if self.running then emit on notify_running stopped else stopped

  -- pwg_stream_start from pw_thread_loop_new on: each later failure stops the stream.
  unfoldable pub start_session :
      Handlers V → Keys → Answers → Stream V → Outcome (Unit {0}) × Stream V
  unfolding start_properties stop emit
  start_session on keys answers self =
      let looping = record self { thread_loop = true } in
      let connecting = record looping { context = true } in
      let connected = record connecting { core = true } in
      let streaming = record connected { stream = true } in
      if not answers.thread_loop_new
      then (err pipewire, record self { thread_loop = false })
      else if not answers.context_new
      then (err pipewire, stop on (record looping { context = false }))
      else if not answers.context_connect
      then (err pipewire, stop on (record connecting { core = false }))
      else if not answers.properties_new
      then (err no_memory, stop on connected)
      else if not (answers.stream_new (start_properties keys connected))
      then (err pipewire, stop on (record connected { stream = false }))
      else if is_negative answers.stream_connect || is_negative answers.thread_loop_start
      then (err pipewire, stop on streaming)
      else (ok tt, emit on notify_running (record streaming { running = true }))

  -- pwg_stream_start
  unfoldable pub start : Handlers V → Keys → Answers → Stream V → Outcome (Unit {0}) × Stream V
  unfolding validate_requested_format start_session
  start on keys answers self =
      if self.running
      then (ok tt, self)
      else elim (validate_requested_format self.requested_sample_format self.requested_rate
          self.requested_channels) [
            | err e ↦ (err e, self)
            | ok format ↦ start_session on keys answers self
          ]
