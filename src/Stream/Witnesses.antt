-- ===== src/Stream/Witnesses.antt =====
-- The theorems on the stream at concrete streams and buffers.
use pipewire_gobject.Prelude.{
  ◌==◌, ℕ, ◌≡◌, ◌⊎◌, ◌<◌, ◌≤◌, ◌+◌, refl, true, false, none, some, List, [], ◌∷◌, ◌++◌, take_last,
  arith, All,
}
use pipewire_gobject.Prelude.Int.{pos, negsuc}
use pipewire_gobject.Stream.State.{
  Stream, stream_new_audio_capture, max_pending_blocks, notify_peak, level, quiet,
}
use pipewire_gobject.Stream.Queue.{queue_graph_rate}
use pipewire_gobject.Stream.Dispatch.{dispatch_pending, snapshot, take_pending, publish_graph_rate}
use pipewire_gobject.Stream.Process.{Cycle, Chunk, peak_of, process_chunk, handle_f32_audio}
use pipewire_gobject.Stream.Control.{start}
use pipewire_gobject.Stream.Examples.{
  Sample, nan, number, sample_double, sample_ordered, spa, keys, accepting, refusing, fresh,
  delivering, one_frame, two_frames,
}
use pipewire_gobject.Stream.Buffer.{loudness}
use pipewire_gobject.Stream.Capture.{capture, captured, loudest, capture_delivers}
use pipewire_gobject.Stream.Delivery.{announced, report, dispatch_pending_report}
use pipewire_gobject.Stream.Frames.{Refused, At, process_chunk_in_bounds}
use pipewire_gobject.Stream.Peak.{peak_bounds, nan_resets_peak}
use pipewire_gobject.Stream.Machine.{
  Operation, process, param_changed, dispatch, deliver_blocks, start_stream, stop_stream, step, run,
}
use pipewire_gobject.Stream.Invariant.{IsWellFormed, Respect}
use pipewire_gobject.Stream.History.{history-IsWellFormed}
use pipewire_gobject.Stream.Turn.{IsIdle, next_turn_reports}
use pipewire_gobject.Stream.GraphRate.{new_config, graph_rate_settles, stale_dispatch}
use pipewire_gobject.Stream.RateSteps.{
  Config, Step, Reach, here, next, observe, begin, publish, launch,
}
use pipewire_gobject.Stream.Starting.{Started, start-Started}

abbrev one_block : List (List ℕ)
one_block = two_frames ∷ []

capture_delivers_example :
    (dispatch_pending sample_double quiet
      (capture sample_double 48000 2 delivering (one_frame ∷ two_frames ∷ []))).emitted
    ≡ []
      ++ notify_peak
        ∷ level (loudest sample_double 48000 2 (loudness sample_double 48000 2 one_frame) one_block)
        ∷ announced (
            take_last max_pending_blocks
              (captured sample_double 48000 2 0 (one_frame ∷ two_frames ∷ [])))
capture_delivers_example =
    capture_delivers sample_double 48000 2 delivering one_frame one_block
      ((omega arith, omega arith, omega arith), ((omega arith, omega arith, omega arith), tt)) refl
      refl refl refl refl refl

dispatch_pending_report_example :
    (dispatch_pending sample_double quiet
      (record delivering { has_pending_format = true; pending_rate = 48000 })).emitted
    ≡ [] ++ report (record delivering { has_pending_format = true; pending_rate = 48000 })
dispatch_pending_report_example =
    dispatch_pending_report sample_double
      (record delivering { has_pending_format = true; pending_rate = 48000 })

abbrev inner : Chunk
inner = record { offset = 8; size = 8 }

process_chunk_in_bounds_example :
    (Refused sample_double spa delivering 16 inner
      × (process_chunk sample_double spa delivering two_frames 16 inner ≡ delivering))
    ⊎ (((delivering.raw.format == spa.audio_format_f32) ≡ true)
        × (0 < delivering.raw.channels)
        × (8 + 8 ≤ 16)
        × ((view : List ℕ) × At sample_double spa two_frames inner view
            × (process_chunk sample_double spa delivering two_frames 16 inner
                ≡ handle_f32_audio sample_double delivering (some view) 48000 2)))
process_chunk_in_bounds_example =
    process_chunk_in_bounds sample_double spa delivering two_frames 16 inner (omega arith)

abbrev levels : List Sample
levels = number (pos 3) ∷ number (negsuc 8) ∷ number (pos 4) ∷ []

abbrev level_peak : Sample
level_peak = peak_of sample_double (number (pos 0)) levels

peak_bounds_example :
    (sample_double.gt (number (pos 0)) level_peak ≡ false)
    × All (λ x. sample_double.gt (sample_double.fabs x) level_peak ≡ false) levels
peak_bounds_example = peak_bounds sample_double sample_ordered levels (tt, (tt, (tt, tt)))

nan_resets_peak_example :
    peak_of sample_double (number (pos 0)) (levels ++ nan ∷ number (pos 1) ∷ [])
    ≡ peak_of sample_double (number (pos 1)) []
nan_resets_peak_example =
    nan_resets_peak sample_double (number (pos 0)) nan (number (pos 1)) levels [] not_above
      (λ a. refl)
  where
    not_above : (a : Sample) → sample_double.gt a nan ≡ false
    not_above nan = refl
    not_above (number a) = refl

start-Started_example :
    Started sample_double quiet fresh (start sample_double quiet keys refusing fresh)
start-Started_example = start-Started sample_double quiet keys refusing fresh refl

-- A start, an observation, and a dispatch up to the graph rate.
abbrev created : Stream Sample
created = stream_new_audio_capture sample_double none false

abbrev started : Stream Sample
started = (start sample_double quiet keys accepting created).1

abbrev observed : Stream Sample
observed = queue_graph_rate started 44100

abbrev taking : Config Sample
taking = record { stream = take_pending sample_double observed; active = snapshot observed ∷ [] }

abbrev published : Config Sample
published = record {
  stream = publish_graph_rate quiet (snapshot observed) taking.stream;
  active = [];
}

Reach-taking : Reach sample_double (new_config sample_double none false) taking
unfolding start stream_new_audio_capture queue_graph_rate
Reach-taking =
    let up : Config Sample = record { stream = started; active = [] } in
    let heard : Config Sample = record { stream = observed; active = [] } in
    let first : Step sample_double (new_config sample_double none false) up =
      launch keys accepting (omega arith) refl refl in
    let second : Step sample_double up heard = observe 44100 refl (omega arith) refl refl in
    let third : Step sample_double heard taking = begin refl refl in
    next (next (next here first) second) third

Reach-published : Reach sample_double (new_config sample_double none false) published
Reach-published = next Reach-taking (publish (snapshot observed) refl refl)

graph_rate_settles_example :
    (published.stream.graph_rate ≡ published.stream.observed_graph_rate)
    × (published.stream.running ≡ false → published.stream.graph_rate ≡ 0)
unfolding start stream_new_audio_capture queue_graph_rate publish_graph_rate take_pending snapshot
graph_rate_settles_example = graph_rate_settles sample_double none false Reach-published refl refl

stale_dispatch_example :
    let after = publish_graph_rate quiet (snapshot observed) taking.stream in
    (((snapshot observed).graph_rate_revision < taking.stream.graph_rate_revision)
      × (after ≡ taking.stream))
    ⊎ (((snapshot observed).graph_rate_revision ≡ taking.stream.graph_rate_revision)
        × (after.graph_rate ≡ taking.stream.observed_graph_rate))
unfolding start stream_new_audio_capture queue_graph_rate take_pending snapshot
stale_dispatch_example =
    stale_dispatch sample_double none false Reach-taking (snapshot observed) [] refl refl

-- A life of a stream: started, run over by buffers, dispatched and stopped.
abbrev cycle : Cycle
cycle = record {
  time = some (1, 48000);
  buffer = some (some (record { bytes = some two_frames; maxsize = 16; chunk = some inner } ∷ []));
}

abbrev life : List (Operation ℕ)
life =
    deliver_blocks true
    ∷ start_stream accepting
    ∷ param_changed 4 (some 283)
    ∷ process cycle
    ∷ dispatch
    ∷ process cycle
    ∷ stop_stream
    ∷ dispatch
    ∷ []

quiet-Respect : Respect IsWellFormed (quiet {V = Sample})
quiet-Respect = record { at = λ sig self w. w }

history-IsWellFormed_example :
    IsWellFormed
      (run sample_double spa keys quiet (stream_new_audio_capture sample_double none true) life)
history-IsWellFormed_example =
    history-IsWellFormed sample_double spa keys quiet quiet-Respect none true life

-- The same, up to a callback that the main context has not come to.
abbrev interrupted : List (Operation ℕ)
interrupted =
    deliver_blocks true
    ∷ start_stream accepting
    ∷ param_changed 4 (some 283)
    ∷ process cycle
    ∷ process cycle
    ∷ []

next_turn_reports_example :
    let before =
      run sample_double spa keys quiet
        (stream_new_audio_capture sample_double none true)
        interrupted in
    let after = step sample_double spa keys quiet before dispatch in
    (after.emitted ≡ before.emitted ++ report before) × IsIdle after
next_turn_reports_example = next_turn_reports sample_double spa keys none true interrupted
