-- ===== src/Core/Witnesses.antt =====
-- The theorems on the core at concrete answers of PipeWire.
use pipewire_gobject.Prelude.{◌≡◌, ◌<◌, refl, true, false, none, some, List, [], ◌∷◌, ltb}
use pipewire_gobject.Prelude.Int.{pos, negsuc}
use pipewire_gobject.Error.{err, pipewire}
use pipewire_gobject.Core.Connection.{ConnectAnswers, core_new, connect}
use pipewire_gobject.Core.Lifecycle.{
  Operation, connecting, disconnecting, setting, run, IsSound, history-IsSound,
}
use pipewire_gobject.Core.Connecting.{Connects, connect-Connects}
use pipewire_gobject.Core.Sync.{
  CoreEvent, core_done, core_error, Wake, SyncAnswers, sync_request, sync_data, on_events, conclude,
}
use pipewire_gobject.Core.Waiting.{verdict}
use pipewire_gobject.Core.Verdict.{sync_request-eq-verdict, refused_leaves_source}

abbrev refusing : ConnectAnswers
refusing = record {
  thread_loop_new = true;
  context_new = true;
  properties_new = true;
  properties_set = λ key value. pos 0;
  context_connect = λ table. true;
  thread_loop_start = negsuc 11;
}

abbrev accepting : ConnectAnswers
accepting = record refusing { thread_loop_start = pos 0 }

connect-Connects_example : Connects core_new (connect refusing core_new)
unfolding core_new
connect-Connects_example =
    connect-Connects refusing core_new refl
      (record { thread_loop_there = refl; context_there = refl; core_there = refl })

abbrev life : List Operation
life =
    setting (some "remote.name") (some "pipewire-0")
    ∷ connecting refusing
    ∷ connecting accepting
    ∷ disconnecting
    ∷ []

history-IsSound_example : IsSound (run core_new life)
history-IsSound_example = history-IsSound life

abbrev answers : SyncAnswers
answers = record { in_thread = false; get_time = pos 0; add_listener = pos 0; core_sync = pos 7 }

abbrev wakes : List Wake
wakes =
    record { events = core_done 0 (pos 6) ∷ []; wait_result = pos 0 }
    ∷ record { events = core_done 0 (pos 7) ∷ []; wait_result = pos 0 }
    ∷ []

sync_request-eq-verdict_example :
    sync_request answers true 100 wakes ≡ verdict (ltb 0 100) (pos 7) wakes
sync_request-eq-verdict_example = sync_request-eq-verdict answers true 100 wakes refl refl

abbrev both : List CoreEvent
both = core_done 0 (pos 7) ∷ core_error 0 (pos 7) (negsuc 1) none ∷ []

refused_leaves_source_example :
    (conclude (on_events (sync_data true (pos 7)) both)
      ≡ some (err pipewire, on_events (sync_data true (pos 7)) both))
    × (0 < (on_events (sync_data true (pos 7)) both).sources)
refused_leaves_source_example = refused_leaves_source (pos 7) both refl refl
