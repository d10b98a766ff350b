-- ===== src/Core/Sync.antt =====
-- src/pwg-core.c: PwgCoreSyncData, its callbacks, and pwg_core_sync_main_context_internal.
use pipewire_gobject.Prelude.{
  ℕ, ◌+◌, ◌-◌, String, Bool, true, false, not, ◌&&◌, ◌||◌, Option, none, some, List, [], ◌∷◌, ltb,
  ◌==◌, if◌then◌else◌,
}
use pipewire_gobject.Prelude.Int.{ℤ, pos, negsuc, is_negative, int_eq}
use pipewire_gobject.Error.{Outcome, ok, err, failed, pipewire}
use pipewire_gobject.Core.Connection.{Core, ConnectAnswers, connect}

-- PwgCoreSyncData. `main_context` says whether the pointer is not NULL, and `sources` counts the
-- idle sources that are attached to it with a pointer to this record.
pub record SyncData : Type 0 where
  pub main_context : Bool
  pub seq : ℤ
  pub done : Bool
  pub main_context_done : Bool
  pub error_result : ℤ
  pub error_message : Option String
  pub sources : ℕ

-- What PipeWire reports to the listener.
pub data CoreEvent : Type 0 where
  core_done : ℕ → ℤ → CoreEvent
  core_error : ℕ → ℤ → ℤ → Option String → CoreEvent

-- One return of pw_thread_loop_wait or of the timed wait: the events that came in before it, and
-- the result of the timed wait.
pub record Wake : Type 0 where
  pub events : List CoreEvent
  pub wait_result : ℤ

-- PipeWire's PW_ID_CORE, and errno's EIO.
abbrev pub id_core : ℕ
id_core = 0

abbrev pub minus_eio : ℤ
minus_eio = negsuc 4

-- pwg_core_sync_queue_main_context_done
unfoldable pub queue_main_context_done : SyncData → SyncData
queue_main_context_done info =
    if info.main_context then record info { sources = info.sources + 1 } else info

-- pwg_core_sync_on_done
unfoldable pub on_done : SyncData → ℕ → ℤ → SyncData
unfolding queue_main_context_done
on_done info id seq =
    if not (id == id_core) || not (int_eq seq info.seq)
    then info
    else queue_main_context_done (record info { done = true })

-- pwg_core_sync_on_error
unfoldable pub on_error : SyncData → ℕ → ℤ → ℤ → Option String → SyncData
on_error info id seq res message =
    if not (id == id_core) || not (int_eq seq info.seq) then info else record info {
      error_result = if is_negative res then res else minus_eio;
      error_message = message;
    }

unfoldable pub on_event : SyncData → CoreEvent → SyncData
unfolding on_done on_error
on_event info (core_done id seq) = on_done info id seq
on_event info (core_error id seq res message) = on_error info id seq res message

unfoldable pub on_events : SyncData → List CoreEvent → SyncData
unfolding on_event
on_events info [] = info
on_events info (event ∷ rest) = on_events (on_event info event) rest

-- The loop that waits for the answer, over the wakes to come, with the last result of the timed
-- wait. It does not return if no wake is left.
unfoldable pub wait : Bool → ℤ → SyncData → List Wake → Option (SyncData × ℤ)
unfolding on_events
wait timed result info [] =
    if info.done || not (int_eq info.error_result (pos 0)) then some (info, result) else none
wait timed result info (wake ∷ wakes) =
    let seen = on_events info wake.events in
    let later = wait timed (if timed then wake.wait_result else result) seen wakes in
    if info.done || not (int_eq info.error_result (pos 0))
    then some (info, result)
    else if timed && is_negative wake.wait_result
    then some (seen, wake.wait_result)
    else later

-- The loop of g_main_context_iteration: each attached source runs pwg_core_sync_on_main_context_done
-- once, and the loop goes on until one has. With no source it does not return.
unfoldable pub iterate_main_context : SyncData → Option SyncData
iterate_main_context info =
    if info.main_context && not info.main_context_done
    then if ltb 0 info.sources
      then some (record info { main_context_done = true; sources = info.sources - 1 })
      else none
    else some info

-- The result where the main context has been waited for.
abbrev pub succeed : Option SyncData → Option (Outcome (Unit {0}) × SyncData)
succeed none = none
succeed (some last) = some (ok tt, last)

-- What follows the waiting loop.
unfoldable pub conclude : SyncData → Option (Outcome (Unit {0}) × SyncData)
unfolding iterate_main_context
conclude info =
    if is_negative info.error_result
    then some (err pipewire, info)
    else if not info.done
    then some (err pipewire, info)
    else succeed (iterate_main_context info)

abbrev pub result_of : Option (Outcome (Unit {0}) × SyncData) → Option (Outcome (Unit {0}))
result_of none = none
result_of (some last) = some last.0

-- The result of the call, once the waiting loop has returned.
unfoldable pub told : Option (SyncData × ℤ) → Option (Outcome (Unit {0}))
unfolding conclude
told none = none
told (some (info, result)) = result_of (conclude info)

-- What PipeWire answers to the calls of the sync.
pub record SyncAnswers : Type 0 where
  pub in_thread : Bool
  pub get_time : ℤ
  pub add_listener : ℤ
  pub core_sync : ℤ

unfoldable pub sync_data : Bool → ℤ → SyncData
sync_data main_context seq = record {
  main_context = main_context;
  seq = seq;
  done = false;
  main_context_done = false;
  error_result = pos 0;
  error_message = none;
  sources = 0;
}

-- From the listener on.
unfoldable pub sync_request : SyncAnswers → Bool → ℕ → List Wake → Option (Outcome (Unit {0}))
unfolding sync_data wait told
sync_request answers main_context timeout wakes =
    if is_negative answers.add_listener
    then some (err pipewire)
    else if is_negative answers.core_sync
    then some (err pipewire)
    else told (wait (ltb 0 timeout) (pos 0) (sync_data main_context answers.core_sync) wakes)

unfoldable pub sync_connected :
    SyncAnswers → Outcome (Unit {0}) → Core → Bool → ℕ → List Wake → Option (Outcome (Unit {0}))
unfolding sync_request
sync_connected answers (err e) self main_context timeout wakes = some (err e)
sync_connected answers (ok u) self main_context timeout wakes =
    if not self.thread_loop || not self.core
    then some (err pipewire)
    else if answers.in_thread
    then some (err failed)
    else if ltb 0 timeout && is_negative answers.get_time
    then some (err pipewire)
    else sync_request answers main_context timeout wakes

-- pwg_core_sync_main_context_internal; the result is none if it does not return.
unfoldable pub sync :
    ConnectAnswers → SyncAnswers → Core → Bool → ℕ → List Wake → Option (Outcome (Unit {0})) × Core
unfolding connect sync_connected
sync connect_answers answers self main_context timeout wakes =
    let (connected, now) = connect connect_answers self in
    (sync_connected answers connected now main_context timeout wakes, now)
