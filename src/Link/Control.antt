-- ===== src/Link/Control.antt =====
-- src/pwg-link.c: start and sync of a link.
use pipewire_gobject.Prelude.{
  ℕ, ◌+◌, Bool, true, false, not, ◌||◌, Option, none, some, List, [], ◌∷◌, ltb, if◌then◌else◌,
}
use pipewire_gobject.Prelude.Int.{ℤ, is_negative}
use pipewire_gobject.Prelude.Word.{u32}
use pipewire_gobject.Error.{Outcome, ok, err, failed, pipewire}
use pipewire_gobject.Core.Connection.{Core, ConnectAnswers, connect}
use pipewire_gobject.Core.Sync.{SyncAnswers, Wake, sync}
use pipewire_gobject.Global.{Global, is_interface}
use pipewire_gobject.Link.State.{
  Link, LinkReport, Handlers, emit, notify_running, notify_bound, interface_link,
}
use pipewire_gobject.Link.Operations.{destroy_pipewire_objects, queue_event, drain}

-- What PipeWire answers to the calls of pwg_link_start.
pub record StartAnswers : Type 0 where
  pub registry_new : Bool
  pub bind : ℕ → ℕ → Bool
  pub add_listener : ℤ

-- pwg_link_start from the lock on; the version asked for is at most PW_VERSION_LINK, 3
abbrev version_link : ℕ
version_link = 3

unfoldable pub bind_version : ℕ → ℕ
bind_version version = if ltb version version_link then version else version_link

unfoldable pub bind_link : Handlers → StartAnswers → Link → Global → Outcome (Unit {0}) × Link
unfolding destroy_pipewire_objects emit bind_version
bind_link on answers self global =
    let listening = record self { registry = true; has_registry_listener = true } in
    if not answers.registry_new
    then (err pipewire, record self { registry = false })
    else if not (answers.bind global.id (bind_version global.version))
    then (err pipewire, destroy_pipewire_objects (record listening { link = false }))
    else if is_negative answers.add_listener
    then (err pipewire, destroy_pipewire_objects (record listening { link = true }))
    else (
      ok tt,
      emit on notify_bound (
          emit on notify_running (record listening {
            link = true;
            has_link_listener = true;
            generation = u32 (self.generation + 1);
            running = true;
            bound = true;
          })),
    )

unfoldable pub start_connected :
    Handlers → StartAnswers → Link → Global → Outcome (Unit {0}) → Core → Outcome (Unit {0}) × Link
unfolding bind_link
start_connected on answers self global (err e) core = (err e, record self { core = some core })
start_connected on answers self global (ok u) core =
    let ready = record self { core = some core } in
    if not core.thread_loop || not core.core
    then (err pipewire, ready)
    else bind_link on answers ready global

unfoldable pub start_global :
    Handlers
    → ConnectAnswers
    → StartAnswers
    → Link
    → Option Core
    → Option Global
    → Outcome (Unit {0}) × Link
unfolding start_connected connect is_interface
start_global on connect_answers answers self (some core) (some global) =
    if not (is_interface global interface_link)
    then (err failed, self)
    else start_connected on answers self global (connect connect_answers core).0
        (connect connect_answers core).1
start_global on connect_answers answers self _ _ = (err failed, self)

-- pwg_link_start
unfoldable pub start : Handlers → ConnectAnswers → StartAnswers → Link → Outcome (Unit {0}) × Link
unfolding start_global
start on connect_answers answers self =
    if self.running
    then (ok tt, self)
    else start_global on connect_answers answers self self.core self.global

-- The events that PipeWire brings while a sync waits, each with GLib's choice in
-- g_main_context_invoke_full: to dispatch it at once, or to attach it.
unfoldable pub receive : Handlers → Link → List (Bool × LinkReport) → Link
unfolding queue_event
receive on self [] = self
receive on self ((direct, report) ∷ reports) =
    receive on (queue_event on direct self report) reports

-- The end of a sync: only a success has waited for the main context.
unfoldable pub sync_ended :
    Handlers → Link → Option (Outcome (Unit {0})) → Option (Outcome (Unit {0})) × Link
unfolding drain
sync_ended on self none = (none, self)
sync_ended on self (some (err e)) = (some (err e), self)
sync_ended on self (some (ok u)) = (some (ok tt), drain on self)

-- pwg_link_sync of a link that runs. The confirmation is attached to the main context behind the
-- events that were attached before it, so these have run when the call returns with success.
unfoldable pub sync_running :
    Handlers
    → ConnectAnswers
    → SyncAnswers
    → ℕ
    → List Wake
    → List (Bool × LinkReport)
    → Link
    → Option Core
    → Option (Outcome (Unit {0})) × Link
unfolding sync receive sync_ended
sync_running on connect_answers answers timeout wakes reports self none = (some (err failed), self)
sync_running on connect_answers answers timeout wakes reports self (some core) =
    let synced = sync connect_answers answers core true timeout wakes in
    sync_ended on (receive on (record self { core = some synced.1 }) reports) synced.0

-- pwg_link_sync, with the outcome of the start
unfoldable pub sync_link :
    Handlers
    → ConnectAnswers
    → StartAnswers
    → SyncAnswers
    → ℕ
    → List Wake
    → List (Bool × LinkReport)
    → Link
    → Option (Outcome (Unit {0})) × Link
unfolding start sync_running
sync_link on connect_answers start_answers answers timeout wakes reports self =
    let started = start on connect_answers start_answers self in
    elim started.0 [
      | err e ↦ (some (err e), started.1)
      | ok u ↦
          sync_running on connect_answers answers timeout wakes reports started.1 started.1.core
    ]
