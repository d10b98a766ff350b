-- ===== src/Metadata/Control.antt =====
-- src/pwg-metadata.c: start, sync, stop, set and clear, and what the loss of the core does.
use pipewire_gobject.Prelude.{
  ℕ, ◌+◌, Bool, true, false, not, ◌&&◌, ◌||◌, Option, none, some, List, [], ◌∷◌, if◌then◌else◌,
}
use pipewire_gobject.Prelude.Int.{ℤ, is_negative}
use pipewire_gobject.Prelude.Word.{u32}
use pipewire_gobject.Properties.{is_empty}
use pipewire_gobject.Error.{Outcome, ok, err, failed, pipewire}
use pipewire_gobject.Core.Connection.{Core, ConnectAnswers, connect}
use pipewire_gobject.Core.Sync.{SyncAnswers, Wake, sync}
use pipewire_gobject.Metadata.State.{Metadata, MetadataReport, Handlers, emit, notify_running}
use pipewire_gobject.Metadata.Operations.{
  has_thread_loop, set_unbound, set_stopped, destroy_bound_proxy, BindAnswers, queue_event,
  run_sources,
}

-- pwg_metadata_reset
unfoldable pub reset : Handlers → Metadata → Metadata
unfolding set_unbound set_stopped
reset on self =
    let ended = set_stopped on (
      set_unbound on (record self {
        registry = false;
        metadata = false;
        metadata_id = 0;
        has_registry_listener = false;
        has_metadata_listener = false;
        generation = u32 (self.generation + 1);
      })) in
    record ended { entries = [] }

-- pwg_metadata_on_core_connected_notify
unfoldable pub on_core_connected_notify : Handlers → Metadata → Core → Metadata
unfolding reset
on_core_connected_notify on self core = if core.connected then self else reset on self

-- pwg_metadata_stop behind its guard; the registry and its listener go in both branches
unfoldable pub end_session : Handlers → Metadata → Metadata
unfolding destroy_bound_proxy set_stopped
end_session on self =
    let unbound = destroy_bound_proxy on self in
    let ended = set_stopped on (record unbound {
      registry = false;
      has_registry_listener = false;
      generation = u32 (unbound.generation + 1);
    }) in
    record ended { entries = [] }

-- pwg_metadata_stop
unfoldable pub stop : Handlers → Metadata → Metadata
unfolding end_session
stop on self =
    if not self.running && not self.registry && not self.metadata then self else end_session on self

-- pwg_metadata_start from the lock on; `registry_new` says whether pw_core_get_registry gives one
unfoldable pub listen : Handlers → Bool → Metadata → Outcome (Unit {0}) × Metadata
unfolding emit
listen on registry_new self =
    if not registry_new then (err pipewire, record self { registry = false }) else (
      ok tt,
      emit on notify_running (record self {
        registry = true;
        has_registry_listener = true;
        generation = u32 (self.generation + 1);
        running = true;
      }),
    )

unfoldable pub start_connected :
    Handlers → Bool → Metadata → Outcome (Unit {0}) → Core → Outcome (Unit {0}) × Metadata
unfolding listen
start_connected on registry_new self (err e) core = (err e, record self { core = some core })
start_connected on registry_new self (ok u) core =
    let ready = record self { core = some core } in
    if not core.thread_loop || not core.core
    then (err pipewire, ready)
    else listen on registry_new ready

unfoldable pub start_core :
    Handlers → ConnectAnswers → Bool → Metadata → Option Core → Outcome (Unit {0}) × Metadata
unfolding start_connected connect
start_core on answers registry_new self none = (err failed, self)
start_core on answers registry_new self (some core) =
    if is_empty self.name
    then (err failed, self)
    else start_connected on registry_new self (connect answers core).0 (connect answers core).1

-- pwg_metadata_start
unfoldable pub start : Handlers → ConnectAnswers → Bool → Metadata → Outcome (Unit {0}) × Metadata
unfolding start_core
start on answers registry_new self =
    if self.running then (ok tt, self) else start_core on answers registry_new self self.core

-- pwg_metadata_set; `set_result` is that of pw_metadata_set_property
unfoldable pub set : Metadata → ℤ → Outcome (Unit {0})
set self set_result =
    if not self.metadata
    then err failed
    else if not (has_thread_loop self.core)
    then err pipewire
    else if is_negative set_result
    then err pipewire
    else ok tt

-- pwg_metadata_clear; `clear_result` is that of pw_metadata_clear
unfoldable pub clear : Metadata → ℤ → Outcome (Unit {0}) × Metadata
clear self clear_result =
    if not self.metadata
    then (err failed, self)
    else if not (has_thread_loop self.core)
    then (err pipewire, self)
    else if is_negative clear_result
    then (err pipewire, self)
    else (ok tt, record self { entries = [] })

unfoldable pub drain : Handlers → BindAnswers → Metadata → Metadata
unfolding run_sources
drain on answers self = run_sources on answers (record self { queue = [] }) self.queue

-- The events that PipeWire brings while a sync waits, each with GLib's choice in
-- g_main_context_invoke_full: to dispatch it at once, or to attach it.
unfoldable pub receive : Handlers → BindAnswers → Metadata → List (Bool × MetadataReport) → Metadata
unfolding queue_event
receive on answers self [] = self
receive on answers self ((direct, report) ∷ reports) =
    receive on answers (queue_event on answers direct self report) reports

-- One round trip of a sync: the answers of PipeWire, and the events that come while it waits.
pub record Round : Type 0 where
  pub connect_answers : ConnectAnswers
  pub answers : SyncAnswers
  pub wakes : List Wake
  pub reports : List (Bool × MetadataReport)

-- The end of a round trip: only a success has waited for the main context.
unfoldable pub round_ended :
    Handlers
    → BindAnswers
    → Metadata
    → Option (Outcome (Unit {0}))
    → Option (Outcome (Unit {0})) × Metadata
unfolding drain
round_ended on answers self none = (none, self)
round_ended on answers self (some (err e)) = (some (err e), self)
round_ended on answers self (some (ok u)) = (some (ok tt), drain on answers self)

unfoldable pub round_trip :
    Handlers
    → BindAnswers
    → ℕ
    → Round
    → Metadata
    → Option Core
    → Option (Outcome (Unit {0})) × Metadata
unfolding sync receive round_ended
round_trip on answers timeout round self none = (some (err failed), self)
round_trip on answers timeout round self (some core) =
    let synced = sync round.connect_answers round.answers core true timeout round.wakes in
    round_ended on answers (receive on answers (record self { core = some synced.1 }) round.reports)
      synced.0

-- pwg_metadata_sync of an object that runs: a second round trip, if the first has bound the proxy,
-- brings the properties of it.
unfoldable pub sync_running :
    Handlers → BindAnswers → ℕ → Round → Round → Metadata → Option (Outcome (Unit {0})) × Metadata
unfolding round_trip
sync_running on answers timeout round second self =
    let first = round_trip on answers timeout round self self.core in
    elim first.0 [
      | none ↦ first
      | some (err e) ↦ first
      | some (ok u) ↦
          if not self.bound && first.1.bound
          then round_trip on answers timeout second first.1 first.1.core
          else first
    ]

-- pwg_metadata_sync
unfoldable pub sync_metadata :
    Handlers
    → ConnectAnswers
    → Bool
    → BindAnswers
    → ℕ
    → Round
    → Round
    → Metadata
    → Option (Outcome (Unit {0})) × Metadata
unfolding start sync_running
sync_metadata on connect_answers registry_new answers timeout round second self =
    let started = start on connect_answers registry_new self in
    elim started.0 [
      | err e ↦ (some (err e), started.1)
      | ok u ↦ sync_running on answers timeout round second started.1
    ]
