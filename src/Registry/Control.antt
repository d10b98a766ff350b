-- ===== src/Registry/Control.antt =====
-- src/pwg-registry.c: start, stop, sync, and what the loss of the core does.
use pipewire_gobject.Prelude.{
  ℕ, ◌+◌, Bool, true, false, not, ◌&&◌, ◌||◌, Option, none, some, List, [], ◌∷◌, if◌then◌else◌,
}
use pipewire_gobject.Prelude.Word.{u32}
use pipewire_gobject.Error.{Outcome, ok, err, failed, pipewire}
use pipewire_gobject.Core.Connection.{Core, ConnectAnswers, connect, disconnect}
use pipewire_gobject.Core.Sync.{SyncAnswers, Wake, sync}
use pipewire_gobject.Registry.State.{Registry, Change, Handlers, emit, notify_running}
use pipewire_gobject.Registry.Dispatch.{drain, queue_event}

-- The end of pwg_registry_reset and of pwg_registry_stop: the registry stops running, and the list
-- is emptied after the notification.
unfoldable pub halt : Handlers → Registry → Registry
unfolding emit
halt on self =
    let halted =
      if self.running then emit on notify_running (record self { running = false }) else self in
    record halted { globals = [] }

-- pwg_registry_reset
unfoldable pub reset : Handlers → Registry → Registry
unfolding halt
reset on self = halt on (record self {
  registry = false;
  has_registry_listener = false;
  generation = u32 (self.generation + 1);
})

-- pwg_registry_on_core_connected_notify
unfoldable pub on_core_connected_notify : Handlers → Registry → Core → Registry
unfolding reset
on_core_connected_notify on self core = if core.connected then self else reset on self

-- pwg_core_disconnect on the core of the registry: a core that was connected notifies.
unfoldable pub lose_core : Handlers → Registry → Core → Registry
unfolding on_core_connected_notify disconnect
lose_core on self core =
    let lost = record self { core = some (disconnect core) } in
    if core.connected then on_core_connected_notify on lost (disconnect core) else lost

-- pwg_registry_start from the lock on; `registry_new` says whether pw_core_get_registry gives one
unfoldable pub listen : Handlers → Bool → Registry → Outcome (Unit {0}) × Registry
unfolding emit
listen on registry_new self =
    if not registry_new then (err pipewire, record self { registry = false }) else (
      ok tt,
      emit on notify_running (record self {
        registry = true;
        has_registry_listener = true;
        generation = u32 (self.generation + 1);
        running = true;
      }),
    )

-- pwg_registry_start with a core, behind the connection attempt. A connection that it makes
-- notifies with `connected` set, at which the registry does nothing.
unfoldable pub start_connected :
    Handlers → Bool → Registry → Outcome (Unit {0}) → Core → Outcome (Unit {0}) × Registry
unfolding listen
start_connected on registry_new self (err e) core = (err e, record self { core = some core })
start_connected on registry_new self (ok u) core =
    let ready = record self { core = some core } in
    if not core.thread_loop || not core.core
    then (err pipewire, ready)
    else listen on registry_new ready

unfoldable pub start_core :
    Handlers → ConnectAnswers → Bool → Registry → Option Core → Outcome (Unit {0}) × Registry
unfolding start_connected connect
start_core on answers registry_new self none = (err failed, self)
start_core on answers registry_new self (some core) =
    start_connected on registry_new self (connect answers core).0 (connect answers core).1

-- pwg_registry_start
unfoldable pub start : Handlers → ConnectAnswers → Bool → Registry → Outcome (Unit {0}) × Registry
unfolding start_core
start on answers registry_new self =
    if self.running then (ok tt, self) else start_core on answers registry_new self self.core

-- pwg_registry_stop: the proxy is destroyed only if the core still has a thread loop
abbrev pub has_thread_loop : Option Core → Bool
has_thread_loop none = false
has_thread_loop (some core) = core.thread_loop

unfoldable pub release : Registry → Registry
release self =
    if has_thread_loop self.core && self.registry
    then record self { has_registry_listener = false; registry = false }
    else self

-- pwg_registry_stop
unfoldable pub stop : Handlers → Registry → Registry
unfolding release halt
stop on self =
    let freed = release self in
    if not self.running && not self.registry
    then self
    else halt on (record freed { generation = u32 (freed.generation + 1) })

-- Changes that PipeWire brings and GLib attaches to the main context.
unfoldable pub receive : Handlers → Registry → List Change → Registry
unfolding queue_event
receive on self [] = self
receive on self (change ∷ changes) = receive on (queue_event on false self change) changes

-- The changes that PipeWire brings while a sync waits, each with GLib's choice in
-- g_main_context_invoke_full: to dispatch it at once, or to attach it.
unfoldable pub arrive : Handlers → Registry → List (Bool × Change) → Registry
unfolding queue_event
arrive on self [] = self
arrive on self ((direct, change) ∷ changes) = arrive on (queue_event on direct self change) changes

-- The end of a sync: only a success has waited for the main context.
unfoldable pub sync_ended :
    Handlers → Registry → Option (Outcome (Unit {0})) → Option (Outcome (Unit {0})) × Registry
unfolding drain
sync_ended on self none = (none, self)
sync_ended on self (some (err e)) = (some (err e), self)
sync_ended on self (some (ok u)) = (some (ok tt), drain on self)

-- pwg_registry_sync with a registry that runs. The confirmation is attached to the main context
-- behind the events that were attached before it, so these have run when the call returns with
-- success.
unfoldable pub sync_running :
    Handlers
    → ConnectAnswers
    → SyncAnswers
    → ℕ
    → List Wake
    → List (Bool × Change)
    → Registry
    → Option Core
    → Option (Outcome (Unit {0})) × Registry
unfolding sync arrive sync_ended
sync_running on connect_answers answers timeout wakes changes self none = (some (err failed), self)
sync_running on connect_answers answers timeout wakes changes self (some core) =
    let synced = sync connect_answers answers core true timeout wakes in
    sync_ended on (arrive on (record self { core = some synced.1 }) changes) synced.0

-- pwg_registry_sync
unfoldable pub sync_registry :
    Handlers
    → ConnectAnswers
    → Bool
    → SyncAnswers
    → ℕ
    → List Wake
    → List (Bool × Change)
    → Registry
    → Option (Outcome (Unit {0})) × Registry
unfolding start sync_running
sync_registry on connect_answers registry_new answers timeout wakes changes self =
    let started = start on connect_answers registry_new self in
    elim started.0 [
      | err e ↦ (some (err e), started.1)
      | ok u ↦
          sync_running on connect_answers answers timeout wakes changes started.1 started.1.core
    ]
