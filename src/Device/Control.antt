-- ===== src/Device/Control.antt =====
-- src/pwg-device.c: start and sync of a device.
use pipewire_gobject.Prelude.{
  Bool, ℕ, ◌+◌, true, false, not, ◌||◌, Option, none, some, List, [], ◌∷◌, ltb, if◌then◌else◌,
}
use pipewire_gobject.Prelude.Int.{is_negative}
use pipewire_gobject.Prelude.Word.{u32}
use pipewire_gobject.Error.{Outcome, ok, err, failed, pipewire}
use pipewire_gobject.Core.Connection.{Core, ConnectAnswers, connect}
use pipewire_gobject.Core.Sync.{SyncAnswers, Wake, sync}
use pipewire_gobject.Global.{Global, is_interface}
use pipewire_gobject.Node.Control.{StartAnswers}
use pipewire_gobject.Device.State.{
  Device, DeviceReport, Handlers, emit, notify_running, notify_bound, interface_device,
}
use pipewire_gobject.Device.Operations.{destroy_pipewire_objects, queue_event, drain}

-- pwg_device_start from the lock on; the version asked for is at most PW_VERSION_DEVICE, 3
abbrev version_device : ℕ
version_device = 3

unfoldable pub bind_version : ℕ → ℕ
bind_version version = if ltb version version_device then version else version_device

unfoldable pub bind_device : Handlers → StartAnswers → Device → Global → Outcome (Unit {0}) × Device
unfolding destroy_pipewire_objects emit bind_version
bind_device on answers self global =
    let listening = record self { registry = true; has_registry_listener = true } in
    if not answers.registry_new
    then (err pipewire, record self { registry = false })
    else if not (answers.bind global.id (bind_version global.version))
    then (err pipewire, destroy_pipewire_objects (record listening { device = false }))
    else if is_negative answers.add_listener
    then (err pipewire, destroy_pipewire_objects (record listening { device = true }))
    else (
      ok tt,
      emit on notify_bound (
          emit on notify_running (record listening {
            device = true;
            has_device_listener = true;
            generation = u32 (self.generation + 1);
            running = true;
            bound = true;
          })),
    )

unfoldable pub start_connected :
    Handlers
    → StartAnswers
    → Device
    → Global
    → Outcome (Unit {0})
    → Core
    → Outcome (Unit {0}) × Device
unfolding bind_device
start_connected on answers self global (err e) core = (err e, record self { core = some core })
start_connected on answers self global (ok u) core =
    let ready = record self { core = some core } in
    if not core.thread_loop || not core.core
    then (err pipewire, ready)
    else bind_device on answers ready global

unfoldable pub start_global :
    Handlers
    → ConnectAnswers
    → StartAnswers
    → Device
    → Option Core
    → Option Global
    → Outcome (Unit {0}) × Device
unfolding start_connected connect is_interface
start_global on connect_answers answers self (some core) (some global) =
    if not (is_interface global interface_device)
    then (err failed, self)
    else start_connected on answers self global (connect connect_answers core).0
        (connect connect_answers core).1
start_global on connect_answers answers self _ _ = (err failed, self)

-- pwg_device_start
unfoldable pub start :
    Handlers → ConnectAnswers → StartAnswers → Device → Outcome (Unit {0}) × Device
unfolding start_global
start on connect_answers answers self =
    if self.running
    then (ok tt, self)
    else start_global on connect_answers answers self self.core self.global

-- The events that PipeWire brings while a sync waits, each with GLib's choice in
-- g_main_context_invoke_full: to dispatch it at once, or to attach it.
unfoldable pub receive : Handlers → Device → List (Bool × DeviceReport) → Device
unfolding queue_event
receive on self [] = self
receive on self ((direct, report) ∷ reports) =
    receive on (queue_event on direct self report) reports

-- The end of a sync: only a success has waited for the main context.
unfoldable pub sync_ended :
    Handlers → Device → Option (Outcome (Unit {0})) → Option (Outcome (Unit {0})) × Device
unfolding drain
sync_ended on self none = (none, self)
sync_ended on self (some (err e)) = (some (err e), self)
sync_ended on self (some (ok u)) = (some (ok tt), drain on self)

-- pwg_device_sync of a device that runs. The confirmation is attached to the main context behind the
-- events that were attached before it, so these have run when the call returns with success.
unfoldable pub sync_running :
    Handlers
    → ConnectAnswers
    → SyncAnswers
    → ℕ
    → List Wake
    → List (Bool × DeviceReport)
    → Device
    → Option Core
    → Option (Outcome (Unit {0})) × Device
unfolding sync receive sync_ended
sync_running on connect_answers answers timeout wakes reports self none = (some (err failed), self)
sync_running on connect_answers answers timeout wakes reports self (some core) =
    let synced = sync connect_answers answers core true timeout wakes in
    sync_ended on (receive on (record self { core = some synced.1 }) reports) synced.0

-- pwg_device_sync behind the start
unfoldable pub sync_started :
    Handlers
    → ConnectAnswers
    → SyncAnswers
    → ℕ
    → List Wake
    → List (Bool × DeviceReport)
    → Outcome (Unit {0}) × Device
    → Option (Outcome (Unit {0})) × Device
unfolding sync_running
sync_started on connect_answers answers timeout wakes reports (err e, self) = (some (err e), self)
sync_started on connect_answers answers timeout wakes reports (ok u, self) =
    sync_running on connect_answers answers timeout wakes reports self self.core

-- pwg_device_sync
unfoldable pub sync_device :
    Handlers
    → ConnectAnswers
    → StartAnswers
    → SyncAnswers
    → ℕ
    → List Wake
    → List (Bool × DeviceReport)
    → Device
    → Option (Outcome (Unit {0})) × Device
unfolding start sync_started
sync_device on connect_answers start_answers answers timeout wakes reports self =
    sync_started on connect_answers answers timeout wakes reports
      (start on connect_answers start_answers self)
