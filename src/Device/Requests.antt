-- ===== src/Device/Requests.antt =====
-- The start of a device, its syncs and its requests for parameters do what those of a node do.
use pipewire_gobject.Prelude.{
  ℕ, ◌≡◌, refl, ap, ◌∙◌, Bool, true, Option, none, some, List, [], ◌∷◌, map,
}
use pipewire_gobject.Prelude.Int.{ℤ}
use pipewire_gobject.Error.{Outcome, ok, err}
use pipewire_gobject.Core.Connection.{Core, ConnectAnswers}
use pipewire_gobject.Node.State
use pipewire_gobject.Node.State.{Node, NodeReport}
use pipewire_gobject.Node.Control
use pipewire_gobject.Node.Control.{StartAnswers}
use pipewire_gobject.Node.Enumeration
use pipewire_gobject.Node.Enumeration.{ParamAnswers}
use pipewire_gobject.Device.State.{Device, quiet}
use pipewire_gobject.Device.Control.{start}
use pipewire_gobject.Device.Enumeration.{enum_params}
use pipewire_gobject.Device.Mirror.{drain-mirrors}
use pipewire_gobject.Device.Stopping.{as_node}
use pipewire_gobject.Core.Sync.{SyncAnswers, Wake, sync}
use pipewire_gobject.Param.Pod.{Param}
use pipewire_gobject.Device.State.{DeviceReport}
use pipewire_gobject.Device.Operations.{queue_event}
use pipewire_gobject.Device.Control.{receive, sync_ended, sync_running, sync_started, sync_device}
use pipewire_gobject.Device.Enumeration.{
  sync_answered, dup_params_for_seq, enum_asked, enum_started, enum_params_sync,
}
use pipewire_gobject.Device.Mirror.{queue_event-mirrors}
use pipewire_gobject.Device.Stopping.{as_report}
use pipewire_gobject.Device.Asking.{as_started, start-mirrors, as_asked, enum_params-mirrors}

-- An event that comes while a sync waits, as one of a node.
abbrev pub as_arrival : Bool × DeviceReport → Bool × NodeReport
as_arrival (direct, report) = (direct, as_report report)

receive-mirrors :
    (self : Device) (reports : List (Bool × DeviceReport))
    → as_node (receive quiet self reports)
      ≡ Control.receive State.quiet (as_node self) (map as_arrival reports)
unfolding receive Control.receive
receive-mirrors self [] = refl
receive-mirrors self ((direct, report) ∷ reports) =
    receive-mirrors (queue_event quiet direct self report) reports
    ∙ ap (λ now. Control.receive State.quiet now (map as_arrival reports))
        (queue_event-mirrors direct self report)

abbrev pub as_synced : Option (Outcome (Unit {0})) × Device → Option (Outcome (Unit {0})) × Node
as_synced r = (r.0, as_node r.1)

sync_ended-mirrors :
    (self : Device) (result : Option (Outcome (Unit {0})))
    → as_synced (sync_ended quiet self result)
      ≡ Control.sync_ended State.quiet (as_node self) result
unfolding sync_ended Control.sync_ended
sync_ended-mirrors self none = refl
sync_ended-mirrors self (some (err e)) = refl
sync_ended-mirrors self (some (ok u)) = ap (λ now. (some (ok tt), now)) (drain-mirrors self)

module _ (connect_answers : ConnectAnswers) (start_answers : StartAnswers) (answers : SyncAnswers)
    (timeout : ℕ) (wakes : List Wake) where
  sync_running-mirrors :
      (reports : List (Bool × DeviceReport)) (self : Device) (core : Option Core)
      → as_synced (sync_running quiet connect_answers answers timeout wakes reports self core)
        ≡ Control.sync_running State.quiet connect_answers answers timeout wakes
            (map as_arrival reports)
            (as_node self)
            core
  unfolding sync_running Control.sync_running
  sync_running-mirrors reports self none = refl
  sync_running-mirrors reports self (some core) =
      let synced = sync connect_answers answers core true timeout wakes in
      let ready : Device = record self { core = some synced.1 } in
      sync_ended-mirrors (receive quiet ready reports) synced.0
      ∙ ap (λ now. Control.sync_ended State.quiet now synced.0) (receive-mirrors ready reports)

  sync_started-mirrors :
      (reports : List (Bool × DeviceReport)) (started : Outcome (Unit {0}) × Device)
      → as_synced (sync_started quiet connect_answers answers timeout wakes reports started)
        ≡ Control.sync_started State.quiet connect_answers answers timeout wakes
            (map as_arrival reports)
            (as_started started)
  unfolding sync_started Control.sync_started
  sync_started-mirrors reports (err e, self) = refl
  sync_started-mirrors reports (ok u, self) = sync_running-mirrors reports self self.core

  pub sync_device-mirrors :
      (reports : List (Bool × DeviceReport)) (self : Device)
      → as_synced
          (sync_device quiet connect_answers start_answers answers timeout wakes reports self)
        ≡ Control.sync_node State.quiet connect_answers start_answers answers timeout wakes
            (map as_arrival reports)
            (as_node self)
  unfolding sync_device Control.sync_node
  sync_device-mirrors reports self =
      sync_started-mirrors reports (start quiet connect_answers start_answers self)
      ∙ ap
          (Control.sync_started State.quiet connect_answers answers timeout wakes
            (map as_arrival reports))
          (start-mirrors connect_answers start_answers self)

abbrev pub as_answer : Option (Outcome (List Param)) × Device → Option (Outcome (List Param)) × Node
as_answer r = (r.0, as_node r.1)

sync_answered-mirrors :
    (seq : ℤ) (synced : Option (Outcome (Unit {0})) × Device)
    → as_answer (sync_answered seq synced) ≡ Enumeration.sync_answered seq (as_synced synced)
unfolding sync_answered Enumeration.sync_answered dup_params_for_seq Enumeration.dup_params_for_seq
sync_answered-mirrors seq (none, self) = refl
sync_answered-mirrors seq (some (err e), self) = refl
sync_answered-mirrors seq (some (ok u), self) = refl

-- The reports that come while a request waits, as those of a node.
abbrev pub as_reports : (ℤ → List (Bool × DeviceReport)) → ℤ → List (Bool × NodeReport)
as_reports reports seq = map as_arrival (reports seq)

module _ (connect_answers : ConnectAnswers) (start_answers : StartAnswers)
    (sync_answers : SyncAnswers) (timeout : ℕ) (wakes : List Wake)
    (reports : ℤ → List (Bool × DeviceReport)) where
  enum_asked-mirrors :
      (asked : Outcome ℤ × Device)
      → as_answer
          (enum_asked quiet connect_answers start_answers sync_answers timeout wakes reports asked)
        ≡ Enumeration.enum_asked State.quiet connect_answers start_answers sync_answers timeout
            wakes
            (as_reports reports)
            (as_asked asked)
  unfolding enum_asked Enumeration.enum_asked
  enum_asked-mirrors (err e, self) = refl
  enum_asked-mirrors (ok seq, self) =
      sync_answered-mirrors seq (
        sync_device quiet connect_answers start_answers sync_answers timeout wakes (reports seq)
          self)
      ∙ ap (Enumeration.sync_answered seq) (
          sync_device-mirrors connect_answers start_answers sync_answers timeout wakes (reports seq)
            self)

  enum_started-mirrors :
      (answers : ParamAnswers) (id first num : ℕ) (started : Outcome (Unit {0}) × Device)
      → as_answer (
          enum_started quiet connect_answers start_answers answers sync_answers timeout wakes
            reports id first num started)
        ≡ Enumeration.enum_started State.quiet connect_answers start_answers answers sync_answers
            timeout wakes
            (as_reports reports)
            id
            first
            num
            (as_started started)
  unfolding enum_started Enumeration.enum_started
  enum_started-mirrors answers id first num (err e, self) = refl
  enum_started-mirrors answers id first num (ok u, self) =
      enum_asked-mirrors (enum_params answers self id first num)
      ∙ ap
          (Enumeration.enum_asked State.quiet connect_answers start_answers sync_answers timeout
            wakes (as_reports reports))
          (enum_params-mirrors answers self id first num)

  -- What a device answers to a request, a node answers too.
  pub enum_params_sync-mirrors :
      (answers : ParamAnswers) (self : Device) (id first num : ℕ)
      → as_answer (
          enum_params_sync quiet connect_answers start_answers answers sync_answers timeout wakes
            reports self id first num)
        ≡ Enumeration.enum_params_sync State.quiet connect_answers start_answers answers
            sync_answers timeout wakes
            (as_reports reports)
            (as_node self)
            id
            first
            num
  unfolding enum_params_sync Enumeration.enum_params_sync
  enum_params_sync-mirrors answers self id first num =
      enum_started-mirrors answers id first num (start quiet connect_answers start_answers self)
      ∙ ap
          (Enumeration.enum_started State.quiet connect_answers start_answers answers sync_answers
            timeout wakes (as_reports reports) id first num)
          (start-mirrors connect_answers start_answers self)
