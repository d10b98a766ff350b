-- ===== src/Node/Waiting.antt =====
-- A sync and the requests for parameters keep a node steady, where no handler calls back.
use pipewire_gobject.Prelude.{
  Bool, ℕ, true, Option, none, some, List, [], ◌∷◌, ◌==◌, arith, if-both, if◌then◌else◌,
}
use pipewire_gobject.Prelude.Int.{ℤ, pos, is_negative}
use pipewire_gobject.Node.Enumeration.{
  ParamAnswers, check_bound, enum_checked, request_params, enum_params,
}
use pipewire_gobject.Prelude.Word.{max_uint}
use pipewire_gobject.Error.{Outcome, ok, err}
use pipewire_gobject.Core.Connection.{Core, ConnectAnswers}
use pipewire_gobject.Node.State.{Node, quiet}
use pipewire_gobject.Node.Operations.{drain}
use pipewire_gobject.Node.Control.{StartAnswers, start}
use pipewire_gobject.Node.Steady.{
  IsSteady, core-IsSteady, queue_event-IsSteady, run_sources-IsSteady,
}
use pipewire_gobject.Core.Sync.{SyncAnswers, Wake, sync}
use pipewire_gobject.Node.State.{NodeReport}
use pipewire_gobject.Node.Operations.{queue_event}
use pipewire_gobject.Node.Control.{receive, sync_ended, sync_running, sync_started, sync_node}
use pipewire_gobject.Node.Enumeration.{enum_asked, enum_started, enum_params_sync, sync_answered}
use pipewire_gobject.Node.Starting.{start-IsSteady}

receive-IsSteady :
    (self : Node) (reports : List (Bool × NodeReport))
    → IsSteady self
    → IsSteady (receive quiet self reports)
unfolding receive
receive-IsSteady self [] w = w
receive-IsSteady self ((direct, report) ∷ reports) w =
    receive-IsSteady (queue_event quiet direct self report) reports
      (queue_event-IsSteady self direct report w)

pub drain-IsSteady : (self : Node) → IsSteady self → IsSteady (drain quiet self)
unfolding drain
drain-IsSteady self w =
    run_sources-IsSteady (record self { queue = [] }) self.queue
      (ground (arith, w.no_state, w.no_error, w.no_infos, w.no_params))

sync_ended-IsSteady :
    (self : Node) (result : Option (Outcome (Unit {0})))
    → IsSteady self
    → IsSteady (sync_ended quiet self result).1
unfolding sync_ended
sync_ended-IsSteady self none w = w
sync_ended-IsSteady self (some (err e)) w = w
sync_ended-IsSteady self (some (ok u)) w = drain-IsSteady self w

sync_running-IsSteady :
    (connect_answers : ConnectAnswers) (answers : SyncAnswers) (timeout : ℕ) (wakes : List Wake)
    (reports : List (Bool × NodeReport)) (self : Node) (core : Option Core)
    → IsSteady self
    → IsSteady (sync_running quiet connect_answers answers timeout wakes reports self core).1
unfolding sync_running
sync_running-IsSteady connect_answers answers timeout wakes reports self none w = w
sync_running-IsSteady connect_answers answers timeout wakes reports self (some core) w =
    let synced = sync connect_answers answers core true timeout wakes in
    let ready : Node = record self { core = some synced.1 } in
    sync_ended-IsSteady (receive quiet ready reports) synced.0
      (receive-IsSteady ready reports (core-IsSteady self (some synced.1) w))

sync_started-IsSteady :
    (connect_answers : ConnectAnswers) (answers : SyncAnswers) (timeout : ℕ) (wakes : List Wake)
    (reports : List (Bool × NodeReport)) (started : Outcome (Unit {0}) × Node)
    → IsSteady started.1
    → IsSteady (sync_started quiet connect_answers answers timeout wakes reports started).1
unfolding sync_started
sync_started-IsSteady connect_answers answers timeout wakes reports (err e, self) w = w
sync_started-IsSteady connect_answers answers timeout wakes reports (ok u, self) w =
    sync_running-IsSteady connect_answers answers timeout wakes reports self self.core w

pub sync_node-IsSteady :
    (connect_answers : ConnectAnswers) (start_answers : StartAnswers) (answers : SyncAnswers)
    (timeout : ℕ) (wakes : List Wake) (reports : List (Bool × NodeReport)) (self : Node)
    → IsSteady self
    → IsSteady (sync_node quiet connect_answers start_answers answers timeout wakes reports self).1
unfolding sync_node
sync_node-IsSteady connect_answers start_answers answers timeout wakes reports self w =
    sync_started-IsSteady connect_answers answers timeout wakes reports
      (start quiet connect_answers start_answers self)
      (start-IsSteady connect_answers start_answers self w)

enum_checked-IsSteady :
    (answers : ParamAnswers) (self : Node) (id first num : ℕ) (checked : Outcome (Unit {0}))
    → IsSteady self
    → IsSteady (enum_checked answers self id first num checked).1
unfolding enum_checked request_params
enum_checked-IsSteady answers self id first num (err e) w = w
enum_checked-IsSteady answers self id first num (ok u) w =
    let result =
      answers.enumerate (pos self.next_seq) id first (if num == 0 then max_uint else num) in
    if-both (λ (r : Outcome ℤ × Node). IsSteady r.1) (is_negative result)
      (ground (arith, w.no_state, w.no_error, w.no_infos))
      (ground (arith, w.no_state, w.no_error, w.no_infos))

-- A request clears the parameters of a node that runs, or does nothing.
pub enum_params-IsSteady :
    (answers : ParamAnswers) (self : Node) (id first num : ℕ)
    → IsSteady self
    → IsSteady (enum_params answers self id first num).1
unfolding enum_params
enum_params-IsSteady answers self id first num w =
    enum_checked-IsSteady answers self id first num (check_bound self) w

sync_answered-IsSteady :
    (seq : ℤ) (synced : Option (Outcome (Unit {0})) × Node)
    → IsSteady synced.1
    → IsSteady (sync_answered seq synced).1
unfolding sync_answered
sync_answered-IsSteady seq (none, self) w = w
sync_answered-IsSteady seq (some (err e), self) w = w
sync_answered-IsSteady seq (some (ok u), self) w = w

module _ (connect_answers : ConnectAnswers) (start_answers : StartAnswers)
    (sync_answers : SyncAnswers) (timeout : ℕ) (wakes : List Wake)
    (reports : ℤ → List (Bool × NodeReport)) where
  enum_asked-IsSteady :
      (asked : Outcome ℤ × Node)
      → IsSteady asked.1
      → IsSteady
          (enum_asked quiet connect_answers start_answers sync_answers timeout wakes reports
            asked).1
  unfolding enum_asked
  enum_asked-IsSteady (err e, self) w = w
  enum_asked-IsSteady (ok seq, self) w =
      sync_answered-IsSteady seq
        (sync_node quiet connect_answers start_answers sync_answers timeout wakes (reports seq)
          self)
        (sync_node-IsSteady connect_answers start_answers sync_answers timeout wakes (reports seq)
          self w)

  enum_started-IsSteady :
      (answers : ParamAnswers) (id first num : ℕ) (started : Outcome (Unit {0}) × Node)
      → IsSteady started.1
      → IsSteady
          (enum_started quiet connect_answers start_answers answers sync_answers timeout wakes
            reports id first num started).1
  unfolding enum_started
  enum_started-IsSteady answers id first num (err e, self) w = w
  enum_started-IsSteady answers id first num (ok u, self) w =
      enum_asked-IsSteady (enum_params answers self id first num)
        (enum_params-IsSteady answers self id first num w)

  pub enum_params_sync-IsSteady :
      (answers : ParamAnswers) (self : Node) (id first num : ℕ)
      → IsSteady self
      → IsSteady
          (enum_params_sync quiet connect_answers start_answers answers sync_answers timeout wakes
            reports self id first num).1
  unfolding enum_params_sync
  enum_params_sync-IsSteady answers self id first num w =
      enum_started-IsSteady answers id first num (start quiet connect_answers start_answers self)
        (start-IsSteady connect_answers start_answers self w)
