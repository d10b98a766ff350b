-- ===== src/Node/Waits.antt =====
-- A sync and the requests for parameters, whatever the handlers do but begin a session.
use pipewire_gobject.Prelude.{
  Bool, ℕ, refl, true, Option, none, some, List, [], ◌∷◌, ◌==◌, if◌then◌else◌, if-both,
}
use pipewire_gobject.Prelude.Int.{ℤ, pos, is_negative}
use pipewire_gobject.Prelude.Word.{max_uint}
use pipewire_gobject.Error.{Outcome, ok, err}
use pipewire_gobject.Core.Connection.{Core, ConnectAnswers}
use pipewire_gobject.Core.Sync.{SyncAnswers, Wake, sync}
use pipewire_gobject.Node.State.{Node, NodeReport, Handlers}
use pipewire_gobject.Node.Operations.{queue_event, drain}
use pipewire_gobject.Node.Control.{
  StartAnswers, start, receive, sync_ended, sync_running, sync_started, sync_node,
}
use pipewire_gobject.Node.Enumeration.{
  ParamAnswers, check_bound, enum_checked, request_params, enum_params, sync_answered, enum_asked,
  enum_started, enum_params_sync,
}
use pipewire_gobject.Node.Whole.{IsWhole, Respect, relabelled}
use pipewire_gobject.Node.Events.{queue_event-Keeps, run_sources-Keeps}
use pipewire_gobject.Node.Begun.{start-IsWhole}

enum_checked-IsWhole :
    (answers : ParamAnswers) (self : Node) (id first num : ℕ) (checked : Outcome (Unit {0}))
    → IsWhole self
    → IsWhole (enum_checked answers self id first num checked).1
unfolding enum_checked request_params
enum_checked-IsWhole answers self id first num (err e) w = w
enum_checked-IsWhole answers self id first num (ok u) w =
    let result =
      answers.enumerate (pos self.next_seq) id first (if num == 0 then max_uint else num) in
    if-both (λ (r : Outcome ℤ × Node). IsWhole r.1) (is_negative result)
      (relabelled self _ refl refl refl refl refl w).whole
      (relabelled self _ refl refl refl refl refl w).whole

pub enum_params-IsWhole :
    (answers : ParamAnswers) (self : Node) (id first num : ℕ)
    → IsWhole self
    → IsWhole (enum_params answers self id first num).1
unfolding enum_params
enum_params-IsWhole answers self id first num w =
    enum_checked-IsWhole answers self id first num (check_bound self) w

sync_answered-IsWhole :
    (seq : ℤ) (synced : Option (Outcome (Unit {0})) × Node)
    → IsWhole synced.1
    → IsWhole (sync_answered seq synced).1
unfolding sync_answered
sync_answered-IsWhole seq (none, self) w = w
sync_answered-IsWhole seq (some (err e), self) w = w
sync_answered-IsWhole seq (some (ok u), self) w = w

module _ (on : Handlers) (respect : Respect on) where
  receive-IsWhole :
      (self : Node) (reports : List (Bool × NodeReport))
      → IsWhole self
      → IsWhole (receive on self reports)
  unfolding receive
  receive-IsWhole self [] w = w
  receive-IsWhole self ((direct, report) ∷ reports) w =
      receive-IsWhole (queue_event on direct self report) reports
        (queue_event-Keeps on respect direct self report w).whole

  pub drain-IsWhole : (self : Node) → IsWhole self → IsWhole (drain on self)
  unfolding drain
  drain-IsWhole self w =
      (run_sources-Keeps on respect (record self { queue = [] }) self.queue
        (relabelled self _ refl refl refl refl refl w).whole).whole

  sync_ended-IsWhole :
      (self : Node) (result : Option (Outcome (Unit {0})))
      → IsWhole self
      → IsWhole (sync_ended on self result).1
  unfolding sync_ended
  sync_ended-IsWhole self none w = w
  sync_ended-IsWhole self (some (err e)) w = w
  sync_ended-IsWhole self (some (ok u)) w = drain-IsWhole self w

  module _ (connect_answers : ConnectAnswers) (answers : SyncAnswers) (timeout : ℕ)
      (wakes : List Wake) where
    sync_running-IsWhole :
        (reports : List (Bool × NodeReport)) (self : Node) (core : Option Core)
        → IsWhole self
        → IsWhole (sync_running on connect_answers answers timeout wakes reports self core).1
    unfolding sync_running
    sync_running-IsWhole reports self none w = w
    sync_running-IsWhole reports self (some core) w =
        let synced = sync connect_answers answers core true timeout wakes in
        let ready : Node = record self { core = some synced.1 } in
        sync_ended-IsWhole (receive on ready reports) synced.0
          (receive-IsWhole ready reports (relabelled self ready refl refl refl refl refl w).whole)

    sync_started-IsWhole :
        (reports : List (Bool × NodeReport)) (started : Outcome (Unit {0}) × Node)
        → IsWhole started.1
        → IsWhole (sync_started on connect_answers answers timeout wakes reports started).1
    unfolding sync_started
    sync_started-IsWhole reports (err e, self) w = w
    sync_started-IsWhole reports (ok u, self) w = sync_running-IsWhole reports self self.core w

    pub sync_node-IsWhole :
        (start_answers : StartAnswers) (reports : List (Bool × NodeReport)) (self : Node)
        → IsWhole self
        → IsWhole (sync_node on connect_answers start_answers answers timeout wakes reports self).1
    unfolding sync_node
    sync_node-IsWhole start_answers reports self w =
        sync_started-IsWhole reports (start on connect_answers start_answers self)
          (start-IsWhole on respect connect_answers start_answers self w)

    enum_asked-IsWhole :
        (start_answers : StartAnswers) (reports : ℤ → List (Bool × NodeReport))
        (asked : Outcome ℤ × Node)
        → IsWhole asked.1
        → IsWhole
            (enum_asked on connect_answers start_answers answers timeout wakes reports asked).1
    unfolding enum_asked
    enum_asked-IsWhole start_answers reports (err e, self) w = w
    enum_asked-IsWhole start_answers reports (ok seq, self) w =
        sync_answered-IsWhole seq
          (sync_node on connect_answers start_answers answers timeout wakes (reports seq) self)
          (sync_node-IsWhole start_answers (reports seq) self w)

    enum_started-IsWhole :
        (start_answers : StartAnswers) (reports : ℤ → List (Bool × NodeReport))
        (params : ParamAnswers) (id first num : ℕ) (started : Outcome (Unit {0}) × Node)
        → IsWhole started.1
        → IsWhole
            (enum_started on connect_answers start_answers params answers timeout wakes reports id
              first num started).1
    unfolding enum_started
    enum_started-IsWhole start_answers reports params id first num (err e, self) w = w
    enum_started-IsWhole start_answers reports params id first num (ok u, self) w =
        enum_asked-IsWhole start_answers reports (enum_params params self id first num)
          (enum_params-IsWhole params self id first num w)

    pub enum_params_sync-IsWhole :
        (start_answers : StartAnswers) (reports : ℤ → List (Bool × NodeReport))
        (params : ParamAnswers) (self : Node) (id first num : ℕ)
        → IsWhole self
        → IsWhole
            (enum_params_sync on connect_answers start_answers params answers timeout wakes reports
              self id first num).1
    unfolding enum_params_sync
    enum_params_sync-IsWhole start_answers reports params self id first num w =
        enum_started-IsWhole start_answers reports params id first num
          (start on connect_answers start_answers self)
          (start-IsWhole on respect connect_answers start_answers self w)
