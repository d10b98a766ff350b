-- ===== src/Node/OnCoreWaits.antt =====
-- A sync and the requests for parameters of a node, of src/pwg-node.c, on its core.
use pipewire_gobject.Prelude.{
  ℕ, ◌≡◌, refl, sym, Bool, true, Option, none, some, List, ◌==◌, subst, if-both, if◌then◌else◌,
}
use pipewire_gobject.Prelude.Int.{ℤ, pos, is_negative}
use pipewire_gobject.Prelude.Word.{max_uint}
use pipewire_gobject.Error.{Outcome, ok, err}
use pipewire_gobject.Core.Connection.{Core, ConnectAnswers}
use pipewire_gobject.Core.Sync.{SyncAnswers, Wake, sync}
use pipewire_gobject.Core.Sharing.{connect-Leads}
use pipewire_gobject.Node.State.{Node, NodeReport, quiet}
use pipewire_gobject.Node.Operations.{drain}
use pipewire_gobject.Node.Control.{
  StartAnswers, start, receive, sync_ended, sync_running, sync_started, sync_node,
}
use pipewire_gobject.Node.Enumeration.{
  ParamAnswers, check_bound, enum_checked, request_params, enum_params, sync_answered, enum_asked,
  enum_started, enum_params_sync,
}
use pipewire_gobject.Node.Calm.{receive-Calm, drain-Calm}
use pipewire_gobject.Node.OnCoreStart.{Holds, Calm-Holds, started-Holds}

sync-connected :
    (connect_answers : ConnectAnswers) (answers : SyncAnswers) (core : Core) (main_context : Bool)
    (timeout : ℕ) (wakes : List Wake)
    → core.connected ≡ true
    → (sync connect_answers answers core main_context timeout wakes).1.connected ≡ true
unfolding sync
sync-connected connect_answers answers core main_context timeout wakes on =
    (connect-Leads connect_answers core).0 on

sync_ended-Holds :
    (old : Core) (self : Node) (result : Option (Outcome (Unit {0})))
    → Holds old self
    → Holds old (sync_ended quiet self result).1
unfolding sync_ended
sync_ended-Holds old self none h = h
sync_ended-Holds old self (some (err e)) h = h
sync_ended-Holds old self (some (ok u)) h =
    Calm-Holds old self (drain quiet self) (drain-Calm self) h

enum_checked-Holds :
    (old : Core) (params : ParamAnswers) (self : Node) (id first num : ℕ)
    (checked : Outcome (Unit {0}))
    → Holds old self
    → Holds old (enum_checked params self id first num checked).1
unfolding enum_checked request_params
enum_checked-Holds old params self id first num (err e) h = h
enum_checked-Holds old params self id first num (ok u) h =
    if-both (λ (r : Outcome ℤ × Node). Holds old r.1)
      (is_negative
        (params.enumerate (pos self.next_seq) id first (if num == 0 then max_uint else num)))
      h h

pub enum_params-Holds :
    (old : Core) (params : ParamAnswers) (self : Node) (id first num : ℕ)
    → Holds old self
    → Holds old (enum_params params self id first num).1
unfolding enum_params
enum_params-Holds old params self id first num h =
    enum_checked-Holds old params self id first num (check_bound self) h

module _ (old : Core) (connect_answers : ConnectAnswers) (start_answers : StartAnswers)
    (answers : SyncAnswers) (timeout : ℕ) (wakes : List Wake) where
  sync_running-Holds :
      (reports : List (Bool × NodeReport)) (self : Node) (core : Core)
      → (old.connected ≡ true → core.connected ≡ true)
      → (self.running ≡ true → core.connected ≡ true)
      → Holds old
          (sync_running quiet connect_answers answers timeout wakes reports self (some core)).1
  unfolding sync_running
  sync_running-Holds reports self core up runs =
      let synced = sync connect_answers answers core true timeout wakes in
      let ready : Node = record self { core = some synced.1 } in
      let on = sync-connected connect_answers answers core true timeout wakes in
      sync_ended-Holds old (receive quiet ready reports) synced.0 (
        Calm-Holds old ready (receive quiet ready reports) (receive-Calm ready reports)
          (synced.1, refl, (λ was. on (up was)), λ was. on (runs was)))

  sync_started-Holds :
      (reports : List (Bool × NodeReport)) (started : Outcome (Unit {0}) × Node)
      → Holds old started.1
      → Holds old (sync_started quiet connect_answers answers timeout wakes reports started).1
  unfolding sync_started
  sync_started-Holds reports (err e, self) h = h
  sync_started-Holds reports (ok u, self) (core, e, up, runs) =
      subst
        (λ core.
          Holds old (sync_running quiet connect_answers answers timeout wakes reports self core).1)
        (sym e) (sync_running-Holds reports self core up runs)

  pub sync_node-Holds :
      (reports : List (Bool × NodeReport)) (self : Node)
      → Holds old self
      → Holds old
          (sync_node quiet connect_answers start_answers answers timeout wakes reports self).1
  unfolding sync_node
  sync_node-Holds reports self h =
      sync_started-Holds reports (start quiet connect_answers start_answers self)
        (started-Holds old connect_answers start_answers self h)

  sync_answered-Holds :
      (seq : ℤ) (synced : Option (Outcome (Unit {0})) × Node)
      → Holds old synced.1
      → Holds old (sync_answered seq synced).1
  unfolding sync_answered
  sync_answered-Holds seq (none, self) h = h
  sync_answered-Holds seq (some (err e), self) h = h
  sync_answered-Holds seq (some (ok u), self) h = h

  enum_asked-Holds :
      (reports : ℤ → List (Bool × NodeReport)) (asked : Outcome ℤ × Node)
      → Holds old asked.1
      → Holds old
          (enum_asked quiet connect_answers start_answers answers timeout wakes reports asked).1
  unfolding enum_asked
  enum_asked-Holds reports (err e, self) h = h
  enum_asked-Holds reports (ok seq, self) h =
      sync_answered-Holds seq
        (sync_node quiet connect_answers start_answers answers timeout wakes (reports seq) self)
        (sync_node-Holds (reports seq) self h)

  enum_started-Holds :
      (reports : ℤ → List (Bool × NodeReport)) (params : ParamAnswers) (id first num : ℕ)
      (started : Outcome (Unit {0}) × Node)
      → Holds old started.1
      → Holds old
          (enum_started quiet connect_answers start_answers params answers timeout wakes reports id
            first num started).1
  unfolding enum_started
  enum_started-Holds reports params id first num (err e, self) h = h
  enum_started-Holds reports params id first num (ok u, self) h =
      enum_asked-Holds reports (enum_params params self id first num)
        (enum_params-Holds old params self id first num h)

  pub enum_params_sync-Holds :
      (reports : ℤ → List (Bool × NodeReport)) (params : ParamAnswers) (self : Node)
      (id first num : ℕ)
      → Holds old self
      → Holds old
          (enum_params_sync quiet connect_answers start_answers params answers timeout wakes reports
            self id first num).1
  unfolding enum_params_sync
  enum_params_sync-Holds reports params self id first num h =
      enum_started-Holds reports params id first num
        (start quiet connect_answers start_answers self)
        (started-Holds old connect_answers start_answers self h)
