-- ===== src/Node/Requests.antt =====
-- What a request for the parameters of a node gives back.
use pipewire_gobject.Prelude.{
  ℕ, suc, ◌≡◌, refl, sym, ap, ◌∙◌, Bool, true, false, none, some, List, [], ◌∷◌, ◌++◌, append-nil,
  append_assoc, ◌==◌, filter, if◌then◌else◌, arith, Bool-cases, inl, inr,
}
use pipewire_gobject.Prelude.Arrivals.{at_once, attached}
use pipewire_gobject.Prelude.Int.{ℤ, pos, is_negative, int_eq}
use pipewire_gobject.Prelude.Word.{max_uint}
use pipewire_gobject.Error.{Outcome, ok, err, pipewire}
use pipewire_gobject.Core.Connection.{Core, ConnectAnswers}
use pipewire_gobject.Core.Sync.{SyncAnswers, Wake, sync}
use pipewire_gobject.Param.Pod.{Param}
use pipewire_gobject.Node.State.{Node, NodeReport, node_info, node_param, node_removed, quiet}
use pipewire_gobject.Node.Operations.{drain}
use pipewire_gobject.Node.Control.{
  StartAnswers, receive, sync_ended, sync_running, sync_started, sync_node,
}
use pipewire_gobject.Node.Enumeration.{
  ParamAnswers, has_thread_loop, check_bound, request_params, enum_params, dup_params_for_seq,
  sync_answered, enum_checked, enum_asked, enum_started, enum_params_sync,
}
use pipewire_gobject.Node.Steady.{IsSteady}
use pipewire_gobject.Node.Starting.{start_running}
use pipewire_gobject.Node.Follow.{Shown, shown, current, follow}
use pipewire_gobject.Node.Brought.{receive-shown}

-- Whether a removal is among the reports.
abbrev pub removes : List NodeReport → Bool
removes [] = false
removes (node_info state_changed state error copies ∷ reports) = removes reports
removes (node_param param ∷ reports) = removes reports
removes (node_removed ∷ reports) = true

-- The parameters that reports bring, in their order.
abbrev pub params_of : List NodeReport → List Param
params_of [] = []
params_of (node_info state_changed state error copies ∷ reports) = params_of reports
params_of (node_param none ∷ reports) = params_of reports
params_of (node_param (some param) ∷ reports) = param ∷ params_of reports
params_of (node_removed ∷ reports) = params_of reports

-- The parameters that answer a request: none of a node that was removed.
abbrev pub answering : ℤ → List NodeReport → List Param
answering seq reports =
    if removes reports then [] else filter (λ param. int_eq param.seq seq) (params_of reports)

follow-params :
    (now : Shown) (reports : List NodeReport)
    → (follow now reports).params
      ≡ (if removes reports then [] else now.params ++ params_of reports)
follow-params now [] = sym (append-nil now.params)
follow-params now (node_info state_changed state error copies ∷ reports) = follow-params _ reports
follow-params now (node_param none ∷ reports) = follow-params now reports
follow-params now (node_param (some param) ∷ reports) =
    follow-params (record now { params = now.params ++ param ∷ [] }) reports
    ∙ ap (λ ps. if removes reports then [] else ps)
        (append_assoc now.params (param ∷ []) (params_of reports))
follow-params now (node_removed ∷ reports) = refl

filter-follow :
    (now : Shown) (reports : List NodeReport) (seq : ℤ)
    → now.params ≡ []
    → filter (λ param. int_eq param.seq seq) (follow now reports).params ≡ answering seq reports
unfolding filter
filter-follow now reports seq empty =
    let keep = λ (param : Param). int_eq param.seq seq in
    ap (filter keep) (
      follow-params now reports
      ∙ ap (λ ps. if removes reports then [] else ps ++ params_of reports) empty)
    ∙ elim (Bool-cases (removes reports)) [ inl e ↦ rw e refl | inr e ↦ rw e refl ]

sync_node-success :
    (connect_answers : ConnectAnswers) (start_answers : StartAnswers) (answers : SyncAnswers)
    (timeout : ℕ) (wakes : List Wake) (reports : List (Bool × NodeReport)) (self : Node)
    (core : Core)
    → self.running ≡ true
    → self.core ≡ some core
    → (sync connect_answers answers core true timeout wakes).0 ≡ some (ok tt)
    → sync_node quiet connect_answers start_answers answers timeout wakes reports self ≡ (
      some (ok tt),
      drain quiet (
          receive quiet
            (record self { core = some (sync connect_answers answers core true timeout wakes).1 })
            reports),
    )
unfolding sync_node sync_started sync_running sync_ended
sync_node-success connect_answers start_answers answers timeout wakes reports self core on has
      done =
    let started = sync_started quiet connect_answers answers timeout wakes reports in
    let ran = sync_running quiet connect_answers answers timeout wakes reports self in
    let synced = sync connect_answers answers core true timeout wakes in
    ap started (start_running connect_answers start_answers self on)
    ∙ ap ran has
    ∙ ap (sync_ended quiet (receive quiet (record self { core = some synced.1 }) reports)) done

-- The number that a request gives back.
abbrev pub seq_of : ParamAnswers → Node → ℕ → ℕ → ℕ → ℤ
seq_of answers self id first num =
    let result =
      answers.enumerate (pos self.next_seq) id first (if num == 0 then max_uint else num) in
    if answers.is_async result then result else pos self.next_seq

-- A request that PipeWire accepts.
enum_params-accepted :
    (answers : ParamAnswers) (self : Node) (id first num : ℕ) (core : Core)
    → self.running ≡ true
    → IsSteady self
    → self.core ≡ some core
    → core.thread_loop ≡ true
    → is_negative
        (answers.enumerate (pos self.next_seq) id first (if num == 0 then max_uint else num))
      ≡ false
    → enum_params answers self id first num ≡ (
      ok (seq_of answers self id first num),
      record self { params = []; next_seq = suc self.next_seq },
    )
unfolding enum_params enum_checked request_params check_bound has_thread_loop
enum_params-accepted answers self id first num core on w has looping accepted =
    let checked : check_bound self ≡ ok tt =
      ground (arith, on, w.node, w.bound, ap has_thread_loop has, looping) in
    ap (enum_checked answers self id first num) checked
    ∙ ap
        (λ (b : Bool).
          let asked = record self { params = []; next_seq = suc self.next_seq } in
          let r : Outcome ℤ × Node =
            if b then (err pipewire, asked) else (ok (seq_of answers self id first num), asked) in
          r)
        accepted

-- Where no handler calls back, for a running node in a steady state with a thread loop: once
-- PipeWire has accepted the request and confirmed the sync, the synchronous enumeration returns
-- exactly the parameters with the number of the request that PipeWire sent in this session: those
-- of the wait that were dispatched at once, those attached to the main context before, and those
-- that the wait attached, each of these in PipeWire's order. Parameters of other requests are left
-- out. If the node was removed meanwhile, it returns none.
pub enum_params_sync-delivers :
    (connect_answers : ConnectAnswers) (start_answers : StartAnswers) (answers : ParamAnswers)
    (sync_answers : SyncAnswers) (timeout : ℕ) (wakes : List Wake)
    (reports : ℤ → List (Bool × NodeReport)) (self : Node) (id first num : ℕ) (core : Core)
    → self.running ≡ true
    → IsSteady self
    → self.core ≡ some core
    → core.thread_loop ≡ true
    → is_negative
        (answers.enumerate (pos self.next_seq) id first (if num == 0 then max_uint else num))
      ≡ false
    → (sync connect_answers sync_answers core true timeout wakes).0 ≡ some (ok tt)
    → (enum_params_sync quiet connect_answers start_answers answers sync_answers timeout wakes
        reports self id first num).0
      ≡ some (
          ok (
            answering (seq_of answers self id first num) (
              at_once (reports (seq_of answers self id first num))
              ++ (current self.generation self.queue
                  ++ attached (reports (seq_of answers self id first num))))))
unfolding enum_params_sync enum_started enum_asked sync_answered dup_params_for_seq
enum_params_sync-delivers connect_answers start_answers answers sync_answers timeout wakes reports
      self id first num core on w has looping accepted done =
    let seq = seq_of answers self id first num in
    let asked : Node = record self { params = []; next_seq = suc self.next_seq } in
    let ready : Node = record asked {
      core = some (sync connect_answers sync_answers core true timeout wakes).1;
    } in
    let brought =
      at_once (reports seq) ++ (current self.generation self.queue ++ attached (reports seq)) in
    let go =
      enum_started quiet connect_answers start_answers answers sync_answers timeout wakes reports id
        first num in
    let after = enum_asked quiet connect_answers start_answers sync_answers timeout wakes reports in
    ap (λ r. (go r).0) (start_running connect_answers start_answers self on)
    ∙ ap (λ r. (after r).0)
        (enum_params-accepted answers self id first num core on w has looping accepted)
    ∙ ap (λ r. (sync_answered seq r).0)
        (sync_node-success connect_answers start_answers sync_answers timeout wakes (reports seq)
          asked core on has done)
    ∙ ap (λ (t : Shown). some (ok (filter (λ param. int_eq param.seq seq) t.params)))
        (receive-shown ready (reports seq) on)
    ∙ ap (λ ps. some (ok ps)) (filter-follow (shown ready) brought seq refl)
