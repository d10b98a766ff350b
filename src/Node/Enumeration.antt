-- ===== src/Node/Enumeration.antt =====
-- src/pwg-node.c: the requests for parameters, and the setting of one.
use pipewire_gobject.Prelude.{
  ℕ, suc, Bool, false, not, ◌||◌, Option, none, some, List, [], filter, length, ltb, ◌==◌,
  if◌then◌else◌,
}
use pipewire_gobject.Prelude.Int.{ℤ, pos, is_negative, int_eq}
use pipewire_gobject.Prelude.Word.{max_uint}
use pipewire_gobject.Error.{Outcome, ok, err, failed, pipewire}
use pipewire_gobject.Core.Connection.{Core, ConnectAnswers}
use pipewire_gobject.Core.Sync.{SyncAnswers, Wake}
use pipewire_gobject.Param.Pod.{Param, PodLayout, get_pod}
use pipewire_gobject.Node.State.{Node, NodeReport, Handlers}
use pipewire_gobject.Node.Control.{StartAnswers, start, sync_node}

-- What PipeWire answers to the three requests, and SPA_RESULT_IS_ASYNC.
pub record ParamAnswers : Type 0 where
  pub subscribe : List ℕ → ℤ
  pub enumerate : ℤ → ℕ → ℕ → ℕ → ℤ
  pub set : ℕ → List ℕ → ℤ
  pub is_async : ℤ → Bool

-- Whether the node has a core with a thread loop.
unfoldable pub has_thread_loop : Option Core → Bool
has_thread_loop none = false
has_thread_loop (some core) = core.thread_loop

-- What the three requests ask first: a bound node, and then a thread loop.
unfoldable pub check_bound : Node → Outcome (Unit {0})
unfolding has_thread_loop
check_bound self =
    if not self.node || not self.bound
    then err failed
    else if not (has_thread_loop self.core)
    then err pipewire
    else ok tt

unfoldable pub result_of : ℤ → Outcome (Unit {0})
result_of result = if is_negative result then err pipewire else ok tt

-- pwg_node_subscribe_params; `ids` is `none` where the variant is no array of uint32
unfoldable pub subscribe_params : ParamAnswers → Node → Option (List ℕ) → Outcome (Unit {0})
unfolding check_bound result_of
subscribe_params answers self none = err failed
subscribe_params answers self (some ids) = elim (check_bound self) [
  | err e ↦ err e
  | ok u ↦ if ltb max_uint (length ids) then err failed else result_of (answers.subscribe ids)
]

-- The request of pwg_node_enum_params. An error is the result -1.
unfoldable pub request_params : ParamAnswers → Node → ℕ → ℕ → ℕ → Outcome ℤ × Node
request_params answers self id start num =
    let seq = pos self.next_seq in
    let asked = record self { params = []; next_seq = suc self.next_seq } in
    let result = answers.enumerate seq id start (if num == 0 then max_uint else num) in
    if is_negative result
    then (err pipewire, asked)
    else (ok (if answers.is_async result then result else seq), asked)

-- pwg_node_enum_params behind the checks that it shares
unfoldable pub enum_checked :
    ParamAnswers → Node → ℕ → ℕ → ℕ → Outcome (Unit {0}) → Outcome ℤ × Node
unfolding request_params
enum_checked answers self id start num (err e) = (err e, self)
enum_checked answers self id start num (ok u) = request_params answers self id start num

-- pwg_node_enum_params
unfoldable pub enum_params : ParamAnswers → Node → ℕ → ℕ → ℕ → Outcome ℤ × Node
unfolding check_bound enum_checked
enum_params answers self id start num = enum_checked answers self id start num (check_bound self)

-- pwg_node_enum_all_params; PW_ID_ANY is 0xffffffff
unfoldable pub enum_all_params : ParamAnswers → Node → Outcome ℤ × Node
unfolding enum_params
enum_all_params answers self = enum_params answers self max_uint 0 0

-- pwg_node_dup_params_for_seq
unfoldable pub dup_params_for_seq : Node → ℤ → List Param
dup_params_for_seq self seq = filter (λ param. int_eq param.seq seq) self.params

-- pwg_node_enum_params_sync behind the sync; `none` where the wait goes on
unfoldable pub sync_answered :
    ℤ → Option (Outcome (Unit {0})) × Node → Option (Outcome (List Param)) × Node
unfolding dup_params_for_seq
sync_answered seq (none, self) = (none, self)
sync_answered seq (some (err e), self) = (some (err e), self)
sync_answered seq (some (ok u), self) = (some (ok (dup_params_for_seq self seq)), self)

module _ (on : Handlers) (connect_answers : ConnectAnswers) (start_answers : StartAnswers) where
  -- pwg_node_enum_params_sync behind the request; the events of PipeWire that come while it waits
  -- are `reports`, which may depend on the sequence number
  unfoldable pub enum_asked :
      SyncAnswers
      → ℕ
      → List Wake
      → (ℤ → List (Bool × NodeReport))
      → Outcome ℤ × Node
      → Option (Outcome (List Param)) × Node
  unfolding sync_node sync_answered
  enum_asked sync_answers timeout wakes reports (err e, self) = (some (err e), self)
  enum_asked sync_answers timeout wakes reports (ok seq, self) =
      sync_answered seq
        (sync_node on connect_answers start_answers sync_answers timeout wakes (reports seq) self)

  -- pwg_node_enum_params_sync behind the start
  unfoldable pub enum_started :
      ParamAnswers
      → SyncAnswers
      → ℕ
      → List Wake
      → (ℤ → List (Bool × NodeReport))
      → ℕ
      → ℕ
      → ℕ
      → Outcome (Unit {0}) × Node
      → Option (Outcome (List Param)) × Node
  unfolding enum_params enum_asked
  enum_started answers sync_answers timeout wakes reports id first num (err e, self) =
      (some (err e), self)
  enum_started answers sync_answers timeout wakes reports id first num (ok u, self) =
      enum_asked sync_answers timeout wakes reports (enum_params answers self id first num)

  -- pwg_node_enum_params_sync. A sequence number is never negative, so the test of it is that for
  -- the error.
  unfoldable pub enum_params_sync :
      ParamAnswers
      → SyncAnswers
      → ℕ
      → List Wake
      → (ℤ → List (Bool × NodeReport))
      → Node
      → ℕ
      → ℕ
      → ℕ
      → Option (Outcome (List Param)) × Node
  unfolding start enum_started
  enum_params_sync answers sync_answers timeout wakes reports self id first num =
      enum_started answers sync_answers timeout wakes reports id first num
        (start on connect_answers start_answers self)

-- pwg_node_set_param; the outer `none` is a read outside of the bytes of the parameter
unfoldable pub set_param : PodLayout → ParamAnswers → Node → Param → Option (Outcome (Unit {0}))
unfolding check_bound result_of get_pod
set_param layout answers self param = elim (check_bound self) [
  | err e ↦ some (err e)
  | ok u ↦ elim (get_pod layout param) [
    | none ↦ none
    | some none ↦ some (err failed)
    | some (some pod) ↦ some (result_of (answers.set param.id pod))
  ]
]
