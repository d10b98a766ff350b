-- ===== src/Device/Enumeration.antt =====
-- src/pwg-device.c: the requests for parameters, and the setting of one.
use pipewire_gobject.Prelude.{
  Bool, ℕ, suc, not, ◌||◌, Option, none, some, List, [], filter, length, ltb, ◌==◌, if◌then◌else◌,
}
use pipewire_gobject.Prelude.Int.{ℤ, pos, is_negative, int_eq}
use pipewire_gobject.Prelude.Word.{max_uint}
use pipewire_gobject.Error.{Outcome, ok, err, failed, pipewire}
use pipewire_gobject.Core.Connection.{ConnectAnswers}
use pipewire_gobject.Core.Sync.{SyncAnswers, Wake}
use pipewire_gobject.Param.Pod.{Param, PodLayout, get_pod}
use pipewire_gobject.Device.State.{Device, DeviceReport, Handlers}
use pipewire_gobject.Node.Control.{StartAnswers}
use pipewire_gobject.Node.Enumeration.{ParamAnswers, has_thread_loop, result_of}
use pipewire_gobject.Device.Control.{start, sync_device}

-- What the three requests ask first: a bound device, and then a thread loop.
unfoldable pub check_bound : Device → Outcome (Unit {0})
unfolding has_thread_loop
check_bound self =
    if not self.device || not self.bound
    then err failed
    else if not (has_thread_loop self.core)
    then err pipewire
    else ok tt

-- pwg_device_subscribe_params; `ids` is `none` where the variant is no array of uint32
unfoldable pub subscribe_params : ParamAnswers → Device → Option (List ℕ) → Outcome (Unit {0})
unfolding check_bound result_of
subscribe_params answers self none = err failed
subscribe_params answers self (some ids) = elim (check_bound self) [
  | err e ↦ err e
  | ok u ↦ if ltb max_uint (length ids) then err failed else result_of (answers.subscribe ids)
]

-- The request of pwg_device_enum_params. An error is the result -1.
unfoldable pub request_params : ParamAnswers → Device → ℕ → ℕ → ℕ → Outcome ℤ × Device
request_params answers self id start num =
    let seq = pos self.next_seq in
    let asked = record self { params = []; next_seq = suc self.next_seq } in
    let result = answers.enumerate seq id start (if num == 0 then max_uint else num) in
    if is_negative result
    then (err pipewire, asked)
    else (ok (if answers.is_async result then result else seq), asked)

-- pwg_device_enum_params behind the checks that it shares
unfoldable pub enum_checked :
    ParamAnswers → Device → ℕ → ℕ → ℕ → Outcome (Unit {0}) → Outcome ℤ × Device
unfolding request_params
enum_checked answers self id start num (err e) = (err e, self)
enum_checked answers self id start num (ok u) = request_params answers self id start num

-- pwg_device_enum_params
unfoldable pub enum_params : ParamAnswers → Device → ℕ → ℕ → ℕ → Outcome ℤ × Device
unfolding check_bound enum_checked
enum_params answers self id start num = enum_checked answers self id start num (check_bound self)

-- pwg_device_enum_all_params; PW_ID_ANY is 0xffffffff
unfoldable pub enum_all_params : ParamAnswers → Device → Outcome ℤ × Device
unfolding enum_params
enum_all_params answers self = enum_params answers self max_uint 0 0

-- pwg_device_dup_params_for_seq
unfoldable pub dup_params_for_seq : Device → ℤ → List Param
dup_params_for_seq self seq = filter (λ param. int_eq param.seq seq) self.params

-- pwg_device_enum_params_sync behind the sync; `none` where the wait goes on
unfoldable pub sync_answered :
    ℤ → Option (Outcome (Unit {0})) × Device → Option (Outcome (List Param)) × Device
unfolding dup_params_for_seq
sync_answered seq (none, self) = (none, self)
sync_answered seq (some (err e), self) = (some (err e), self)
sync_answered seq (some (ok u), self) = (some (ok (dup_params_for_seq self seq)), self)

module _ (on : Handlers) (connect_answers : ConnectAnswers) (start_answers : StartAnswers) where
  -- pwg_device_enum_params_sync behind the request; the events of PipeWire that come while it waits
  -- are `reports`, which may depend on the sequence number
  unfoldable pub enum_asked :
      SyncAnswers
      → ℕ
      → List Wake
      → (ℤ → List (Bool × DeviceReport))
      → Outcome ℤ × Device
      → Option (Outcome (List Param)) × Device
  unfolding sync_device sync_answered
  enum_asked sync_answers timeout wakes reports (err e, self) = (some (err e), self)
  enum_asked sync_answers timeout wakes reports (ok seq, self) =
      sync_answered seq
        (sync_device on connect_answers start_answers sync_answers timeout wakes (reports seq) self)

  -- pwg_device_enum_params_sync behind the start
  unfoldable pub enum_started :
      ParamAnswers
      → SyncAnswers
      → ℕ
      → List Wake
      → (ℤ → List (Bool × DeviceReport))
      → ℕ
      → ℕ
      → ℕ
      → Outcome (Unit {0}) × Device
      → Option (Outcome (List Param)) × Device
  unfolding enum_params enum_asked
  enum_started answers sync_answers timeout wakes reports id first num (err e, self) =
      (some (err e), self)
  enum_started answers sync_answers timeout wakes reports id first num (ok u, self) =
      enum_asked sync_answers timeout wakes reports (enum_params answers self id first num)

  -- pwg_device_enum_params_sync. A sequence number is never negative, so the test of it is that for
  -- the error.
  unfoldable pub enum_params_sync :
      ParamAnswers
      → SyncAnswers
      → ℕ
      → List Wake
      → (ℤ → List (Bool × DeviceReport))
      → Device
      → ℕ
      → ℕ
      → ℕ
      → Option (Outcome (List Param)) × Device
  unfolding start enum_started
  enum_params_sync answers sync_answers timeout wakes reports self id first num =
      enum_started answers sync_answers timeout wakes reports id first num
        (start on connect_answers start_answers self)

-- pwg_device_set_param; the outer `none` is a read outside of the bytes of the parameter
unfoldable pub set_param : PodLayout → ParamAnswers → Device → Param → Option (Outcome (Unit {0}))
unfolding check_bound result_of get_pod
set_param layout answers self param = elim (check_bound self) [
  | err e ↦ some (err e)
  | ok u ↦ elim (get_pod layout param) [
    | none ↦ none
    | some none ↦ some (err failed)
    | some (some pod) ↦ some (result_of (answers.set param.id pod))
  ]
]
