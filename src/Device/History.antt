-- ===== src/Device/History.antt =====
-- Histories of a device: its operations in any order.
use pipewire_gobject.Prelude.{ℕ, Bool, Option, List, [], ◌∷◌}
use pipewire_gobject.Prelude.Int.{ℤ}
use pipewire_gobject.Core.Connection.{Core, ConnectAnswers}
use pipewire_gobject.Node.Control.{StartAnswers}
use pipewire_gobject.Node.Enumeration.{ParamAnswers}
use pipewire_gobject.Core.Sync.{SyncAnswers, Wake}
use pipewire_gobject.Device.State.{Device, DeviceReport, quiet}
use pipewire_gobject.Device.Operations.{
  stop, DeviceInfo, on_info, on_param, on_global_remove, drain, lose_core,
}
use pipewire_gobject.Device.Control.{start, sync_device}
use pipewire_gobject.Device.Enumeration.{enum_params, enum_params_sync}

pub data Operation : Type 0 where
  start_device : ConnectAnswers → StartAnswers → Operation
  stop_device : Operation
  info : Bool → Option DeviceInfo → Operation
  param : Bool → ℤ → ℕ → ℕ → ℕ → Option (List ℕ) → Operation
  enumerate_params : ParamAnswers → ℕ → ℕ → ℕ → Operation
  sync_main :
      ConnectAnswers
      → StartAnswers
      → SyncAnswers
      → ℕ
      → List Wake
      → List (Bool × DeviceReport)
      → Operation
  enumerate_sync :
      ConnectAnswers
      → StartAnswers
      → ParamAnswers
      → SyncAnswers
      → ℕ
      → List Wake
      → (ℤ → List (Bool × DeviceReport))
      → ℕ
      → ℕ
      → ℕ
      → Operation
  global_remove : Bool → ℕ → Operation
  run_main_context : Operation
  disconnect_core : Core → Operation

unfoldable pub step : Device → Operation → Device
unfolding start stop on_info on_param enum_params sync_device enum_params_sync on_global_remove
    drain lose_core
step self (start_device connect_answers answers) = (start quiet connect_answers answers self).1
step self stop_device = stop quiet self
step self (info direct i) = on_info quiet direct self i
step self (param direct seq id index next pod) = on_param quiet direct self seq id index next pod
step self (enumerate_params answers id first num) = (enum_params answers self id first num).1
step self (sync_main connect_answers start_answers answers timeout wakes reports) =
    (sync_device quiet connect_answers start_answers answers timeout wakes reports self).1
step self
      (enumerate_sync connect_answers start_answers answers sync_answers timeout wakes reports id
        first num) =
    (enum_params_sync quiet connect_answers start_answers answers sync_answers timeout wakes reports
      self id first num).1
step self (global_remove direct id) = on_global_remove quiet direct self id
step self run_main_context = drain quiet self
step self (disconnect_core core) = lose_core quiet self core

unfoldable pub run : Device → List Operation → Device
unfolding step
run self [] = self
run self (operation ∷ rest) = run (step self operation) rest
