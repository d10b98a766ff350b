-- ===== src/Device/Witnesses.antt =====
-- The theorems on the device at a concrete device.
use pipewire_gobject.Prelude.{◌≡◌, true, false, none, some, List, [], ◌∷◌, map}
use pipewire_gobject.Prelude.Int.{pos}
use pipewire_gobject.Core.Connection.{Core, ConnectAnswers}
use pipewire_gobject.Global.{Global}
use pipewire_gobject.Node.Control.{StartAnswers}
use pipewire_gobject.Node.History
use pipewire_gobject.Device.State.{Device}
use pipewire_gobject.Device.History.{
  Operation, start_device, info, param, global_remove, run_main_context, run,
}
use pipewire_gobject.Device.Stopping.{as_node}
use pipewire_gobject.Device.Same.{as_operation, run-mirrors}

abbrev core : Core
core = record {
  thread_loop = true;
  context = true;
  core = true;
  pipewire_properties = [];
  connected = true;
  notified = true ∷ [];
}

abbrev card : Global
card = record {
  id = 40;
  permissions = 457;
  interface_type = some "PipeWire:Interface:Device";
  version = 3;
  properties = [];
}

abbrev idle : Device
idle = record {
  core = some core;
  global = some card;
  running = false;
  bound = false;
  param_infos = [];
  params = [];
  registry = false;
  device = false;
  device_id = 40;
  has_registry_listener = false;
  has_device_listener = false;
  generation = 0;
  next_seq = 1;
  queue = [];
  emitted = [];
}

abbrev connect_answers : ConnectAnswers
connect_answers = record {
  thread_loop_new = true;
  context_new = true;
  properties_new = true;
  properties_set = λ key value. pos 0;
  context_connect = λ table. true;
  thread_loop_start = pos 0;
}

abbrev start_answers : StartAnswers
start_answers = record { registry_new = true; bind = λ id version. true; add_listener = pos 0 }

abbrev life : List Operation
life =
    start_device connect_answers start_answers
    ∷ info false (some (record { params_changed = true; params = none }))
    ∷ param false (pos 1) 13 0 1 (some (8 ∷ []))
    ∷ run_main_context
    ∷ global_remove true 40
    ∷ []

run-mirrors_example : as_node (run idle life) ≡ History.run (as_node idle) (map as_operation life)
run-mirrors_example = run-mirrors idle life
