-- ===== src/Link/Witnesses.antt =====
-- The theorems on the link at a concrete link.
use pipewire_gobject.Prelude.{◌≡◌, refl, true, false, none, some, List, [], ◌∷◌}
use pipewire_gobject.Prelude.Int.{pos, negsuc}
use pipewire_gobject.Core.Connection.{Core, ConnectAnswers}
use pipewire_gobject.Global.{Global}
use pipewire_gobject.Link.State.{Link, LinkEvent, link_info, link_removed, quiet}
use pipewire_gobject.Link.Operations.{run_sources}
use pipewire_gobject.Link.Control.{StartAnswers, start}
use pipewire_gobject.Link.Steady.{IsSteady}
use pipewire_gobject.Link.History.{
  Begins, start-Begins, Operation, start_link, stop_link, info, global_remove, run_main_context,
  disconnect_core, run, history-IsSteady,
}
use pipewire_gobject.Link.Shown.{shown, follow, current, run_sources-shown}

abbrev core : Core
core = record {
  thread_loop = true;
  context = true;
  core = true;
  pipewire_properties = [];
  connected = true;
  notified = true ∷ [];
}

abbrev wire : Global
wire = record {
  id = 50;
  permissions = 457;
  interface_type = some "PipeWire:Interface:Link";
  version = 3;
  properties = [];
}

abbrev idle : Link
idle = record {
  core = some core;
  global = some wire;
  running = false;
  bound = false;
  state = none;
  error = none;
  registry = false;
  link = false;
  link_id = 50;
  has_registry_listener = false;
  has_link_listener = false;
  generation = 4;
  queue = [];
  emitted = [];
}

abbrev active : Link
active = record idle {
  running = true;
  bound = true;
  state = some "init";
  registry = true;
  link = true;
  has_registry_listener = true;
  has_link_listener = true;
}

idle-IsSteady : IsSteady idle
idle-IsSteady = record {
  bound = refl;
  registry = refl;
  link = refl;
  registry_listener = refl;
  link_listener = refl;
  no_state = λ h. refl;
  no_error = λ h. refl;
}

abbrev connect_answers : ConnectAnswers
connect_answers = record {
  thread_loop_new = true;
  context_new = true;
  properties_new = true;
  properties_set = λ key value. pos 0;
  context_connect = λ table. true;
  thread_loop_start = pos 0;
}

abbrev deaf : StartAnswers
deaf = record { registry_new = true; bind = λ id version. true; add_listener = negsuc 11 }

start-Begins_example : Begins idle (start quiet connect_answers deaf idle)
start-Begins_example = start-Begins connect_answers deaf idle refl idle-IsSteady

abbrev life : List Operation
life =
    start_link connect_answers deaf
    ∷ start_link connect_answers (record deaf { add_listener = pos 0 })
    ∷ info false (some (record { state_changed = true; state = some "active"; error = none }))
    ∷ global_remove false 50
    ∷ run_main_context
    ∷ disconnect_core core
    ∷ stop_link
    ∷ []

history-IsSteady_example : IsSteady (run idle life)
history-IsSteady_example = history-IsSteady idle life idle-IsSteady

abbrev events : List LinkEvent
events =
    record { generation = 3; report = link_removed }
    ∷ record { generation = 4; report = link_info (some "active") none }
    ∷ []

run_sources-shown_example :
    shown (run_sources quiet active events) ≡ follow (some "init") none (current 4 events)
run_sources-shown_example = run_sources-shown active events refl
