-- ===== src/Node/Witnesses.antt =====
-- The theorems on the node at a concrete node.
use pipewire_gobject.Prelude.{Bool, ◌≡◌, refl, true, false, none, some, List, [], ◌∷◌, ◌++◌}
use pipewire_gobject.Prelude.Arrivals.{at_once, attached}
use pipewire_gobject.Prelude.Int.{ℤ, pos, negsuc}
use pipewire_gobject.Error.{ok}
use pipewire_gobject.Core.Connection.{Core, ConnectAnswers}
use pipewire_gobject.Core.Sync.{SyncAnswers, Wake, core_done, sync}
use pipewire_gobject.Global.{Global}
use pipewire_gobject.Param.Pod.{Param}
use pipewire_gobject.Node.State.{
  Node, NodeEvent, NodeReport, ParamInfoCopy, node_info, node_param, node_removed, quiet,
  notify_running, notify_bound, notify_state, notify_error, notify_param_infos, signal_param,
}
use pipewire_gobject.Node.Operations.{stop, dispatch_event, param_infos_of, run_sources}
use pipewire_gobject.Node.Control.{StartAnswers}
use pipewire_gobject.Node.Enumeration.{ParamAnswers, enum_params_sync}
use pipewire_gobject.Node.Steady.{IsSteady}
use pipewire_gobject.Node.History.{
  Operation, start_node, stop_node, info, param, enumerate_params, sync_main, global_remove,
  run_main_context, disconnect_core, run, node_history-IsSteady,
}
use pipewire_gobject.Node.Whole.{IsWhole, Respect, same-Keeps, stop-Keeps}
use pipewire_gobject.Node.Reentrant.{run_on, reentrant_history-IsWhole}
use pipewire_gobject.Node.Calling.{restarting, stopping, unbound, restart_in_stop, stop_in_event}
use pipewire_gobject.Node.Shown.{node_shown}
use pipewire_gobject.Node.Follow.{shown, follow, current}
use pipewire_gobject.Node.Requests.{answering, seq_of, enum_params_sync-delivers}

abbrev core : Core
core = record {
  thread_loop = true;
  context = true;
  core = true;
  pipewire_properties = [];
  connected = true;
  notified = true ∷ [];
}

abbrev speaker : Global
speaker = record {
  id = 31;
  permissions = 457;
  interface_type = some "PipeWire:Interface:Node";
  version = 3;
  properties = [];
}

abbrev idle : Node
idle = record {
  core = some core;
  global = some speaker;
  running = false;
  bound = false;
  state = none;
  error = none;
  param_infos = [];
  params = [];
  registry = false;
  node = false;
  node_id = 31;
  has_registry_listener = false;
  has_node_listener = false;
  generation = 4;
  next_seq = 7;
  queue = [];
  emitted = [];
}

abbrev volume : ℤ → Param
volume seq = record { seq = seq; id = 2; index = 0; next = 1; bytes = [] }

-- A node that runs, with a parameter of an earlier request and one more that is still attached.
abbrev active : Node
active = record idle {
  running = true;
  bound = true;
  registry = true;
  node = true;
  has_registry_listener = true;
  has_node_listener = true;
  params = volume (pos 5) ∷ [];
  queue = record { generation = 4; report = node_param (some (volume (pos 6))) } ∷ [];
}

idle-IsSteady : IsSteady idle
idle-IsSteady = record {
  bound = refl;
  registry = refl;
  node = refl;
  registry_listener = refl;
  node_listener = refl;
  no_state = λ h. refl;
  no_error = λ h. refl;
  no_infos = λ h. refl;
  no_params = λ h. refl;
}

active-IsSteady : IsSteady active
active-IsSteady = record {
  bound = refl;
  registry = refl;
  node = refl;
  registry_listener = refl;
  node_listener = refl;
  no_state = λ h. refl;
  no_error = λ h. refl;
  no_infos = λ h. refl;
  no_params = λ h. cc;
}

abbrev connect_answers : ConnectAnswers
connect_answers = record {
  thread_loop_new = true;
  context_new = true;
  properties_new = true;
  properties_set = λ key value. pos 0;
  context_connect = λ table. true;
  thread_loop_start = pos 0;
}

abbrev start_answers : StartAnswers
start_answers = record { registry_new = true; bind = λ id version. true; add_listener = pos 0 }

abbrev answers : ParamAnswers
answers = record {
  subscribe = λ ids. pos 0;
  enumerate = λ seq id first num. pos 0;
  set = λ id pod. negsuc 1;
  is_async = λ result. false;
}

abbrev sync_answers : SyncAnswers
sync_answers = record {
  in_thread = false;
  get_time = pos 0;
  add_listener = pos 0;
  core_sync = pos 5;
}

abbrev wakes : List Wake
wakes = record { events = core_done 0 (pos 5) ∷ []; wait_result = pos 0 } ∷ []

abbrev replies : ℤ → List (Bool × NodeReport)
replies seq =
    (false, node_param (some (volume seq)))
    ∷ (true, node_info true (some "running") none none)
    ∷ (true, node_param (some (volume seq)))
    ∷ []

enum_params_sync-delivers_example :
    (enum_params_sync quiet connect_answers start_answers answers sync_answers 0 wakes replies
      active 2 0 0).0
    ≡ some (
        ok (
          answering (seq_of answers active 2 0 0) (
            at_once (replies (seq_of answers active 2 0 0))
            ++ (current 4 active.queue ++ attached (replies (seq_of answers active 2 0 0))))))
unfolding sync
enum_params_sync-delivers_example =
    enum_params_sync-delivers connect_answers start_answers answers sync_answers 0 wakes replies
      active 2 0 0 core refl active-IsSteady refl refl refl refl

abbrev life : List Operation
life =
    start_node connect_answers start_answers
    ∷ info false (
        some (record {
          state_changed = true;
          params_changed = true;
          state = some "idle";
          error = none;
          params = none;
        }))
    ∷ enumerate_params answers 2 0 0
    ∷ param false (pos 7) 2 0 1 (some [])
    ∷ sync_main connect_answers start_answers sync_answers 0 wakes (replies (pos 7))
    ∷ global_remove false 31
    ∷ run_main_context
    ∷ disconnect_core core
    ∷ stop_node
    ∷ []

node_history-IsSteady_example : IsSteady (run idle life)
node_history-IsSteady_example = node_history-IsSteady idle life idle-IsSteady

abbrev events : List NodeEvent
events =
    record { generation = 3; report = node_removed }
    ∷ record { generation = 4; report = node_param (some (volume (pos 7))) }
    ∷ []

node_shown_example :
    shown (run_sources quiet active events) ≡ follow (shown active) (current 4 events)
node_shown_example = node_shown active events refl

idle-IsWhole : IsWhole idle
idle-IsWhole = record {
  idle_registry = λ h. refl;
  idle_node = λ h. refl;
  registry_listener = λ h. refl;
  node_listener = λ h. refl;
}

quiet-Respect : Respect quiet
quiet-Respect sig self w = same-Keeps self w

stopping-Respect : Respect stopping
unfolding stopping
stopping-Respect notify_state self w = stop-Keeps quiet quiet-Respect self w
stopping-Respect notify_bound self w = same-Keeps self w
stopping-Respect notify_running self w = same-Keeps self w
stopping-Respect notify_error self w = same-Keeps self w
stopping-Respect notify_param_infos self w = same-Keeps self w
stopping-Respect (signal_param p) self w = same-Keeps self w

reentrant_history-IsWhole_example : IsWhole (run_on stopping idle life)
reentrant_history-IsWhole_example =
    reentrant_history-IsWhole stopping stopping-Respect idle life idle-IsWhole

restarts : (restarting connect_answers start_answers notify_bound (unbound active)).running ≡ true
unfolding restarting
restarts = refl

restart_in_stop_example :
    let after = stop (restarting connect_answers start_answers) active in
    (after.running ≡ false) × (after.bound ≡ true) × (after.registry ≡ true) × (after.node ≡ true)
restart_in_stop_example =
    restart_in_stop connect_answers start_answers active active-IsSteady refl restarts

abbrev copies : List ParamInfoCopy
copies = record { id = 2; flags = 3 } ∷ []

abbrev running_event : NodeEvent
running_event = record {
  generation = 4;
  report = node_info true (some "running") none (some copies);
}

stop_in_event_example :
    let after = dispatch_event stopping active running_event in
    (after.running ≡ false) × (after.param_infos ≡ param_infos_of copies)
stop_in_event_example =
    stop_in_event active running_event (some "running") none copies refl refl refl refl
