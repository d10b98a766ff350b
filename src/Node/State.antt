-- ===== src/Node/State.antt =====
-- src/pwg-node.c: struct _PwgNode, PwgNodeEvent, the notifications and the signal.
use pipewire_gobject.Prelude.{
  ℕ, String, Bool, false, Option, none, some, List, [], ◌∷◌, ◌++◌, if◌then◌else◌,
}
use pipewire_gobject.Core.Connection.{Core}
use pipewire_gobject.Global.{Global, is_interface}
use pipewire_gobject.Param.Pod.{Param}
use pipewire_gobject.ParamInfo.{ParamInfo}

-- PwgNodeParamInfoCopy
pub record ParamInfoCopy : Type 0 where
  pub id : ℕ  -- unsigned int
  pub flags : ℕ  -- unsigned int

-- PwgNodeEventType, with the fields of the event that go with it: state_changed, state, error and
-- param_infos, or param
pub data NodeReport : Type 0 where
  node_info : Bool → Option String → Option String → Option (List ParamInfoCopy) → NodeReport
  node_param : Option Param → NodeReport
  node_removed : NodeReport

-- PwgNodeEvent
pub record NodeEvent : Type 0 where
  pub generation : ℕ  -- unsigned int
  pub report : NodeReport

-- What g_object_notify_by_pspec and g_signal_emit report to the application.
pub data NodeSignal : Type 0 where
  notify_running notify_bound notify_state notify_error notify_param_infos : NodeSignal
  signal_param : Param → NodeSignal

-- struct _PwgNode. `registry` and `node` say whether the pointer is not NULL. `queue` holds the
-- events of the sources that are attached to `main_context`, oldest first.
pub record Node : Type 0 where
  pub core : Option Core
  pub global : Option Global
  pub running : Bool
  pub bound : Bool
  pub state : Option String
  pub error : Option String
  pub param_infos : List ParamInfo
  pub params : List Param
  pub registry : Bool
  pub node : Bool
  pub node_id : ℕ
  pub has_registry_listener : Bool
  pub has_node_listener : Bool
  pub generation : ℕ  -- unsigned int
  pub next_seq : ℕ  -- int, from 1 on
  pub queue : List NodeEvent
  pub emitted : List NodeSignal

abbrev pub Handlers : Type 0
Handlers = NodeSignal → Node → Node

-- No handler is connected, or none that calls back into the node.
abbrev pub quiet : Handlers
quiet sig self = self

unfoldable pub emit : Handlers → NodeSignal → Node → Node
emit on sig self = on sig (record self { emitted = self.emitted ++ sig ∷ [] })

-- PipeWire's PW_TYPE_INTERFACE_Node
abbrev pub interface_node : String
interface_node = "PipeWire:Interface:Node"

-- pwg_node_init, pwg_node_constructed and pwg_node_new: only a node global has a wrapper
unfoldable pub node_new : Core → Global → Option Node
unfolding is_interface
node_new core global =
    if is_interface global interface_node
    then some (record {
      core = some core;
      global = some global;
      running = false;
      bound = false;
      state = none;
      error = none;
      param_infos = [];
      params = [];
      registry = false;
      node = false;
      node_id = global.id;
      has_registry_listener = false;
      has_node_listener = false;
      generation = 0;
      next_seq = 1;
      queue = [];
      emitted = [];
    })
    else none
