-- ===== src/Node/Operations.antt =====
-- src/pwg-node.c: the events of a node, those of the PipeWire thread included, and stop.
use pipewire_gobject.Prelude.{
  ℕ, ◌+◌, String, Bool, true, false, not, ◌&&◌, ◌||◌, Option, none, some, List, [], ◌∷◌, ◌++◌, ◌==◌,
  strcmp0_eq, if◌then◌else◌,
}
use pipewire_gobject.Prelude.Word.{u32}
use pipewire_gobject.Core.Connection.{Core, disconnect}
use pipewire_gobject.Param.Pod.{param_new}
use pipewire_gobject.ParamInfo.{ParamInfo, param_info_new}
use pipewire_gobject.Prelude.Int.{ℤ}
use pipewire_gobject.Node.State.{
  ParamInfoCopy, node_param, notify_param_infos, signal_param, Node, NodeEvent, NodeReport,
  node_info, node_removed, Handlers, emit, notify_running, notify_bound, notify_state, notify_error,
}

-- pwg_node_destroy_pipewire_objects: a listener goes with its proxy, and none stays without one
unfoldable pub destroy_pipewire_objects : Node → Node
destroy_pipewire_objects self = record self {
  node = false;
  has_node_listener = false;
  registry = false;
  has_registry_listener = false;
}

abbrev pub is_some : Option String → Bool
is_some none = false
is_some (some s) = true

-- The steps that pwg_node_reset and pwg_node_stop share.
unfoldable pub clear_name : Handlers → Node → Node
unfolding emit
clear_name on self =
    if is_some self.state then emit on notify_state (record self { state = none }) else self

unfoldable pub clear_error : Handlers → Node → Node
unfolding emit
clear_error on self =
    if is_some self.error then emit on notify_error (record self { error = none }) else self

unfoldable pub clear_state : Handlers → Node → Node
unfolding clear_name clear_error
clear_state on self = clear_error on (clear_name on self)

unfoldable pub set_unbound : Handlers → Node → Node
unfolding emit
set_unbound on self =
    if self.bound then emit on notify_bound (record self { bound = false }) else self

unfoldable pub set_stopped : Handlers → Node → Node
unfolding emit
set_stopped on self =
    if self.running then emit on notify_running (record self { running = false }) else self

unfoldable pub clear_lists : Node → Node
clear_lists self = record self { param_infos = []; params = [] }

-- pwg_node_reset
unfoldable pub reset : Handlers → Node → Node
unfolding clear_lists set_unbound set_stopped clear_state
reset on self = clear_lists (
    clear_state on (
      set_stopped on (
        set_unbound on (record self {
          registry = false;
          node = false;
          has_registry_listener = false;
          has_node_listener = false;
          generation = u32 (self.generation + 1);
        }))))

-- pwg_node_stop
unfoldable pub stop : Handlers → Node → Node
unfolding destroy_pipewire_objects clear_lists set_unbound set_stopped clear_state
stop on self =
    if not self.running && not self.registry && not self.node
    then self
    else clear_lists (
        clear_state on (
          set_stopped on (
            set_unbound on
              (destroy_pipewire_objects (record self { generation = u32 (self.generation + 1) })))))

-- The two halves of pwg_node_update_state.
unfoldable pub update_name : Handlers → Node → Option String → Node
unfolding emit
update_name on self state =
    if strcmp0_eq self.state state
    then self
    else emit on notify_state (record self { state = state })

unfoldable pub update_error : Handlers → Node → Option String → Node
unfolding emit
update_error on self error =
    if strcmp0_eq self.error error
    then self
    else emit on notify_error (record self { error = error })

-- pwg_node_update_state
unfoldable pub update_state : Handlers → Node → Option String → Option String → Node
unfolding update_name update_error
update_state on self state error = update_error on (update_name on self state) error

-- The loop over the array of an event.
unfoldable pub param_infos_of : List ParamInfoCopy → List ParamInfo
unfolding param_info_new
param_infos_of [] = []
param_infos_of (copy ∷ copies) = param_info_new copy.id copy.flags ∷ param_infos_of copies

-- pwg_node_update_param_infos
unfoldable pub update_param_infos : Handlers → Node → List ParamInfoCopy → Node
unfolding param_infos_of emit
update_param_infos on self copies =
    emit on notify_param_infos (record self { param_infos = param_infos_of copies })

-- The guard before pwg_node_update_param_infos: an event may have no array.
unfoldable pub apply_param_infos : Handlers → Node → Option (List ParamInfoCopy) → Node
unfolding update_param_infos
apply_param_infos on self none = self
apply_param_infos on self (some copies) = update_param_infos on self copies

-- The branches of pwg_node_dispatch_event.
unfoldable pub apply_report : Handlers → Node → NodeReport → Node
unfolding update_state apply_param_infos emit stop
apply_report on self (node_info state_changed state error copies) =
    apply_param_infos on (if state_changed then update_state on self state error else self) copies
apply_report on self (node_param none) = self
apply_report on self (node_param (some param)) =
    emit on (signal_param param) (record self { params = self.params ++ param ∷ [] })
apply_report on self node_removed = stop on self

-- pwg_node_dispatch_event
unfoldable pub dispatch_event : Handlers → Node → NodeEvent → Node
unfolding apply_report
dispatch_event on self event =
    if not self.running || not (event.generation == self.generation)
    then self
    else apply_report on self event.report

-- pwg_node_queue_event; `direct` is GLib's choice in g_main_context_invoke_full
unfoldable pub queue_event : Handlers → Bool → Node → NodeReport → Node
unfolding dispatch_event
queue_event on direct self report =
    let event : NodeEvent = record { generation = self.generation; report = report } in
    if direct
    then dispatch_event on self event
    else record self { queue = self.queue ++ event ∷ [] }

-- struct pw_node_info, as far as the node reads it: whether change_mask has the state and the
-- parameters, the strings, and the array `params`, which may be NULL
pub record NodeInfo : Type 0 where
  pub state_changed : Bool
  pub params_changed : Bool
  pub state : Option String
  pub error : Option String
  pub params : Option (List ParamInfoCopy)

-- The array of an event: the one of `info`, or an empty one where only the mask says so.
unfoldable pub copied_params : NodeInfo → Option (List ParamInfoCopy)
copied_params info = elim info.params [
  | some params ↦ some params
  | none ↦ if info.params_changed then some [] else none
]

-- pwg_node_on_info
unfoldable pub on_info : Handlers → Bool → Node → Option NodeInfo → Node
unfolding queue_event copied_params
on_info on direct self none = self
on_info on direct self (some info) = elim (copied_params info) [
  | none ↦
      if not info.state_changed
      then self
      else queue_event on direct self (node_info true info.state info.error none)
  | some params ↦ queue_event on direct self (
      if info.state_changed
      then node_info true info.state info.error (some params)
      else node_info false none none (some params))
]

-- pwg_node_on_param
unfoldable pub on_param : Handlers → Bool → Node → ℤ → ℕ → ℕ → ℕ → Option (List ℕ) → Node
unfolding queue_event param_new
on_param on direct self seq id index next none = self
on_param on direct self seq id index next (some pod) =
    queue_event on direct self (node_param (param_new seq id index next (some pod)))

-- pwg_node_on_global_remove
unfoldable pub on_global_remove : Handlers → Bool → Node → ℕ → Node
unfolding queue_event
on_global_remove on direct self id =
    if not (id == self.node_id) then self else queue_event on direct self node_removed

-- The main context runs the sources that are attached, oldest first.
unfoldable pub run_sources : Handlers → Node → List NodeEvent → Node
unfolding dispatch_event
run_sources on self [] = self
run_sources on self (event ∷ events) = run_sources on (dispatch_event on self event) events

unfoldable pub drain : Handlers → Node → Node
unfolding run_sources
drain on self = run_sources on (record self { queue = [] }) self.queue

-- pwg_node_on_core_connected_notify
unfoldable pub on_core_connected_notify : Handlers → Node → Core → Node
unfolding reset
on_core_connected_notify on self core = if core.connected then self else reset on self

-- pwg_core_disconnect on the core of the node: a core that was connected notifies.
unfoldable pub lose_core : Handlers → Node → Core → Node
unfolding on_core_connected_notify disconnect
lose_core on self core =
    let lost = record self { core = some (disconnect core) } in
    if core.connected then on_core_connected_notify on lost (disconnect core) else lost
