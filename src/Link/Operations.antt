-- ===== src/Link/Operations.antt =====
-- src/pwg-link.c: the events of a link, those of the PipeWire thread included, and stop.
use pipewire_gobject.Prelude.{
  ℕ, ◌+◌, String, Bool, true, false, not, ◌&&◌, ◌||◌, Option, none, some, List, [], ◌∷◌, ◌++◌, ◌==◌,
  strcmp0_eq, if◌then◌else◌,
}
use pipewire_gobject.Prelude.Word.{u32}
use pipewire_gobject.Core.Connection.{Core, disconnect}
use pipewire_gobject.Link.State.{
  Link, LinkEvent, LinkReport, link_info, link_removed, Handlers, emit, notify_running,
  notify_bound, notify_state, notify_error,
}

-- pwg_link_destroy_pipewire_objects: a listener goes with its proxy, and none stays without one
unfoldable pub destroy_pipewire_objects : Link → Link
destroy_pipewire_objects self = record self {
  link = false;
  has_link_listener = false;
  registry = false;
  has_registry_listener = false;
}

abbrev is_some : Option String → Bool
is_some none = false
is_some (some s) = true

-- The two halves of pwg_link_clear_state.
unfoldable pub clear_name : Handlers → Link → Link
unfolding emit
clear_name on self =
    if is_some self.state then emit on notify_state (record self { state = none }) else self

unfoldable pub clear_error : Handlers → Link → Link
unfolding emit
clear_error on self =
    if is_some self.error then emit on notify_error (record self { error = none }) else self

-- pwg_link_clear_state
unfoldable pub clear_state : Handlers → Link → Link
unfolding clear_name clear_error
clear_state on self = clear_error on (clear_name on self)

unfoldable pub set_unbound : Handlers → Link → Link
unfolding emit
set_unbound on self =
    if self.bound then emit on notify_bound (record self { bound = false }) else self

unfoldable pub set_stopped : Handlers → Link → Link
unfolding emit
set_stopped on self =
    if self.running then emit on notify_running (record self { running = false }) else self

-- pwg_link_reset
unfoldable pub reset : Handlers → Link → Link
unfolding set_unbound set_stopped clear_state
reset on self = clear_state on (
    set_stopped on (
      set_unbound on (record self {
        registry = false;
        link = false;
        has_registry_listener = false;
        has_link_listener = false;
        generation = u32 (self.generation + 1);
      })))

-- pwg_link_stop
unfoldable pub stop : Handlers → Link → Link
unfolding destroy_pipewire_objects set_unbound set_stopped clear_state
stop on self =
    if not self.running && not self.registry && not self.link
    then self
    else clear_state on (
        set_stopped on (
          set_unbound on
            (destroy_pipewire_objects (record self { generation = u32 (self.generation + 1) }))))

-- The two halves of pwg_link_update_state.
unfoldable pub update_name : Handlers → Link → Option String → Link
unfolding emit
update_name on self state =
    if strcmp0_eq self.state state
    then self
    else emit on notify_state (record self { state = state })

unfoldable pub update_error : Handlers → Link → Option String → Link
unfolding emit
update_error on self error =
    if strcmp0_eq self.error error
    then self
    else emit on notify_error (record self { error = error })

-- pwg_link_update_state
unfoldable pub update_state : Handlers → Link → Option String → Option String → Link
unfolding update_name update_error
update_state on self state error = update_error on (update_name on self state) error

unfoldable pub apply_report : Handlers → Link → LinkReport → Link
unfolding update_state stop
apply_report on self (link_info state error) = update_state on self state error
apply_report on self link_removed = stop on self

-- pwg_link_dispatch_event
unfoldable pub dispatch_event : Handlers → Link → LinkEvent → Link
unfolding apply_report
dispatch_event on self event =
    if not self.running || not (event.generation == self.generation)
    then self
    else apply_report on self event.report

-- pwg_link_queue_event; `direct` is GLib's choice in g_main_context_invoke_full
unfoldable pub queue_event : Handlers → Bool → Link → LinkReport → Link
unfolding dispatch_event
queue_event on direct self report =
    let event : LinkEvent = record { generation = self.generation; report = report } in
    if direct
    then dispatch_event on self event
    else record self { queue = self.queue ++ event ∷ [] }

-- struct pw_link_info, as far as the link reads it: whether change_mask has the state, and the
-- strings
pub record LinkInfo : Type 0 where
  pub state_changed : Bool
  pub state : Option String
  pub error : Option String

-- pwg_link_on_info
unfoldable pub on_info : Handlers → Bool → Link → Option LinkInfo → Link
unfolding queue_event
on_info on direct self none = self
on_info on direct self (some info) =
    if not info.state_changed
    then self
    else queue_event on direct self (link_info info.state info.error)

-- pwg_link_on_global_remove
unfoldable pub on_global_remove : Handlers → Bool → Link → ℕ → Link
unfolding queue_event
on_global_remove on direct self id =
    if not (id == self.link_id) then self else queue_event on direct self link_removed

-- The main context runs the sources that are attached, oldest first.
unfoldable pub run_sources : Handlers → Link → List LinkEvent → Link
unfolding dispatch_event
run_sources on self [] = self
run_sources on self (event ∷ events) = run_sources on (dispatch_event on self event) events

unfoldable pub drain : Handlers → Link → Link
unfolding run_sources
drain on self = run_sources on (record self { queue = [] }) self.queue

-- pwg_link_on_core_connected_notify
unfoldable pub on_core_connected_notify : Handlers → Link → Core → Link
unfolding reset
on_core_connected_notify on self core = if core.connected then self else reset on self

-- pwg_core_disconnect on the core of the link: a core that was connected notifies.
unfoldable pub lose_core : Handlers → Link → Core → Link
unfolding on_core_connected_notify disconnect
lose_core on self core =
    let lost = record self { core = some (disconnect core) } in
    if core.connected then on_core_connected_notify on lost (disconnect core) else lost
