-- ===== src/Link/State.antt =====
-- src/pwg-link.c: struct _PwgLink, PwgLinkEvent and the notifications.
use pipewire_gobject.Prelude.{
  ℕ, String, Bool, false, Option, none, some, List, [], ◌∷◌, ◌++◌, if◌then◌else◌,
}
use pipewire_gobject.Core.Connection.{Core}
use pipewire_gobject.Global.{Global, is_interface}

-- PwgLinkEventType, with the fields of the event that go with it
pub data LinkReport : Type 0 where
  link_info : Option String → Option String → LinkReport
  link_removed : LinkReport

-- PwgLinkEvent
pub record LinkEvent : Type 0 where
  pub generation : ℕ  -- unsigned int
  pub report : LinkReport

-- What g_object_notify_by_pspec reports to the application.
pub data LinkSignal : Type 0 where
  notify_running notify_bound notify_state notify_error : LinkSignal

-- struct _PwgLink. `registry` and `link` say whether the pointer is not NULL. `queue` holds the
-- events of the sources that are attached to `main_context`, oldest first.
pub record Link : Type 0 where
  pub core : Option Core
  pub global : Option Global
  pub running : Bool
  pub bound : Bool
  pub state : Option String
  pub error : Option String
  pub registry : Bool
  pub link : Bool
  pub link_id : ℕ
  pub has_registry_listener : Bool
  pub has_link_listener : Bool
  pub generation : ℕ  -- unsigned int
  pub queue : List LinkEvent
  pub emitted : List LinkSignal

abbrev pub Handlers : Type 0
Handlers = LinkSignal → Link → Link

-- No handler is connected, or none that calls back into the link.
abbrev pub quiet : Handlers
quiet sig self = self

unfoldable pub emit : Handlers → LinkSignal → Link → Link
emit on sig self = on sig (record self { emitted = self.emitted ++ sig ∷ [] })

-- PipeWire's PW_TYPE_INTERFACE_Link
abbrev pub interface_link : String
interface_link = "PipeWire:Interface:Link"

-- pwg_link_init, pwg_link_constructed and pwg_link_new: only a link global has a wrapper
unfoldable pub link_new : Core → Global → Option Link
unfolding is_interface
link_new core global =
    if is_interface global interface_link
    then some (record {
      core = some core;
      global = some global;
      running = false;
      bound = false;
      state = none;
      error = none;
      registry = false;
      link = false;
      link_id = global.id;
      has_registry_listener = false;
      has_link_listener = false;
      generation = 0;
      queue = [];
      emitted = [];
    })
    else none
