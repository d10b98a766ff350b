-- ===== src/Registry/State.antt =====
-- src/pwg-registry.c: struct _PwgRegistry, PwgRegistryEvent and the signals.
use pipewire_gobject.Prelude.{ℕ, Bool, false, Option, some, List, [], ◌∷◌, ◌++◌}
use pipewire_gobject.Global.{Global}
use pipewire_gobject.Core.Connection.{Core}

-- PwgRegistryEventType, with the field of the event that goes with it
pub data Change : Type 0 where
  added : Global → Change
  removed : ℕ → Change

-- PwgRegistryEvent
pub record RegistryEvent : Type 0 where
  pub generation : ℕ  -- unsigned int
  pub change : Change

-- What g_object_notify_by_pspec and g_signal_emit report to the application.
pub data RegistrySignal : Type 0 where
  notify_running : RegistrySignal
  global_added global_removed : Global → RegistrySignal

-- struct _PwgRegistry. `registry` says whether the pointer is not NULL. `queue` holds the events of
-- the sources that are attached to `main_context`, oldest first, and `emitted` the signals so far.
pub record Registry : Type 0 where
  pub core : Option Core
  pub running : Bool
  pub globals : List Global
  pub registry : Bool
  pub has_registry_listener : Bool
  pub generation : ℕ  -- unsigned int
  pub queue : List RegistryEvent
  pub emitted : List RegistrySignal

-- What the handlers of the application leave of the registry when a signal reaches them.
abbrev pub Handlers : Type 0
Handlers = RegistrySignal → Registry → Registry

-- No handler is connected, or none that calls back into the registry.
abbrev pub quiet : Handlers
quiet sig self = self

unfoldable pub emit : Handlers → RegistrySignal → Registry → Registry
emit on sig self = on sig (record self { emitted = self.emitted ++ sig ∷ [] })

-- pwg_registry_init and pwg_registry_new
unfoldable pub registry_new : Core → Registry
registry_new core = record {
  core = some core;
  running = false;
  globals = [];
  registry = false;
  has_registry_listener = false;
  generation = 0;
  queue = [];
  emitted = [];
}
