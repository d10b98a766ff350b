-- ===== src/Metadata/State.antt =====
-- src/pwg-metadata.c: struct _PwgMetadata, PwgMetadataEvent and the signals.
use pipewire_gobject.Prelude.{ℕ, String, Bool, false, Option, some, List, [], ◌∷◌, ◌++◌}
use pipewire_gobject.Core.Connection.{Core}
use pipewire_gobject.Metadata.Cache.{Entries}

-- PwgMetadataEventType, with the fields of the event that go with it
pub data MetadataReport : Type 0 where
  found : ℕ → ℕ → MetadataReport
  removed : ℕ → MetadataReport
  changed : ℕ → Option String → Option String → Option String → MetadataReport

-- PwgMetadataEvent
pub record MetadataEvent : Type 0 where
  pub generation : ℕ  -- unsigned int
  pub report : MetadataReport

-- What g_object_notify_by_pspec and g_signal_emit report to the application.
pub data MetadataSignal : Type 0 where
  notify_running notify_bound : MetadataSignal
  property_changed : ℕ → Option String → Option String → Option String → MetadataSignal

-- struct _PwgMetadata. `registry` and `metadata` say whether the pointer is not NULL. `queue` holds
-- the events of the sources that are attached to `main_context`, oldest first.
pub record Metadata : Type 0 where
  pub core : Option Core
  pub name : Option String
  pub running : Bool
  pub bound : Bool
  pub entries : Entries
  pub registry : Bool
  pub metadata : Bool
  pub metadata_id : ℕ
  pub has_registry_listener : Bool
  pub has_metadata_listener : Bool
  pub generation : ℕ  -- unsigned int
  pub queue : List MetadataEvent
  pub emitted : List MetadataSignal

abbrev pub Handlers : Type 0
Handlers = MetadataSignal → Metadata → Metadata

-- No handler is connected, or none that calls back into the object.
abbrev pub quiet : Handlers
quiet sig self = self

unfoldable pub emit : Handlers → MetadataSignal → Metadata → Metadata
emit on sig self = on sig (record self { emitted = self.emitted ++ sig ∷ [] })

-- pwg_metadata_init and pwg_metadata_new
unfoldable pub metadata_new : Core → String → Metadata
metadata_new core name = record {
  core = some core;
  name = some name;
  running = false;
  bound = false;
  entries = [];
  registry = false;
  metadata = false;
  metadata_id = 0;
  has_registry_listener = false;
  has_metadata_listener = false;
  generation = 0;
  queue = [];
  emitted = [];
}
