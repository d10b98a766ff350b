-- ===== src/Metadata/Operations.antt =====
-- src/pwg-metadata.c: the events of a metadata object, those of the PipeWire thread included.
use pipewire_gobject.Prelude.{
  ℕ, String, Bool, true, false, not, ◌||◌, Option, none, some, List, [], ◌∷◌, ◌++◌, ◌==◌, ltb,
  strcmp0_eq, if◌then◌else◌,
}
use pipewire_gobject.Prelude.Int.{ℤ, is_negative}
use pipewire_gobject.Core.Connection.{Core}
use pipewire_gobject.Global.{DictItem}
use pipewire_gobject.Metadata.Cache.{cache_change, lookup_spa_dict}
use pipewire_gobject.Metadata.State.{
  Metadata, MetadataEvent, MetadataReport, found, removed, changed, Handlers, emit, notify_running,
  notify_bound, property_changed,
}

abbrev pub has_thread_loop : Option Core → Bool
has_thread_loop none = false
has_thread_loop (some core) = core.thread_loop

unfoldable pub set_unbound : Handlers → Metadata → Metadata
unfolding emit
set_unbound on self =
    if self.bound then emit on notify_bound (record self { bound = false }) else self

unfoldable pub set_stopped : Handlers → Metadata → Metadata
unfolding emit
set_stopped on self =
    if self.running then emit on notify_running (record self { running = false }) else self

-- pwg_metadata_destroy_bound_proxy: the proxy and its listener go in both branches, and the cache
-- is emptied after the notification
unfoldable pub destroy_bound_proxy : Handlers → Metadata → Metadata
unfolding set_unbound
destroy_bound_proxy on self =
    let unbound =
      set_unbound on
        (record self { metadata = false; has_metadata_listener = false; metadata_id = 0 }) in
    record unbound { entries = [] }

-- What PipeWire answers to the binding of a metadata global.
pub record BindAnswers : Type 0 where
  pub bind : ℕ → ℕ → Bool
  pub add_listener : ℤ

-- PipeWire's PW_VERSION_METADATA
abbrev version_metadata : ℕ
version_metadata = 3

-- pwg_metadata_bind
unfoldable pub bind : Handlers → BindAnswers → Metadata → ℕ → ℕ → Bool × Metadata
unfolding emit
bind on answers self id version =
    if self.bound || self.metadata
    then (true, self)
    else if not (has_thread_loop self.core) || not self.registry
    then (false, self)
    else if not
        (answers.bind id (if ltb version version_metadata then version else version_metadata))
    then (false, self)
    else if is_negative answers.add_listener
    then (false, self)
    else (
      true,
      emit on notify_bound (record self {
        metadata = true;
        metadata_id = id;
        has_metadata_listener = true;
        bound = true;
      }),
    )

unfoldable pub apply_change :
    Handlers → Metadata → ℕ → Option String → Option String → Option String → Metadata
unfolding cache_change emit
apply_change on self subject key value_type value =
    emit on (property_changed subject key value_type value)
      (record self { entries = cache_change self.entries subject key value_type value })

unfoldable pub apply_report : Handlers → BindAnswers → Metadata → MetadataReport → Metadata
unfolding bind destroy_bound_proxy apply_change
apply_report on answers self (found id version) = (bind on answers self id version).1
apply_report on answers self (removed id) =
    if self.metadata_id == id then destroy_bound_proxy on self else self
apply_report on answers self (changed subject key value_type value) =
    apply_change on self subject key value_type value

-- pwg_metadata_dispatch_event
unfoldable pub dispatch_event : Handlers → BindAnswers → Metadata → MetadataEvent → Metadata
unfolding apply_report
dispatch_event on answers self event =
    if not self.running || not (event.generation == self.generation)
    then self
    else apply_report on answers self event.report

-- pwg_metadata_queue_event; `direct` is GLib's choice in g_main_context_invoke_full
unfoldable pub queue_event : Handlers → BindAnswers → Bool → Metadata → MetadataReport → Metadata
unfolding dispatch_event
queue_event on answers direct self report =
    let event : MetadataEvent = record { generation = self.generation; report = report } in
    if direct
    then dispatch_event on answers self event
    else record self { queue = self.queue ++ event ∷ [] }

-- pwg_metadata_on_property
unfoldable pub on_property :
    Handlers
    → BindAnswers
    → Bool
    → Metadata
    → ℕ
    → Option String
    → Option String
    → Option String
    → Metadata
unfolding queue_event
on_property on answers direct self subject key value_type value =
    queue_event on answers direct self (changed subject key value_type value)

-- PipeWire's PW_TYPE_INTERFACE_Metadata and PW_KEY_METADATA_NAME
abbrev pub interface_metadata : String
interface_metadata = "PipeWire:Interface:Metadata"

abbrev pub key_metadata_name : String
key_metadata_name = "metadata.name"

-- pwg_metadata_on_global
unfoldable pub on_global :
    Handlers
    → BindAnswers
    → Bool
    → Metadata
    → ℕ
    → Option String
    → ℕ
    → Option (List DictItem)
    → Metadata
unfolding queue_event lookup_spa_dict
on_global on answers direct self id global_type version props =
    if not (strcmp0_eq global_type (some interface_metadata))
    then self
    else if not (strcmp0_eq (lookup_spa_dict props key_metadata_name) self.name)
    then self
    else queue_event on answers direct self (found id version)

-- pwg_metadata_on_global_remove
unfoldable pub on_global_remove : Handlers → BindAnswers → Bool → Metadata → ℕ → Metadata
unfolding queue_event
on_global_remove on answers direct self id = queue_event on answers direct self (removed id)

-- The main context runs the sources that are attached, oldest first.
unfoldable pub run_sources : Handlers → BindAnswers → Metadata → List MetadataEvent → Metadata
unfolding dispatch_event
run_sources on answers self [] = self
run_sources on answers self (event ∷ events) =
    run_sources on answers (dispatch_event on answers self event) events
