-- ===== src/Registry/Dispatch.antt =====
-- src/pwg-registry.c: events, from the PipeWire thread to the list of globals.
use pipewire_gobject.Prelude.{
  ℕ, zero, suc, String, Bool, not, ◌||◌, Option, none, some, List, [], ◌∷◌, ◌++◌, ◌==◌,
  if◌then◌else◌,
}
use pipewire_gobject.Global.{Global, DictItem, new_from_spa_dict}
use pipewire_gobject.Registry.State.{
  Registry, RegistryEvent, Change, added, removed, Handlers, emit, global_added, global_removed,
}

abbrev found_later : Option (Global × ℕ) → Option (Global × ℕ)
found_later none = none
found_later (some (global, position)) = some (global, suc position)

-- pwg_registry_find_global, with the position that it reports
unfoldable pub find_global : List Global → ℕ → Option (Global × ℕ)
find_global [] id = none
find_global (global ∷ globals) id =
    let later = found_later (find_global globals id) in
    if global.id == id then some (global, 0) else later

-- g_list_store_remove
unfoldable pub remove_at : List Global → ℕ → List Global
remove_at [] position = []
remove_at (global ∷ globals) zero = globals
remove_at (global ∷ globals) (suc position) = global ∷ remove_at globals position

-- What is left of the list when the global that was found, if one was, is removed.
abbrev pub without : List Global → Option (Global × ℕ) → List Global
without globals none = globals
without globals (some (existing, position)) = remove_at globals position

-- pwg_registry_dispatch_event for PWG_REGISTRY_EVENT_GLOBAL_ADDED
unfoldable pub dispatch_added : Handlers → Registry → Global → Registry
unfolding find_global remove_at emit
dispatch_added on self global = emit on (global_added global) (record self {
  globals = without self.globals (find_global self.globals global.id) ++ global ∷ [];
})

-- The removal of a global that was found, or not.
unfoldable pub remove_found : Handlers → Registry → Option (Global × ℕ) → Registry
unfolding remove_at emit
remove_found on self none = self
remove_found on self (some (existing, position)) =
    emit on (global_removed existing) (record self { globals = remove_at self.globals position })

unfoldable pub apply_change : Handlers → Registry → Change → Registry
unfolding dispatch_added find_global remove_found
apply_change on self (added global) = dispatch_added on self global
apply_change on self (removed id) = remove_found on self (find_global self.globals id)

-- pwg_registry_dispatch_event
unfoldable pub dispatch_event : Handlers → Registry → RegistryEvent → Registry
unfolding apply_change
dispatch_event on self event =
    if not self.running || not (event.generation == self.generation)
    then self
    else apply_change on self event.change

-- pwg_registry_queue_event. `direct` is GLib's choice in g_main_context_invoke_full: the event is
-- dispatched at once, or by a source of the main context.
unfoldable pub queue_event : Handlers → Bool → Registry → Change → Registry
unfolding dispatch_event
queue_event on direct self change =
    let event : RegistryEvent = record { generation = self.generation; change = change } in
    if direct
    then dispatch_event on self event
    else record self { queue = self.queue ++ event ∷ [] }

-- pwg_registry_on_global
unfoldable pub on_global :
    Handlers → Bool → Registry → ℕ → ℕ → Option String → ℕ → Option (List DictItem) → Registry
unfolding queue_event new_from_spa_dict
on_global on direct self id permissions interface_type version props =
    queue_event on direct self
      (added (new_from_spa_dict id permissions interface_type version props))

-- pwg_registry_on_global_remove
unfoldable pub on_global_remove : Handlers → Bool → Registry → ℕ → Registry
unfolding queue_event
on_global_remove on direct self id = queue_event on direct self (removed id)

-- The main context runs the sources that are attached, oldest first.
unfoldable pub run_sources : Handlers → Registry → List RegistryEvent → Registry
unfolding dispatch_event
run_sources on self [] = self
run_sources on self (event ∷ events) = run_sources on (dispatch_event on self event) events

unfoldable pub drain : Handlers → Registry → Registry
unfolding run_sources
drain on self = run_sources on (record self { queue = [] }) self.queue
