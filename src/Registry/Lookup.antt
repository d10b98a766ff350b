-- ===== src/Registry/Lookup.antt =====
-- src/pwg-registry.c: the searches in the list of globals.
use pipewire_gobject.Prelude.{ℕ, String, Bool, Option, none, some, List, filter, find?, strcmp0_eq}
use pipewire_gobject.Global.{Global, GlobalKeys, dup_property, dup_media_class, is_interface}
use pipewire_gobject.Registry.State.{Registry}
use pipewire_gobject.Registry.Dispatch.{find_global}

-- pwg_registry_dup_matching_globals and pwg_registry_lookup_matching_global
unfoldable pub dup_matching_globals : Registry → (Global → Bool) → List Global
unfolding filter
dup_matching_globals self matches = filter matches self.globals

unfoldable pub lookup_matching_global : Registry → (Global → Bool) → Option Global
unfolding find?
lookup_matching_global self matches = find? matches self.globals

-- pwg_registry_match_property, pwg_registry_match_interface and pwg_registry_match_media_class
unfoldable pub match_property : String → String → Global → Bool
unfolding dup_property
match_property key value global = strcmp0_eq (dup_property global key) (some value)

unfoldable pub match_media_class : GlobalKeys → String → Global → Bool
unfolding dup_media_class
match_media_class keys media_class global =
    strcmp0_eq (dup_media_class keys global) (some media_class)

abbrev pub global_of : Option (Global × ℕ) → Option Global
global_of none = none
global_of (some found) = some found.0

-- pwg_registry_lookup_global
unfoldable pub lookup_global : Registry → ℕ → Option Global
unfolding find_global
lookup_global self id = global_of (find_global self.globals id)

-- pwg_registry_lookup_global_by_property
unfoldable pub lookup_global_by_property : Registry → String → String → Option Global
unfolding lookup_matching_global match_property
lookup_global_by_property self key value = lookup_matching_global self (match_property key value)

-- pwg_registry_lookup_global_by_object_serial
unfoldable pub lookup_global_by_object_serial : GlobalKeys → Registry → String → Option Global
unfolding lookup_global_by_property
lookup_global_by_object_serial keys self object_serial =
    lookup_global_by_property self keys.object_serial object_serial

-- pwg_registry_dup_globals_by_property
unfoldable pub dup_globals_by_property : Registry → String → String → List Global
unfolding dup_matching_globals match_property
dup_globals_by_property self key value = dup_matching_globals self (match_property key value)

-- pwg_registry_dup_globals_by_interface
unfoldable pub dup_globals_by_interface : Registry → String → List Global
unfolding dup_matching_globals is_interface
dup_globals_by_interface self interface_type =
    dup_matching_globals self (λ global. is_interface global interface_type)

-- pwg_registry_dup_globals_by_media_class
unfoldable pub dup_globals_by_media_class : GlobalKeys → Registry → String → List Global
unfolding dup_matching_globals match_media_class
dup_globals_by_media_class keys self media_class =
    dup_matching_globals self (match_media_class keys media_class)
