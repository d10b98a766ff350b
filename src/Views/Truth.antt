-- ===== src/Views/Truth.antt =====
-- The test of a property for truth, which the views of links and ports share.
use pipewire_gobject.Prelude.{String, Bool, false, ◌||◌, Option, none, some, str_eq}

-- g_ascii_strcasecmp (a, b) == 0
abbrev pub Strcasecmp : Type 0
Strcasecmp = String → String → Bool

-- pwg_link_info_property_is_true and pwg_port_info_property_is_true, on the value of the property
unfoldable pub is_true : Strcasecmp → Option String → Bool
is_true same none = false
is_true same (some value) = str_eq value "1" || same value "true" || same value "yes"
