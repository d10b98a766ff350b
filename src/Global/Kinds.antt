-- ===== src/Global/Kinds.antt =====
-- src/pwg-global.c: the tests for the six interfaces, and the getters.
use pipewire_gobject.Prelude.{ℕ, String, Bool, Option, List}
use pipewire_gobject.Global.{Global, is_interface}

-- pwg_global_is_node
unfoldable pub is_node : Global → Bool
unfolding is_interface
is_node self = is_interface self "PipeWire:Interface:Node"

-- pwg_global_is_client
unfoldable pub is_client : Global → Bool
unfolding is_interface
is_client self = is_interface self "PipeWire:Interface:Client"

-- pwg_global_is_device
unfoldable pub is_device : Global → Bool
unfolding is_interface
is_device self = is_interface self "PipeWire:Interface:Device"

-- pwg_global_is_link
unfoldable pub is_link : Global → Bool
unfolding is_interface
is_link self = is_interface self "PipeWire:Interface:Link"

-- pwg_global_is_port
unfoldable pub is_port : Global → Bool
unfolding is_interface
is_port self = is_interface self "PipeWire:Interface:Port"

-- pwg_global_is_metadata
unfoldable pub is_metadata : Global → Bool
unfolding is_interface
is_metadata self = is_interface self "PipeWire:Interface:Metadata"

-- pwg_global_get_id
unfoldable pub get_id : Global → ℕ
get_id self = self.id

-- pwg_global_get_permissions
unfoldable pub get_permissions : Global → ℕ
get_permissions self = self.permissions

-- pwg_global_get_interface_type
unfoldable pub get_interface_type : Global → Option String
get_interface_type self = self.interface_type

-- pwg_global_get_version
unfoldable pub get_version : Global → ℕ
get_version self = self.version

-- pwg_global_get_properties
unfoldable pub get_properties : Global → List (String × String)
get_properties self = self.properties
