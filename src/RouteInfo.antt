-- ===== src/RouteInfo.antt =====
-- src/pwg-route-info.c: the descriptor of a route of a device, read from a parameter. `Dictionary`
-- has the proof on its dictionary. The parser of SPA is a parameter.
pub mod Dictionary
mod Witnesses
use pipewire_gobject.Prelude.{
  ℕ, zero, suc, String, Bool, not, ◌&&◌, Option, none, some, List, [], ◌∷◌, ◌==◌, if◌then◌else◌,
}
use pipewire_gobject.Prelude.Int.{ℤ, pos, negsuc, is_negative}
use pipewire_gobject.Param.Pod.{Param, PodLayout, read_u32, get_pod, pod_type}

-- SPA's struct spa_pod_parser, over a state `P` of its own. A call gives its result, which is
-- negative where it fails, the value, and the state after it. `Inner` is a POD inside of another.
pub record Parser (P Inner : Type 0) : Type 0 where
  pub is_struct : Inner → Bool
  pub start : Inner → P
  pub push_struct : P → ℤ × P
  pub get_int : P → ℤ × ℤ × P
  pub get_string : P → ℤ × Option String × P

-- The variables that spa_pod_parse_object fills.
pub record RouteFields (Inner : Type 0) : Type 0 where
  pub index : ℤ
  pub device : ℤ
  pub profile : ℤ
  pub priority : ℤ
  pub direction : ℕ
  pub available : ℕ
  pub name : Option String
  pub description : Option String
  pub info : Option Inner

-- The constants of SPA, and spa_pod_parse_object of a route: fields that are not there stay as they
-- are.
pub record RouteSpa (Inner : Type 0) : Type 0 where
  pub param_route : ℕ
  pub param_enum_route : ℕ
  pub object_param_route : ℕ
  pub direction_input : ℕ
  pub direction_output : ℕ
  pub availability_unknown : ℕ
  pub availability_no : ℕ
  pub availability_yes : ℕ
  pub parse_object : List ℕ → RouteFields Inner → Option (RouteFields Inner)

-- SPA_ID_INVALID
abbrev id_invalid : ℕ
id_invalid = 4294967295

-- struct _PwgRouteInfo; `info` is the a{ss} variant, in order
pub record RouteInfo : Type 0 where
  pub index : ℤ
  pub device : ℤ
  pub profile : ℤ
  pub priority : ℤ
  pub direction_id : ℕ
  pub available_id : ℕ
  pub name : Option String
  pub description : Option String
  pub info : List (String × String)

-- g_variant_builder_add of a pair, where neither is NULL
unfoldable pub add_entry :
    Option String → Option String → List (String × String) → List (String × String)
add_entry none value rest = rest
add_entry (some key) none rest = rest
add_entry (some key) (some value) rest = (key, value) ∷ rest

module _ {P Inner : Type 0} (parser : Parser P Inner) where
  -- The loop of pwg_route_info_parse_info, on the items left.
  unfoldable pub parse_items : ℕ → P → List (String × String)
  unfolding add_entry
  parse_items zero p = []
  parse_items (suc n) p =
      let key = parser.get_string p in
      let value = parser.get_string key.2 in
      let rest = parse_items n value.2 in
      if is_negative key.0
      then []
      else if is_negative value.0
      then []
      else add_entry key.1 value.1 rest

  -- Rounds of a loop up to an int32_t.
  unfoldable pub rounds : ℤ → ℕ
  rounds (pos n) = n
  rounds (negsuc n) = zero

  -- pwg_route_info_parse_info
  unfoldable pub parse_info : Option Inner → List (String × String)
  unfolding parse_items rounds
  parse_info none = []
  parse_info (some pod) =
      let pushed = parser.push_struct (parser.start pod) in
      let count = parser.get_int pushed.1 in
      let items = parse_items (rounds count.1) count.2 in
      if not (parser.is_struct pod)
      then []
      else if is_negative pushed.0
      then []
      else if is_negative count.0
      then []
      else if is_negative count.1
      then []
      else items

  module _ (layout : PodLayout) (spa : RouteSpa Inner) where
    -- pwg_route_info_new_from_param from spa_pod_parse_object on
    unfoldable pub new_from_pod : List ℕ → Option RouteInfo
    unfolding parse_info
    new_from_pod pod =
        elim (spa.parse_object pod (record {
          index = negsuc 0;
          device = negsuc 0;
          profile = negsuc 0;
          priority = negsuc 0;
          direction = id_invalid;
          available = id_invalid;
          name = none;
          description = none;
          info = none;
        })) [
          | none ↦ none
          | some fields ↦ some (record {
            index = fields.index;
            device = fields.device;
            profile = fields.profile;
            priority = fields.priority;
            direction_id = fields.direction;
            available_id = fields.available;
            name = fields.name;
            description = fields.description;
            info = parse_info fields.info;
          })
        ]

    -- The tests of the type and of the object type; the outer `none` is a read outside of the bytes.
    unfoldable pub new_from_object : List ℕ → Option (Option RouteInfo)
    unfolding pod_type read_u32 new_from_pod
    new_from_object pod = elim (pod_type layout pod) [
      | none ↦ none
      | some type ↦
          if not (type == layout.type_object)
          then some none
          else elim (read_u32 pod layout.object_type_at) [
            | none ↦ none
            | some object_type ↦
                if not (object_type == spa.object_param_route)
                then some none
                else some (new_from_pod pod)
          ]
    ]

    -- pwg_route_info_new_from_param
    unfoldable pub new_from_param : Param → Option (Option RouteInfo)
    unfolding get_pod new_from_object
    new_from_param param =
        if not (param.id == spa.param_route) && not (param.id == spa.param_enum_route)
        then some none
        else elim (get_pod layout param) [
          | none ↦ none
          | some none ↦ some none
          | some (some pod) ↦ new_from_object pod
        ]

module _ {Inner : Type 0} (spa : RouteSpa Inner) where
  -- pwg_route_info_direction_name
  unfoldable pub direction_name : ℕ → Option String
  direction_name direction =
      if direction == spa.direction_input
      then some "input"
      else if direction == spa.direction_output
      then some "output"
      else none

  -- pwg_route_info_availability_name
  unfoldable pub availability_name : ℕ → Option String
  availability_name available =
      if available == spa.availability_unknown
      then some "unknown"
      else if available == spa.availability_no
      then some "no"
      else if available == spa.availability_yes
      then some "yes"
      else none

  -- pwg_route_info_dup_direction
  unfoldable pub dup_direction : RouteInfo → Option String
  unfolding direction_name
  dup_direction self = direction_name self.direction_id

  -- pwg_route_info_dup_availability
  unfoldable pub dup_availability : RouteInfo → Option String
  unfolding availability_name
  dup_availability self = availability_name self.available_id
