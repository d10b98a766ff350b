-- ===== src/Core/Connection.antt =====
-- src/pwg-core.c: struct _PwgCore, connect, disconnect, the properties and the loading of modules.
use pipewire_gobject.Prelude.{
  String, Bool, true, false, not, Option, none, some, List, [], ◌∷◌, ◌++◌, ltb, length, str_eq,
  if◌then◌else◌,
}
use pipewire_gobject.Prelude.Int.{ℤ, is_negative}
use pipewire_gobject.Properties.{replace, remove}
use pipewire_gobject.Error.{Outcome, ok, err, failed, no_memory, pipewire}

-- struct _PwgCore. A PipeWire object is the Bool that says whether its pointer is not NULL.
-- `notified` is the value of `connected` at each notification so far, oldest first.
pub record Core : Type 0 where
  pub thread_loop : Bool
  pub context : Bool
  pub core : Bool
  pub pipewire_properties : List (String × String)
  pub connected : Bool
  pub notified : List Bool

-- What PipeWire answers to the calls of pwg_core_connect: whether a pointer is not NULL, or the
-- result.
pub record ConnectAnswers : Type 0 where
  pub thread_loop_new : Bool
  pub context_new : Bool
  pub properties_new : Bool
  pub properties_set : String → String → ℤ
  pub context_connect : List (String × String) → Bool
  pub thread_loop_start : ℤ

-- pwg_core_init and pwg_core_new
unfoldable pub core_new : Core
core_new = record {
  thread_loop = false;
  context = false;
  core = false;
  pipewire_properties = [];
  connected = false;
  notified = [];
}

unfoldable pub notify_connected : Core → Core
notify_connected self = record self { notified = self.notified ++ self.connected ∷ [] }

-- pwg_core_disconnect
unfoldable pub disconnect : Core → Core
unfolding notify_connected
disconnect self =
    let closed = record self {
      connected = false;
      core = false;
      context = false;
      thread_loop = false;
    } in
    if self.connected then notify_connected closed else closed

-- Whether every pw_properties_set of the loop over the table succeeds.
unfoldable pub copies : ConnectAnswers → List (String × String) → Bool
copies answers [] = true
copies answers ((key, value) ∷ table) =
    let rest = copies answers table in
    if is_negative (answers.properties_set key value) then false else rest

-- pwg_core_connect from pw_context_connect on
unfoldable pub connect_context : ConnectAnswers → Core → Outcome (Unit {0}) × Core
unfolding disconnect notify_connected
connect_context answers self =
    if not (answers.context_connect self.pipewire_properties)
    then (err pipewire, disconnect (record self { core = false }))
    else if is_negative answers.thread_loop_start
    then (err pipewire, disconnect (record self { core = true }))
    else (ok tt, notify_connected (record self { core = true; connected = true }))

-- pwg_core_connect
unfoldable pub connect : ConnectAnswers → Core → Outcome (Unit {0}) × Core
unfolding disconnect copies connect_context
connect answers self =
    if self.connected
    then (ok tt, self)
    else (let looping = record self { thread_loop = true } in
        let ready = record looping { context = true } in
        let filled = ltb 0 (length self.pipewire_properties) in
        if not answers.thread_loop_new
        then (err pipewire, record self { thread_loop = false })
        else if not answers.context_new
        then (err pipewire, disconnect (record looping { context = false }))
        else if filled
        then if not answers.properties_new
          then (err no_memory, disconnect ready)
          else if not (copies answers self.pipewire_properties)
          then (err no_memory, disconnect ready)
          else connect_context answers ready
        else connect_context answers ready)

-- pwg_core_set_pipewire_property
unfoldable pub set_property : Core → Option String → Option String → Outcome (Unit {0}) × Core
set_property self none value = (err failed, self)
set_property self (some key) none =
    if str_eq key ""
    then (err failed, self)
    else if self.connected
    then (err failed, self)
    else (ok tt, record self { pipewire_properties = remove key self.pipewire_properties })
set_property self (some key) (some value) =
    if str_eq key ""
    then (err failed, self)
    else if self.connected
    then (err failed, self)
    else (ok tt, record self { pipewire_properties = replace key value self.pipewire_properties })

-- pwg_core_load_module behind the connection attempt.
unfoldable pub load_connected :
    (String → Option String → Bool)
    → String
    → Option String
    → Outcome (Unit {0})
    → Core
    → Outcome (String × Option String) × Core
load_connected loads name arguments (err e) self = (err e, self)
load_connected loads name arguments (ok u) self =
    if not self.thread_loop
    then (err pipewire, self)
    else if not self.context
    then (err pipewire, self)
    else if not (loads name arguments)
    then (err pipewire, self)
    else (ok (name, arguments), self)

-- pwg_core_load_module; `loads` says whether pw_context_load_module gives a module, and the result
-- is the name and the arguments of the PwgImplModule.
unfoldable pub load_module :
    ConnectAnswers
    → (String → Option String → Bool)
    → Core
    → String
    → Option String
    → Outcome (String × Option String) × Core
unfolding connect load_connected
load_module answers loads self name arguments =
    if str_eq name ""
    then (err failed, self)
    else load_connected loads name arguments (connect answers self).0 (connect answers self).1
