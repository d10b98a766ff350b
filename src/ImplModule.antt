-- ===== src/ImplModule.antt =====
-- src/pwg-impl-module.c: the handle of a module that was loaded into PipeWire. `Lifetime` has the
-- proofs on when the module is destroyed.
pub mod Lifetime
mod Witnesses
use pipewire_gobject.Prelude.{
  ℕ, suc, String, Bool, true, false, not, Option, List, [], ◌∷◌, ◌++◌, if◌then◌else◌,
}

-- struct _PwgImplModule. `module` says whether the pointer is not NULL; `notified` is the value of
-- `loaded` at each notification so far, oldest first.
pub record ImplModule : Type 0 where
  pub name : String
  pub arguments : Option String
  pub loaded : Bool
  pub module_there : Bool
  pub has_module_listener : Bool
  pub notified : List Bool

-- _pwg_impl_module_new
unfoldable pub impl_module_new : String → Option String → ImplModule
impl_module_new name arguments = record {
  name = name;
  arguments = arguments;
  loaded = true;
  module_there = true;
  has_module_listener = true;
  notified = [];
}

unfoldable pub notify_loaded : ImplModule → ImplModule
notify_loaded self = record self { notified = self.notified ++ self.loaded ∷ [] }

-- pwg_impl_module_on_free
unfoldable pub on_free : ImplModule → ImplModule
unfolding notify_loaded
on_free self =
    let gone = record self { module_there = false; has_module_listener = false } in
    if gone.loaded then notify_loaded (record gone { loaded = false }) else gone

-- The handle, and the module of PipeWire that it was made for. `taken` is the pointer that a running
-- pwg_impl_module_unload has taken, with `was_loaded`; `faults` counts the destructions of a module
-- that PipeWire had freed before.
pub record Handle : Type 0 where
  pub self : ImplModule
  pub alive : Bool
  pub taken : Bool
  pub was_loaded : Bool
  pub faults : ℕ

-- pwg_impl_module_unload up to the lock of the thread loop
unfoldable pub unload_take : Handle → Handle
unload_take h = if not h.self.module_there then record h { taken = false } else record h {
  self = record h.self { module_there = false; loaded = false; has_module_listener = false };
  taken = true;
  was_loaded = h.self.loaded;
}

-- pw_impl_module_destroy: without a listener, PipeWire tells the handle nothing.
unfoldable pub destroy_module : Handle → Handle
destroy_module h =
    if h.alive then record h { alive = false } else record h { faults = suc h.faults }

-- pwg_impl_module_unload from the lock on, for an unload that has taken the pointer
unfoldable pub unload_destroy : Handle → Handle
unfolding destroy_module notify_loaded
unload_destroy h =
    if not h.taken
    then h
    else (let done = destroy_module (record h { taken = false }) in
        if done.was_loaded then record done { self = notify_loaded done.self } else done)

-- pwg_impl_module_unload
unfoldable pub unload : Handle → Handle
unfolding unload_take unload_destroy
unload h = unload_destroy (unload_take h)

-- PipeWire frees its module of its own accord, and calls the listener if it is there.
unfoldable pub pipewire_frees : Handle → Handle
unfolding on_free
pipewire_frees h =
    let freed = record h { alive = false } in
    if not h.alive
    then h
    else if h.self.has_module_listener
    then record freed { self = on_free h.self }
    else freed

-- The handle of a module that was just loaded.
unfoldable pub handle_new : String → Option String → Handle
unfolding impl_module_new
handle_new name arguments = record {
  self = impl_module_new name arguments;
  alive = true;
  taken = false;
  was_loaded = false;
  faults = 0;
}
