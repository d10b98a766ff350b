-- ===== src/ImplModule/Lifetime.antt =====
-- When the module behind a handle is destroyed: once, where an unload is not interrupted.
use pipewire_gobject.Prelude.{◌≡◌, refl, String, true, false, Option, List, [], ◌∷◌, arith}
use pipewire_gobject.ImplModule.{
  impl_module_new, notify_loaded, on_free, Handle, unload_take, destroy_module, unload_destroy,
  unload, pipewire_frees, handle_new,
}

-- The handle says what PipeWire has, no unload is running, and no freed module was destroyed.
pub record IsSound (h : Handle) : Type 0 where
  pub pointer : h.self.module_there ≡ h.alive
  pub loaded : h.self.loaded ≡ h.alive
  pub listener : h.self.has_module_listener ≡ h.alive
  pub idle : h.taken ≡ false
  pub safe : h.faults ≡ 0

pub data Event : Type 0 where
  unloads frees : Event

unfoldable pub step : Handle → Event → Handle
unfolding unload pipewire_frees
step h unloads = unload h
step h frees = pipewire_frees h

unfoldable pub run : Handle → List Event → Handle
unfolding step
run h [] = h
run h (event ∷ events) = run (step h event) events

step-IsSound : (h : Handle) (event : Event) → IsSound h → IsSound (step h event)
unfolding step unload unload_take unload_destroy destroy_module notify_loaded pipewire_frees on_free
step-IsSound h unloads w = ground (arith, w.pointer, w.loaded, w.listener, w.idle, w.safe)
step-IsSound h frees w = ground (arith, w.pointer, w.loaded, w.listener, w.idle, w.safe)

run-IsSound : (h : Handle) (events : List Event) → IsSound h → IsSound (run h events)
unfolding run
run-IsSound h [] w = w
run-IsSound h (event ∷ events) w = run-IsSound (step h event) events (step-IsSound h event w)

handle_new-IsSound :
    (name : String) (arguments : Option String) → IsSound (handle_new name arguments)
unfolding handle_new impl_module_new
handle_new-IsSound name arguments = record {
  pointer = refl;
  loaded = refl;
  listener = refl;
  idle = refl;
  safe = refl;
}

-- Where PipeWire frees nothing while an unload runs: after every history of unloads and of frees by
-- PipeWire, the handle of a new module has the pointer, the listener and the flag `loaded` just
-- while PipeWire has the module, and no module was destroyed after PipeWire had freed it.
pub module_history-IsSound :
    (name : String) (arguments : Option String) (events : List Event)
    → IsSound (run (handle_new name arguments) events)
module_history-IsSound name arguments events =
    run-IsSound (handle_new name arguments) events (handle_new-IsSound name arguments)

-- An unload takes the pointer and removes the listener before it has the lock. If PipeWire frees
-- the module in between, the unload destroys a module that is no more: for every sound handle whose
-- module is there.
pub unload_race :
    (h : Handle)
    → IsSound h
    → h.alive ≡ true
    → (unload_destroy (pipewire_frees (unload_take h))).faults ≡ 1
unfolding unload_take unload_destroy destroy_module notify_loaded pipewire_frees on_free
unload_race h w alive = ground (arith, w.pointer, w.loaded, w.listener, w.idle, w.safe, alive)
