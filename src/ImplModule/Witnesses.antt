-- ===== src/ImplModule/Witnesses.antt =====
-- The theorems on modules at a concrete module.
use pipewire_gobject.Prelude.{◌≡◌, refl, none, List, [], ◌∷◌}
use pipewire_gobject.ImplModule.{
  handle_new, unload_take, unload_destroy, pipewire_frees, impl_module_new,
}
use pipewire_gobject.ImplModule.Lifetime.{
  IsSound, Event, unloads, frees, run, module_history-IsSound, unload_race,
}

abbrev life : List Event
life = frees ∷ unloads ∷ unloads ∷ []

module_history-IsSound_example : IsSound (run (handle_new "libpipewire-module-loopback" none) life)
module_history-IsSound_example = module_history-IsSound "libpipewire-module-loopback" none life

loaded-IsSound : IsSound (run (handle_new "libpipewire-module-loopback" none) [])
loaded-IsSound = module_history-IsSound "libpipewire-module-loopback" none []

unload_race_example :
    (unload_destroy (
      pipewire_frees (unload_take (run (handle_new "libpipewire-module-loopback" none) [])))).faults
    ≡ 1
unfolding run handle_new impl_module_new
unload_race_example =
    unload_race (run (handle_new "libpipewire-module-loopback" none) []) loaded-IsSound refl
