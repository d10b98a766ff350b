-- ===== src/Registry/Ending.antt =====
-- The end of a session of a registry: a stop, and the loss of the core.
use pipewire_gobject.Prelude.{
  ◌+◌, ◌≡◌, refl, ap, ◌∙◌, true, false, not, ◌&&◌, some, [], ◌∷◌, ◌++◌, arith, if-both, if-cases,
}
use pipewire_gobject.Prelude.Word.{u32}
use pipewire_gobject.Core.Connection.{Core, disconnect}
use pipewire_gobject.Core.Connecting.{disconnect-IsConsistent}
use pipewire_gobject.Registry.State.{Registry, quiet, emit, notify_running}
use pipewire_gobject.Registry.Control.{
  halt, reset, stop, release, lose_core, on_core_connected_notify, has_thread_loop,
}

release-same :
    (self : Registry)
    → ((release self).running ≡ self.running)
      × ((release self).generation ≡ self.generation)
      × ((release self).queue ≡ self.queue)
      × ((release self).emitted ≡ self.emitted)
unfolding release
release-same self =
    if-both
      (λ (now : Registry).
        (now.running ≡ self.running)
        × (now.generation ≡ self.generation)
        × (now.queue ≡ self.queue)
        × (now.emitted ≡ self.emitted))
      (has_thread_loop self.core && self.registry) (refl, refl, refl, refl) (refl, refl, refl, refl)

halt_running :
    (self : Registry)
    → self.running ≡ true
    → let now = halt quiet self in
      (now.running ≡ false)
      × (now.globals ≡ [])
      × (now.generation ≡ self.generation)
      × (now.queue ≡ self.queue)
      × (now.emitted ≡ self.emitted ++ notify_running ∷ [])
unfolding halt emit
halt_running self on = ground (arith, on)

abbrev pub Ended : Registry → Registry → Type 0
Ended self now =
    (now.running ≡ false)
    × (now.globals ≡ [])
    × (now.generation ≡ u32 (self.generation + 1))
    × (now.queue ≡ self.queue)
    × (now.emitted ≡ self.emitted ++ notify_running ∷ [])

-- Where no handler calls back: a stop of a registry that runs ends the session: the registry does not run, the list is empty,
-- the generation is new, what is attached to the main context stays, and there is one notification.
pub stop_ends : (self : Registry) → self.running ≡ true → Ended self (stop quiet self)
unfolding stop
stop_ends self on =
    let (r, g, q, s) = release-same self in
    let freed : Registry = record (release self) {
      generation = u32 ((release self).generation + 1);
    } in
    let (h0, h1, h2, h3, h4) = halt_running freed (r ∙ on) in
    if-cases (Ended self) (not self.running && not self.registry)
      (λ e. absurd (ground (arith, e, on)))
      (λ _. (
        h0,
        h1,
        h2 ∙ ap (λ n. u32 (n + 1)) g,
        h3 ∙ q,
        h4 ∙ ap (λ old. old ++ notify_running ∷ []) s,
      ))

halt-proxy :
    (self : Registry)
    → let now = halt quiet self in
      (now.registry ≡ self.registry) × (now.has_registry_listener ≡ self.has_registry_listener)
unfolding halt emit
halt-proxy self = ground arith

-- Where no handler calls back: the loss of a connected core ends the session in the same way, and forgets the proxy and its
-- listener.
pub lose_core_ends :
    (self : Registry) (core : Core)
    → core.connected ≡ true
    → self.running ≡ true
    → let now = lose_core quiet self core in
      Ended self now × (now.registry ≡ false) × (now.has_registry_listener ≡ false)
unfolding lose_core on_core_connected_notify reset
lose_core_ends self core connected on =
    let P : Registry → Type 0 =
      λ now. Ended self now × (now.registry ≡ false) × (now.has_registry_listener ≡ false) in
    let forgotten : Registry = record self {
      core = some (disconnect core);
      registry = false;
      has_registry_listener = false;
      generation = u32 (self.generation + 1);
    } in
    if-cases P core.connected
      (λ _.
        if-cases P (disconnect core).connected
          (λ e. absurd (ground (arith, e, (disconnect-IsConsistent core).0)))
          (λ _. (halt_running forgotten on, (halt-proxy forgotten).0, (halt-proxy forgotten).1)))
      (λ e. absurd (ground (arith, e, connected)))
