-- ===== src/Registry/Session.antt =====
-- Sessions of a registry: what a start begins with, and what events of another session can do.
use pipewire_gobject.Prelude.{
  ℕ, ◌+◌, ◌≡◌, refl, sym, ap, subst, ◌∙◌, Bool, true, false, not, ◌||◌, Option, none, some, List,
  [], ◌∷◌, ◌++◌, ◌==◌, All, append-nil, append_assoc, arith, if◌then◌else◌, ◌⊎◌, inl, inr, if-both,
  if-cases, ==_refl,
}
use pipewire_gobject.Prelude.Word.{u32}
use pipewire_gobject.Error.{Outcome, ok, err, PwgError, failed, pipewire}
use pipewire_gobject.Core.Connection.{Core, ConnectAnswers, connect}
use pipewire_gobject.Registry.State.{Registry, RegistryEvent, Change, quiet, emit, notify_running}
use pipewire_gobject.Registry.Dispatch.{find_global, run_sources, drain, queue_event}
use pipewire_gobject.Registry.Lookup.{lookup_global}
use pipewire_gobject.Registry.Control.{listen, start_connected, start_core, start, receive}
use pipewire_gobject.Registry.Distinct.{lookup_in, Distinct}
use pipewire_gobject.Registry.Refinement.{Known, learn, learn_events, run_sources-Carries}

-- What a start of a registry that does not run can come to.
abbrev pub Starts : Registry → Outcome (Unit {0}) × Registry → Type 0
Starts self r =
    ((r.0 ≡ ok tt)
      × (r.1.running ≡ true)
      × (r.1.registry ≡ true)
      × (r.1.has_registry_listener ≡ true)
      × (r.1.generation ≡ u32 (self.generation + 1))
      × (r.1.globals ≡ self.globals)
      × (r.1.queue ≡ self.queue)
      × (r.1.emitted ≡ self.emitted ++ notify_running ∷ []))
    ⊎ ((e : PwgError) × (r.0 ≡ err e)
        × (r.1.running ≡ self.running)
        × (r.1.generation ≡ self.generation)
        × (r.1.globals ≡ self.globals)
        × (r.1.queue ≡ self.queue)
        × (r.1.emitted ≡ self.emitted))

listen-Starts :
    (registry_new : Bool) (self : Registry) (core : Core)
    → Starts self (listen quiet registry_new (record self { core = some core }))
unfolding listen emit
listen-Starts registry_new self core =
    if-both (Starts self) (not registry_new) (inr (pipewire, refl, refl, refl, refl, refl, refl))
      (inl (refl, refl, refl, refl, refl, refl, refl, refl))

start_connected-Starts :
    (registry_new : Bool) (self : Registry) (connected : Outcome (Unit {0})) (core : Core)
    → Starts self (start_connected quiet registry_new self connected core)
unfolding start_connected
start_connected-Starts registry_new self (err e) core = inr (e, refl, refl, refl, refl, refl, refl)
start_connected-Starts registry_new self (ok u) core =
    if-both (Starts self) (not core.thread_loop || not core.core)
      (inr (pipewire, refl, refl, refl, refl, refl, refl)) (listen-Starts registry_new self core)

start_core-Starts :
    (answers : ConnectAnswers) (registry_new : Bool) (self : Registry) (core : Option Core)
    → Starts self (start_core quiet answers registry_new self core)
unfolding start_core
start_core-Starts answers registry_new self none = inr (failed, refl, refl, refl, refl, refl, refl)
start_core-Starts answers registry_new self (some core) =
    start_connected-Starts registry_new self (connect answers core).0 (connect answers core).1

-- Where no handler calls back: a start of a registry that does not run either begins a session, with the proxy and its listener
-- there, a new generation and one notification, or it fails and leaves the session state, the list
-- and the signals as they were, whatever the connection and PipeWire answer.
pub start-Starts :
    (answers : ConnectAnswers) (registry_new : Bool) (self : Registry)
    → self.running ≡ false
    → Starts self (start quiet answers registry_new self)
unfolding start
start-Starts answers registry_new self h =
    if-cases (Starts self) self.running (λ e. absurd (ground (arith, e, h)))
      (λ _. start_core-Starts answers registry_new self self.core)

-- The events that changes become in a session.
abbrev pub events_of : ℕ → List Change → List RegistryEvent
events_of generation [] = []
events_of generation (change ∷ changes) =
    record { generation = generation; change = change } ∷ events_of generation changes

receive-eq :
    (self : Registry) (changes : List Change)
    → receive quiet self changes
      ≡ record self { queue = self.queue ++ events_of self.generation changes }
unfolding receive queue_event
receive-eq self [] = ap (λ queue. record self { queue = queue }) (sym (append-nil self.queue))
receive-eq self (change ∷ changes) =
    receive-eq (queue_event quiet false self change) changes
    ∙ ap (λ queue. record self { queue = queue })
        (append_assoc self.queue (record { generation = self.generation; change = change } ∷ [])
          (events_of self.generation changes))

-- What the changes say, one after the other.
abbrev pub learn_changes : Known → List Change → Known
learn_changes known [] = known
learn_changes known (change ∷ changes) = learn_changes (learn known change) changes

learn-stale :
    (generation : ℕ) (known : Known) (stale : List RegistryEvent) (changes : List Change)
    → All (λ event. (event.generation == generation) ≡ false) stale
    → learn_events generation known (stale ++ events_of generation changes)
      ≡ learn_changes known changes
learn-stale generation known [] [] all = refl
learn-stale generation known [] (change ∷ changes) all =
    let current : (if generation == generation then learn known change else known)
        ≡ learn known change =
      ap (λ b. if b then learn known change else known) (==_refl generation) in
    ap (λ k. learn_events generation k (events_of generation changes)) current
    ∙ learn-stale generation (learn known change) [] changes tt
learn-stale generation known (event ∷ stale) changes all =
    let ignored : (if event.generation == generation then learn known event.change else known)
        ≡ known =
      ap (λ b. if b then learn known event.change else known) all.0 in
    ap (λ k. learn_events generation k (stale ++ events_of generation changes)) ignored
    ∙ learn-stale generation known stale changes all.1

drain-receive :
    (self : Registry) (changes : List Change)
    → drain quiet (receive quiet self changes)
      ≡ run_sources quiet
          (record self { queue = [] })
          (self.queue ++ events_of self.generation changes)
unfolding drain
drain-receive self changes = ap (drain quiet) (receive-eq self changes)

lookup_in-nil : lookup_in [] ≡ (λ id. none)
unfolding find_global
lookup_in-nil = refl

-- What a session that has just begun makes of its changes.
abbrev pub Refines : Registry → List Change → Type 0
Refines now changes =
    ((id : ℕ) → lookup_global now id ≡ learn_changes (λ id. none) changes id) × Distinct now.globals

begun-Refines :
    (self : Registry) (changes : List Change)
    → self.running ≡ true
    → self.globals ≡ []
    → All (λ event. (event.generation == self.generation) ≡ false) self.queue
    → Refines (drain quiet (receive quiet self changes)) changes
unfolding lookup_global
begun-Refines self changes on empty stale =
    let r =
      run_sources-Carries (record self { queue = [] })
        (self.queue ++ events_of self.generation changes) (subst Distinct (sym empty) tt) on in
    subst (λ now. Refines now changes) (sym (drain-receive self changes))
      (
        λ id.
            r.knows id
            ∙ ap
                (λ known.
                  learn_events self.generation known
                    (self.queue ++ events_of self.generation changes) id)
                (ap lookup_in empty ∙ lookup_in-nil)
            ∙ ap (λ known. known id)
                (learn-stale self.generation (λ i. none) self.queue changes stale),
        r.distinct,
      )

-- Where no handler calls back, from a stopped registry with an empty list: a start that succeeds, changes from PipeWire, and the
-- main context running what is attached, which may include events that earlier sessions left
-- behind. The list then answers each id as the changes of this session say, in their order, and has
-- no id twice; nothing of an earlier session is in it. Earlier sessions are those whose generation
-- is not the one that the start gives, which holds for the last 2^32 - 1 of them.
pub session_refines :
    (answers : ConnectAnswers) (registry_new : Bool) (self : Registry) (changes : List Change)
    → self.running ≡ false
    → self.globals ≡ []
    → (start quiet answers registry_new self).0 ≡ ok tt
    → All (λ event. (event.generation == u32 (self.generation + 1)) ≡ false) self.queue
    → let now = drain quiet (receive quiet (start quiet answers registry_new self).1 changes) in
      ((id : ℕ) → lookup_global now id ≡ learn_changes (λ id. none) changes id)
      × Distinct now.globals
session_refines answers registry_new self changes off empty success stale =
    let begun : Registry = (start quiet answers registry_new self).1 in
    elim (start-Starts answers registry_new self off) [
      | inl (o, on, proxy, listener, g, list, queue, sent) ↦
          begun-Refines begun changes on (list ∙ empty) (
            subst (λ events. All (λ event. (event.generation == begun.generation) ≡ false) events)
              (sym queue)
              (subst (λ n. All (λ event. (event.generation == n) ≡ false) self.queue) (sym g)
                stale))
      | inr (e, o, _, _, _, _, _) ↦ absurd (ground (arith, success, o))
    ]
