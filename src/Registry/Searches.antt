-- ===== src/Registry/Searches.antt =====
-- The searches of the registry, and what a sync promises of them.
use pipewire_gobject.Prelude.Arrivals.{at_once, attached}
use pipewire_gobject.Prelude.{
  ap, fun_ext, ℕ, ◌≡◌, refl, sym, subst, ◌∙◌, String, Bool, true, Option, none, some, List, [], ◌∷◌,
  ◌++◌, All, filter, find?, arith, if-cases,
}
use pipewire_gobject.Error.{Outcome, ok, err}
use pipewire_gobject.Global.{Global}
use pipewire_gobject.Core.Connection.{Core, ConnectAnswers}
use pipewire_gobject.Core.Sync.{SyncAnswers, Wake, sync}
use pipewire_gobject.Registry.State.{Registry, Change, quiet}
use pipewire_gobject.Registry.Dispatch.{drain}
use pipewire_gobject.Registry.Lookup.{
  lookup_global, lookup_global_by_property, dup_globals_by_property, match_property,
}
use pipewire_gobject.Registry.Control.{sync_running, sync_ended, arrive}
use pipewire_gobject.Registry.Distinct.{lookup_in, Distinct}
use pipewire_gobject.Registry.Refinement.{learn_events, run_sources-Carries}
use pipewire_gobject.Registry.Session.{events_of, learn_changes}
use pipewire_gobject.Registry.Arriving.{arrive-Arrived}

abbrev pub first_of : List Global → Option Global
first_of [] = none
first_of (global ∷ globals) = some global

find?-filter :
    (matches : Global → Bool) (globals : List Global)
    → find? matches globals ≡ first_of (filter matches globals)
unfolding find? filter
find?-filter matches [] = refl
find?-filter matches (global ∷ globals) = ground (arith, find?-filter matches globals)

filter-All :
    (matches : Global → Bool) (globals : List Global)
    → All (λ global. matches global ≡ true) (filter matches globals)
unfolding filter
filter-All matches [] = tt
filter-All matches (global ∷ globals) =
    if-cases (All (λ g. matches g ≡ true)) (matches global) (λ e. (e, filter-All matches globals))
      (λ _. filter-All matches globals)

-- The global found by a property is the first of the snapshot of all globals with the property, and
-- none is found only if that is empty; every global of the snapshot has the property.
pub lookup_global_by_property-first :
    (self : Registry) (key : String) (value : String)
    → (lookup_global_by_property self key value ≡ first_of (dup_globals_by_property self key value))
      × All
          (λ global. match_property key value global ≡ true)
          (dup_globals_by_property self key value)
unfolding lookup_global_by_property dup_globals_by_property
lookup_global_by_property-first self key value = (
  find?-filter (match_property key value) self.globals,
  filter-All (match_property key value) self.globals,
)

sync_ended-success :
    (self : Registry) (result : Option (Outcome (Unit {0})))
    → (sync_ended quiet self result).0 ≡ some (ok tt)
    → (sync_ended quiet self result).1 ≡ drain quiet self
unfolding sync_ended
sync_ended-success self none h = absurd (ground (arith, h))
sync_ended-success self (some (err e)) h = absurd (ground (arith, h))
sync_ended-success self (some (ok u)) h = refl

-- Where no handler calls back, a sync of a registry that runs and has no id twice, while PipeWire
-- brings changes, each of which GLib dispatches at once or attaches to the main context: when the
-- sync succeeds, the list answers each id as the changes say that were dispatched at once, then the
-- events that were attached before, then the changes that were attached while it waited, each of
-- them in the order of their arrival, and no id stands twice.
pub sync_delivers :
    (connect_answers : ConnectAnswers) (answers : SyncAnswers) (timeout : ℕ) (wakes : List Wake)
    (changes : List (Bool × Change)) (self : Registry) (core : Core)
    → self.running ≡ true
    → Distinct self.globals
    → (sync_running quiet connect_answers answers timeout wakes changes self (some core)).0
      ≡ some (ok tt)
    → let now =
        (sync_running quiet connect_answers answers timeout wakes changes self (some core)).1 in
      ((id : ℕ)
        → lookup_global now id
          ≡ learn_events self.generation
              (learn_changes (lookup_in self.globals) (at_once changes))
              (self.queue ++ events_of self.generation (attached changes))
              id)
      × Distinct now.globals
unfolding sync_running lookup_global drain
sync_delivers connect_answers answers timeout wakes changes self core on d success =
    let synced = sync connect_answers answers core true timeout wakes in
    let ready : Registry = record self { core = some synced.1 } in
    let now = arrive quiet ready changes in
    let a = arrive-Arrived ready changes d on in
    let r =
      run_sources-Carries (record now { queue = [] }) now.queue a.carries.distinct
        (a.carries.same_running ∙ on) in
    subst
      (λ (last : Registry).
        ((id : ℕ)
          → lookup_global last id
            ≡ learn_events self.generation
                (learn_changes (lookup_in self.globals) (at_once changes))
                (self.queue ++ events_of self.generation (attached changes)) id)
        × Distinct last.globals)
      (sym (sync_ended-success now synced.0 success))
      (
        λ id.
            r.knows id
            ∙ ap (λ known. learn_events now.generation known now.queue id) (fun_ext a.carries.knows)
            ∙ ap
                (λ g.
                  learn_events g (learn_changes (lookup_in self.globals) (at_once changes))
                    now.queue id)
                a.carries.same_generation
            ∙ ap
                (λ queue.
                  learn_events self.generation
                    (learn_changes (lookup_in self.globals) (at_once changes)) queue id)
                a.waiting,
        r.distinct,
      )
