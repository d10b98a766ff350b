-- ===== src/Registry/Arriving.antt =====
-- What a registry knows of the changes that PipeWire brings while a sync waits.
use pipewire_gobject.Prelude.Arrivals.{at_once, attached}
use pipewire_gobject.Prelude.{
  false, ◌||◌, not, ◌==◌, ap, fun_ext, append-nil, append_assoc, ==_refl, if-both, if◌then◌else◌, ℕ,
  ◌≡◌, refl, sym, subst, ◌∙◌, Bool, true, Option, none, some, List, [], ◌∷◌, ◌++◌,
}
use pipewire_gobject.Global.{Global}
use pipewire_gobject.Registry.State.{Registry, RegistryEvent, Change, added, removed, quiet, emit}
use pipewire_gobject.Registry.Dispatch.{
  find_global, dispatch_added, remove_found, apply_change, dispatch_event, queue_event,
}
use pipewire_gobject.Registry.Control.{arrive}
use pipewire_gobject.Registry.Distinct.{lookup_in, Distinct}
use pipewire_gobject.Registry.Refinement.{Carries, learn, same-Carries, dispatch_event-Carries}
use pipewire_gobject.Registry.Session.{events_of, learn_changes}

remove_found-queue :
    (self : Registry) (found : Option (Global × ℕ))
    → (remove_found quiet self found).queue ≡ self.queue
unfolding remove_found emit
remove_found-queue self none = refl
remove_found-queue self (some (global, position)) = refl

apply_change-queue :
    (self : Registry) (change : Change) → (apply_change quiet self change).queue ≡ self.queue
unfolding apply_change dispatch_added emit
apply_change-queue self (added global) = refl
apply_change-queue self (removed id) = remove_found-queue self (find_global self.globals id)

dispatch_event-queue :
    (self : Registry) (event : RegistryEvent) → (dispatch_event quiet self event).queue ≡ self.queue
unfolding dispatch_event
dispatch_event-queue self event =
    if-both (λ (now : Registry). now.queue ≡ self.queue)
      (not self.running || not (event.generation == self.generation)) refl
      (apply_change-queue self event.change)

-- What has arrived: the list knows what was dispatched at once, and the rest is attached behind what
-- was there.
pub record Arrived (self : Registry) (changes : List (Bool × Change)) (now : Registry)
    : Type 0 where
  pub carries : Carries self (learn_changes (lookup_in self.globals) (at_once changes)) now
  pub waiting : now.queue ≡ self.queue ++ events_of self.generation (attached changes)

-- A change that is dispatched at once belongs to the session.
dispatch_now-Carries :
    (self : Registry) (change : Change)
    → Distinct self.globals
    → self.running ≡ true
    → Carries self
        (learn (lookup_in self.globals) change)
        (dispatch_event quiet self (record { generation = self.generation; change = change }))
dispatch_now-Carries self change d on =
    let event : RegistryEvent = record { generation = self.generation; change = change } in
    subst
      (λ (current : Bool).
        Carries self
          (if current then learn (lookup_in self.globals) change else lookup_in self.globals)
          (dispatch_event quiet self event))
      (==_refl self.generation) (dispatch_event-Carries self event d on)

pub arrive-Arrived :
    (self : Registry) (changes : List (Bool × Change))
    → Distinct self.globals
    → self.running ≡ true
    → Arrived self changes (arrive quiet self changes)
unfolding arrive queue_event
arrive-Arrived self [] d on = record {
  carries = same-Carries self d;
  waiting = sym (append-nil self.queue);
}
arrive-Arrived self ((true, change) ∷ changes) d on =
    let event : RegistryEvent = record { generation = self.generation; change = change } in
    let now = dispatch_event quiet self event in
    let c = dispatch_now-Carries self change d on in
    let r = arrive-Arrived now changes c.distinct (c.same_running ∙ on) in
    record {
      carries = record {
        knows = λ id.
            r.carries.knows id
            ∙ ap (λ known. learn_changes known (at_once changes) id) (fun_ext c.knows);
        distinct = r.carries.distinct;
        same_running = r.carries.same_running ∙ c.same_running;
        same_generation = r.carries.same_generation ∙ c.same_generation;
      };
      waiting =
          r.waiting
          ∙ ap (λ queue. queue ++ events_of now.generation (attached changes))
              (dispatch_event-queue self event)
          ∙ ap (λ g. self.queue ++ events_of g (attached changes)) c.same_generation;
    }
arrive-Arrived self ((false, change) ∷ changes) d on =
    let event : RegistryEvent = record { generation = self.generation; change = change } in
    let r = arrive-Arrived (record self { queue = self.queue ++ event ∷ [] }) changes d on in
    record {
      carries = record {
        knows = r.carries.knows;
        distinct = r.carries.distinct;
        same_running = r.carries.same_running;
        same_generation = r.carries.same_generation;
      };
      waiting =
          r.waiting
          ∙ append_assoc self.queue (event ∷ []) (events_of self.generation (attached changes));
    }
