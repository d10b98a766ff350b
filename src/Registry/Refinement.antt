-- ===== src/Registry/Refinement.antt =====
-- The list of globals as a map from ids: what the events of PipeWire say, whatever the list does.
use pipewire_gobject.Prelude.{
  ℕ, ◌≡◌, refl, sym, ap, subst, fun_ext, ◌∙◌, Bool, true, not, ◌||◌, Option, none, some, List, [],
  ◌∷◌, ◌==◌, arith, if◌then◌else◌, Bool-cases, inl, inr, if-cases, ==_refl,
}
use pipewire_gobject.Global.{Global}
use pipewire_gobject.Registry.State.{Registry, RegistryEvent, Change, added, removed, quiet, emit}
use pipewire_gobject.Registry.Dispatch.{
  find_global, without, remove_found, dispatch_added, apply_change, dispatch_event, run_sources,
}
use pipewire_gobject.Registry.Distinct.{
  lookup_in, removed_from, Distinct, lookup_in-removed_from, lookup_in-append,
  removed_from-Distinct, append-Distinct,
}

-- What is known of each id.
abbrev pub Known : Type 0
Known = ℕ → Option Global

-- One change of what is known.
abbrev pub learn : Known → Change → Known
learn known (added global) id = if global.id == id then some global else known id
learn known (removed gone) id = if gone == id then none else known id

-- What events teach a session with the given generation: those of other sessions say nothing.
abbrev pub learn_events : ℕ → Known → List RegistryEvent → Known
learn_events generation known [] = known
learn_events generation known (event ∷ events) =
    learn_events generation
      (if event.generation == generation then learn known event.change else known) events

-- What the next events find: the list without double ids, of the same session.
pub record Carries (self : Registry) (known : Known) (now : Registry) : Type 0 where
  pub knows : (id : ℕ) → lookup_in now.globals id ≡ known id
  pub distinct : Distinct now.globals
  pub same_running : now.running ≡ self.running
  pub same_generation : now.generation ≡ self.generation

added-Carries :
    (self : Registry) (global : Global)
    → Distinct self.globals
    → Carries self
        (learn (lookup_in self.globals) (added global))
        (dispatch_added quiet self global)
unfolding dispatch_added emit
added-Carries self global d =
    let gone : lookup_in (removed_from self.globals global.id) global.id ≡ none =
      lookup_in-removed_from self.globals global.id global.id d
      ∙ ground (arith, ==_refl global.id) in
    record {
      knows = λ id.
          lookup_in-append (removed_from self.globals global.id) global id gone
          ∙ ground (arith, lookup_in-removed_from self.globals global.id id d);
      distinct = append-Distinct _ global gone (removed_from-Distinct self.globals global.id d);
      same_running = refl;
      same_generation = refl;
    }

remove_found-globals :
    (self : Registry) (found : Option (Global × ℕ))
    → let now = remove_found quiet self found in
      (now.globals ≡ without self.globals found)
      × (now.running ≡ self.running)
      × (now.generation ≡ self.generation)
unfolding remove_found emit
remove_found-globals self none = (refl, refl, refl)
remove_found-globals self (some (existing, position)) = (refl, refl, refl)

removed-Carries :
    (self : Registry) (id : ℕ)
    → Distinct self.globals
    → Carries self
        (learn (lookup_in self.globals) (removed id))
        (remove_found quiet self (find_global self.globals id))
removed-Carries self id d =
    let (g, r, n) = remove_found-globals self (find_global self.globals id) in
    record {
      knows = λ other.
          ap (λ globals. lookup_in globals other) g
          ∙ lookup_in-removed_from self.globals id other d;
      distinct = subst Distinct (sym g) (removed_from-Distinct self.globals id d);
      same_running = r;
      same_generation = n;
    }

apply_change-Carries :
    (self : Registry) (change : Change)
    → Distinct self.globals
    → Carries self (learn (lookup_in self.globals) change) (apply_change quiet self change)
unfolding apply_change
apply_change-Carries self (added global) d = added-Carries self global d
apply_change-Carries self (removed id) d = removed-Carries self id d

pub same-Carries :
    (self : Registry) → Distinct self.globals → Carries self (lookup_in self.globals) self
same-Carries self d = record {
  knows = λ id. refl;
  distinct = d;
  same_running = refl;
  same_generation = refl;
}

pub dispatch_event-Carries :
    (self : Registry) (event : RegistryEvent)
    → Distinct self.globals
    → self.running ≡ true
    → Carries self
        (if event.generation == self.generation
          then learn (lookup_in self.globals) event.change
          else lookup_in self.globals)
        (dispatch_event quiet self event)
unfolding dispatch_event
dispatch_event-Carries self event d on =
    let known : Known = lookup_in self.globals in
    let P : Bool → Type 0 = λ current.
      Carries self (if current then learn known event.change else known)
        (dispatch_event quiet self event) in
    elim (Bool-cases (event.generation == self.generation)) [
      | inl e ↦ subst P (sym e) (
          if-cases (Carries self (learn known event.change))
            (not self.running || not (event.generation == self.generation))
            (λ f. absurd (ground (arith, e, f, on)))
            (λ _. apply_change-Carries self event.change d))
      | inr e ↦ subst P (sym e) (
          if-cases (Carries self known)
            (not self.running || not (event.generation == self.generation))
            (λ _. same-Carries self d) (λ f. absurd (ground (arith, e, f, on))))
    ]

-- Where no handler calls back into the registry: a session that runs, with a list that has no id
-- twice, knows after any events what the events of its own generation say, in order, on top of what
-- it knew: added globals replace those with their id, removed ones go, and events of other
-- generations do nothing. No id stands twice after it either.
pub run_sources-Carries :
    (self : Registry) (events : List RegistryEvent)
    → Distinct self.globals
    → self.running ≡ true
    → Carries self
        (learn_events self.generation (lookup_in self.globals) events)
        (run_sources quiet self events)
unfolding run_sources
run_sources-Carries self [] d on = same-Carries self d
run_sources-Carries self (event ∷ events) d on =
    let now = dispatch_event quiet self event in
    let c = dispatch_event-Carries self event d on in
    let known_now : Known =
      if event.generation == self.generation
      then learn (lookup_in self.globals) event.change
      else lookup_in self.globals in
    let r = run_sources-Carries now events c.distinct (c.same_running ∙ on) in
    record {
      knows = λ id.
          r.knows id
          ∙ ap (λ known. learn_events now.generation known events id) (fun_ext c.knows)
          ∙ ap (λ g. learn_events g known_now events id) c.same_generation;
      distinct = r.distinct;
      same_running = r.same_running ∙ c.same_running;
      same_generation = r.same_generation ∙ c.same_generation;
    }
