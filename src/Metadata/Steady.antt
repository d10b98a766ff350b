-- ===== src/Metadata/Steady.antt =====
-- What holds of a metadata object between any two operations, where no handler calls back into it.
use pipewire_gobject.Prelude.{
  ℕ, ◌≡◌, refl, sym, String, Bool, true, false, not, ◌||◌, Option, some, List, [], ◌∷◌, ◌++◌, ◌==◌,
  ltb, strcmp0_eq, if◌then◌else◌, arith, if-both, if-cases,
}
use pipewire_gobject.Prelude.Int.{is_negative}
use pipewire_gobject.Core.Connection.{Core}
use pipewire_gobject.Global.{DictItem}
use pipewire_gobject.Metadata.Cache.{lookup_spa_dict}
use pipewire_gobject.Metadata.State.{
  Metadata, MetadataEvent, MetadataReport, found, removed, changed, quiet, emit,
}
use pipewire_gobject.Metadata.Operations.{
  has_thread_loop, set_unbound, set_stopped, destroy_bound_proxy, BindAnswers, bind, apply_change,
  apply_report, dispatch_event, queue_event, interface_metadata, key_metadata_name, on_global,
  run_sources,
}
use pipewire_gobject.Metadata.Refinement.{WellKeyed, cache_change-WellKeyed}

-- The proxy and its listener are there while the object is bound, the registry and its listener
-- while it runs; it is bound only while it runs, and holds entries only while it runs, each under
-- its own printed key.
pub record IsSteady (self : Metadata) : Type 0 where
  pub proxy : self.metadata ≡ self.bound
  pub proxy_listener : self.has_metadata_listener ≡ self.bound
  pub registry : self.registry ≡ self.running
  pub registry_listener : self.has_registry_listener ≡ self.running
  pub unbound : self.running ≡ false → self.bound ≡ false
  pub no_entries : self.running ≡ false → self.entries ≡ []
  pub keyed : WellKeyed self.entries

pub destroy_bound_proxy-IsSteady :
    (self : Metadata) → IsSteady self → IsSteady (destroy_bound_proxy quiet self)
unfolding destroy_bound_proxy set_unbound emit
destroy_bound_proxy-IsSteady self w =
    if-cases (λ now. IsSteady (record now { entries = [] })) self.bound
      (λ e. record {
        proxy = refl;
        proxy_listener = refl;
        registry = w.registry;
        registry_listener = w.registry_listener;
        unbound = λ h. refl;
        no_entries = λ h. refl;
        keyed = tt;
      })
      (λ e. record {
        proxy = sym e;
        proxy_listener = sym e;
        registry = w.registry;
        registry_listener = w.registry_listener;
        unbound = λ h. e;
        no_entries = λ h. refl;
        keyed = tt;
      })

bind-IsSteady :
    (answers : BindAnswers) (self : Metadata) (id version : ℕ)
    → self.running ≡ true
    → IsSteady self
    → IsSteady (bind quiet answers self id version).1
unfolding bind emit
bind-IsSteady answers self id version on w =
    let P : Bool × Metadata → Type 0 = λ r. IsSteady r.1 in
    if-both P (self.bound || self.metadata) w (
      if-both P (not (has_thread_loop self.core) || not self.registry) w (
        if-both P (not (answers.bind id (if ltb version 3 then version else 3))) w (
          if-both P (is_negative answers.add_listener) w (record {
            proxy = refl;
            proxy_listener = refl;
            registry = w.registry;
            registry_listener = w.registry_listener;
            unbound = λ h. absurd (ground (arith, h, on));
            no_entries = w.no_entries;
            keyed = w.keyed;
          }))))

apply_change-IsSteady :
    (self : Metadata) (subject : ℕ) (key value_type value : Option String)
    → self.running ≡ true
    → IsSteady self
    → IsSteady (apply_change quiet self subject key value_type value)
unfolding apply_change emit
apply_change-IsSteady self subject key value_type value on w = record {
  proxy = w.proxy;
  proxy_listener = w.proxy_listener;
  registry = w.registry;
  registry_listener = w.registry_listener;
  unbound = w.unbound;
  no_entries = λ h. absurd (ground (arith, h, on));
  keyed = cache_change-WellKeyed self.entries subject key value_type value w.keyed;
}

apply_report-IsSteady :
    (answers : BindAnswers) (self : Metadata) (report : MetadataReport)
    → self.running ≡ true
    → IsSteady self
    → IsSteady (apply_report quiet answers self report)
unfolding apply_report
apply_report-IsSteady answers self (found id version) on w =
    bind-IsSteady answers self id version on w
apply_report-IsSteady answers self (removed id) on w =
    if-both IsSteady (self.metadata_id == id) (destroy_bound_proxy-IsSteady self w) w
apply_report-IsSteady answers self (changed subject key value_type value) on w =
    apply_change-IsSteady self subject key value_type value on w

dispatch_event-IsSteady :
    (answers : BindAnswers) (self : Metadata) (event : MetadataEvent)
    → IsSteady self
    → IsSteady (dispatch_event quiet answers self event)
unfolding dispatch_event
dispatch_event-IsSteady answers self event w =
    if-cases IsSteady (not self.running || not (event.generation == self.generation)) (λ _. w)
      (λ e. apply_report-IsSteady answers self event.report (ground (arith, e)) w)

pub queue-IsSteady :
    (self : Metadata) (queue : List MetadataEvent)
    → IsSteady self
    → IsSteady (record self { queue = queue })
queue-IsSteady self queue w = record {
  proxy = w.proxy;
  proxy_listener = w.proxy_listener;
  registry = w.registry;
  registry_listener = w.registry_listener;
  unbound = w.unbound;
  no_entries = w.no_entries;
  keyed = w.keyed;
}

pub core-IsSteady :
    (self : Metadata) (core : Option Core) → IsSteady self → IsSteady (record self { core = core })
core-IsSteady self core w = record {
  proxy = w.proxy;
  proxy_listener = w.proxy_listener;
  registry = w.registry;
  registry_listener = w.registry_listener;
  unbound = w.unbound;
  no_entries = w.no_entries;
  keyed = w.keyed;
}

pub queue_event-IsSteady :
    (answers : BindAnswers) (direct : Bool) (self : Metadata) (report : MetadataReport)
    → IsSteady self
    → IsSteady (queue_event quiet answers direct self report)
unfolding queue_event
queue_event-IsSteady answers direct self report w =
    let event : MetadataEvent = record { generation = self.generation; report = report } in
    if-both IsSteady direct (dispatch_event-IsSteady answers self event w)
      (queue-IsSteady self (self.queue ++ event ∷ []) w)

pub on_global-IsSteady :
    (answers : BindAnswers) (direct : Bool) (self : Metadata) (id : ℕ) (global_type : Option String)
    (version : ℕ) (props : Option (List DictItem))
    → IsSteady self
    → IsSteady (on_global quiet answers direct self id global_type version props)
unfolding on_global
on_global-IsSteady answers direct self id global_type version props w =
    if-both IsSteady (not (strcmp0_eq global_type (some interface_metadata))) w (
      if-both IsSteady (not (strcmp0_eq (lookup_spa_dict props key_metadata_name) self.name)) w
        (queue_event-IsSteady answers direct self (found id version) w))

pub run_sources-IsSteady :
    (answers : BindAnswers) (self : Metadata) (events : List MetadataEvent)
    → IsSteady self
    → IsSteady (run_sources quiet answers self events)
unfolding run_sources
run_sources-IsSteady answers self [] w = w
run_sources-IsSteady answers self (event ∷ events) w =
    run_sources-IsSteady answers (dispatch_event quiet answers self event) events
      (dispatch_event-IsSteady answers self event w)

-- The end of a session, whatever it was.
pub ended-IsSteady :
    (self : Metadata)
    → self.metadata ≡ false
    → self.has_metadata_listener ≡ false
    → self.registry ≡ false
    → self.has_registry_listener ≡ false
    → self.bound ≡ false
    → IsSteady (record (set_stopped quiet self) { entries = [] })
unfolding set_stopped emit
ended-IsSteady self m ml r rl b = ground (arith, m, ml, r, rl, b)
