-- ===== src/Link/History.antt =====
-- Histories of a link: its starts, and all operations in any order, keep it steady.
use pipewire_gobject.Prelude.{
  ℕ, ◌+◌, ◌≡◌, refl, sym, subst, Bool, true, false, not, ◌||◌, Option, none, some, List, [], ◌∷◌,
  ◌==◌, arith, if-both, if-cases, Bool-cases, inl, inr, ◌⊎◌,
}
use pipewire_gobject.Prelude.Int.{is_negative}
use pipewire_gobject.Prelude.Word.{u32}
use pipewire_gobject.Error.{Outcome, ok, err, PwgError, failed, pipewire}
use pipewire_gobject.Core.Connection.{Core, ConnectAnswers, connect}
use pipewire_gobject.Global.{Global, is_interface}
use pipewire_gobject.Link.State.{Link, link_removed, quiet, emit, interface_link}
use pipewire_gobject.Link.Operations.{
  destroy_pipewire_objects, stop, LinkInfo, on_info, on_global_remove, drain, lose_core,
}
use pipewire_gobject.Link.Control.{
  StartAnswers, bind_version, bind_link, start_connected, start_global, start,
}
use pipewire_gobject.Link.Steady.{
  IsSteady, stop-IsSteady, core-IsSteady, lose_core-IsSteady, queue_event-IsSteady,
  on_info-IsSteady, run_sources-IsSteady,
}

-- What a start of a link that does not run can come to: a session, or an error that leaves the link
-- as it was, but for what became of the core.
abbrev pub Begins : Link → Outcome (Unit {0}) × Link → Type 0
Begins self r =
    ((r.0 ≡ ok tt)
      × (r.1.running ≡ true)
      × (r.1.generation ≡ u32 (self.generation + 1))
      × (r.1.state ≡ self.state)
      × (r.1.queue ≡ self.queue)
      × IsSteady r.1)
    ⊎ ((e : PwgError) × (core : Option Core) × (r.0 ≡ err e) × (r.1 ≡ record self { core = core }))

-- Cleaning up after a failed attempt gives back the link.
no_proxy_left :
    (self : Link) (core : Option Core)
    → self.running ≡ false
    → IsSteady self
    → record self {
      core = core;
      link = false;
      has_link_listener = false;
      registry = false;
      has_registry_listener = false;
    }
      ≡ record self { core = core }
no_proxy_left self core off w =
    ground (arith, off, w.link, w.registry, w.link_listener, w.registry_listener)

bind_link-Begins :
    (answers : StartAnswers) (self : Link) (core : Option Core) (global : Global)
    → self.running ≡ false
    → IsSteady self
    → Begins self (bind_link quiet answers (record self { core = core }) global)
unfolding bind_link destroy_pipewire_objects emit
bind_link-Begins answers self core global off w =
    if-both (Begins self) (not answers.registry_new)
      (inr (pipewire, core, refl, ground (arith, off, w.registry)))
      (if-both (Begins self) (not (answers.bind global.id (bind_version global.version)))
        (inr (pipewire, core, refl, no_proxy_left self core off w))
        (if-both (Begins self) (is_negative answers.add_listener)
          (inr (pipewire, core, refl, no_proxy_left self core off w))
          (inl (
            refl,
            refl,
            refl,
            refl,
            refl,
            record {
              bound = refl;
              registry = refl;
              link = refl;
              registry_listener = refl;
              link_listener = refl;
              no_state = λ e. absurd (ground (arith, e));
              no_error = λ e. absurd (ground (arith, e));
            },
          ))))

start_connected-Begins :
    (answers : StartAnswers) (self : Link) (global : Global) (connected : Outcome (Unit {0}))
    (core : Core)
    → self.running ≡ false
    → IsSteady self
    → Begins self (start_connected quiet answers self global connected core)
unfolding start_connected
start_connected-Begins answers self global (err e) core off w = inr (e, some core, refl, refl)
start_connected-Begins answers self global (ok u) core off w =
    if-both (Begins self) (not core.thread_loop || not core.core)
      (inr (pipewire, some core, refl, refl))
      (bind_link-Begins answers self (some core) global off w)

start_global-Begins :
    (connect_answers : ConnectAnswers) (answers : StartAnswers) (self : Link) (core : Option Core)
    (global : Option Global)
    → self.running ≡ false
    → IsSteady self
    → Begins self (start_global quiet connect_answers answers self core global)
unfolding start_global
start_global-Begins connect_answers answers self none global off w =
    inr (failed, self.core, refl, refl)
start_global-Begins connect_answers answers self (some core) none off w =
    inr (failed, self.core, refl, refl)
start_global-Begins connect_answers answers self (some core) (some global) off w =
    if-both (Begins self) (not (is_interface global interface_link))
      (inr (failed, self.core, refl, refl))
      (start_connected-Begins answers self global (connect connect_answers core).0
        (connect connect_answers core).1 off w)

-- Where no handler calls back: a start of a steady link that does not run either begins a session,
-- with both proxies and listeners there and a new generation, or it fails and leaves the link as it
-- was, but for what became of the core: no proxy or listener of the attempt stays behind.
pub start-Begins :
    (connect_answers : ConnectAnswers) (answers : StartAnswers) (self : Link)
    → self.running ≡ false
    → IsSteady self
    → Begins self (start quiet connect_answers answers self)
unfolding start
start-Begins connect_answers answers self off w =
    if-cases (Begins self) self.running (λ e. absurd (ground (arith, e, off)))
      (λ _. start_global-Begins connect_answers answers self self.core self.global off w)

start_running :
    (connect_answers : ConnectAnswers) (answers : StartAnswers) (self : Link)
    → self.running ≡ true
    → start quiet connect_answers answers self ≡ (ok tt, self)
unfolding start
start_running connect_answers answers self on =
    if-cases (λ r. r ≡ (ok tt, self)) self.running (λ _. refl) (λ e. absurd (ground (arith, e, on)))

start-IsSteady :
    (connect_answers : ConnectAnswers) (answers : StartAnswers) (self : Link)
    → IsSteady self
    → IsSteady (start quiet connect_answers answers self).1
start-IsSteady connect_answers answers self w = elim (Bool-cases self.running) [
  | inl on ↦ subst (λ r. IsSteady r.1) (sym (start_running connect_answers answers self on)) w
  | inr off ↦ elim (start-Begins connect_answers answers self off w) [
    | inl (o, r, g, s, q, steady) ↦ steady
    | inr (e, core, o, same) ↦ subst IsSteady (sym same) (core-IsSteady self core w)
  ]
]

pub data Operation : Type 0 where
  start_link : ConnectAnswers → StartAnswers → Operation
  stop_link : Operation
  info : Bool → Option LinkInfo → Operation
  global_remove : Bool → ℕ → Operation
  run_main_context : Operation
  disconnect_core : Core → Operation

unfoldable pub step : Link → Operation → Link
unfolding start stop on_info on_global_remove drain lose_core
step self (start_link connect_answers answers) = (start quiet connect_answers answers self).1
step self stop_link = stop quiet self
step self (info direct i) = on_info quiet direct self i
step self (global_remove direct id) = on_global_remove quiet direct self id
step self run_main_context = drain quiet self
step self (disconnect_core core) = lose_core quiet self core

unfoldable pub run : Link → List Operation → Link
unfolding step
run self [] = self
run self (operation ∷ rest) = run (step self operation) rest

step-IsSteady :
    (self : Link) (operation : Operation) → IsSteady self → IsSteady (step self operation)
unfolding step on_global_remove drain
step-IsSteady self (start_link connect_answers answers) w =
    start-IsSteady connect_answers answers self w
step-IsSteady self stop_link w = stop-IsSteady self w
step-IsSteady self (info direct i) w = on_info-IsSteady self direct i w
step-IsSteady self (global_remove direct id) w =
    if-both IsSteady (not (id == self.link_id)) w (queue_event-IsSteady self direct link_removed w)
step-IsSteady self run_main_context w =
    run_sources-IsSteady (record self { queue = [] }) self.queue
      (ground (arith, w.no_state, w.no_error))
step-IsSteady self (disconnect_core core) w = lose_core-IsSteady self core w

-- Where no handler calls back: a steady link stays so through every history of starts, stops,
-- events of PipeWire, runs of the main context and disconnections of a core, whatever PipeWire
-- answers and whether events are dispatched at once or later: it has both proxies and listeners
-- while it runs and is bound, and none of them, no state and no error while it does not.
pub history-IsSteady :
    (self : Link) (history : List Operation) → IsSteady self → IsSteady (run self history)
unfolding run
history-IsSteady self [] w = w
history-IsSteady self (operation ∷ rest) w =
    history-IsSteady (step self operation) rest (step-IsSteady self operation w)
