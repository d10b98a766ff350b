-- ===== src/Node/Starting.antt =====
-- The start of a node: a session, or an error that leaves the node as it was.
use pipewire_gobject.Prelude.{
  ◌+◌, ◌≡◌, refl, sym, subst, true, false, not, ◌||◌, Option, none, some, arith, if-both, if-cases,
  Bool-cases, inl, inr, ◌⊎◌,
}
use pipewire_gobject.Prelude.Int.{is_negative}
use pipewire_gobject.Prelude.Word.{u32}
use pipewire_gobject.Error.{Outcome, ok, err, PwgError, failed, pipewire}
use pipewire_gobject.Core.Connection.{Core, ConnectAnswers, connect}
use pipewire_gobject.Global.{Global, is_interface}
use pipewire_gobject.Node.State.{Node, quiet, emit, interface_node}
use pipewire_gobject.Node.Operations.{destroy_pipewire_objects}
use pipewire_gobject.Node.Control.{
  StartAnswers, bind_version, bind_node, start_connected, start_global, start,
}
use pipewire_gobject.Node.Steady.{IsSteady, core-IsSteady}

-- What a start of a node that does not run can come to: a session, or an error that leaves the node
-- as it was, but for what became of the core.
abbrev pub Begins : Node → Outcome (Unit {0}) × Node → Type 0
Begins self r =
    ((r.0 ≡ ok tt)
      × (r.1.running ≡ true)
      × (r.1.generation ≡ u32 (self.generation + 1))
      × (r.1.state ≡ self.state)
      × (r.1.params ≡ self.params)
      × (r.1.next_seq ≡ self.next_seq)
      × (r.1.queue ≡ self.queue)
      × IsSteady r.1)
    ⊎ ((e : PwgError) × (core : Option Core) × (r.0 ≡ err e) × (r.1 ≡ record self { core = core }))

-- Cleaning up after a failed attempt gives back the node.
no_proxy_left :
    (self : Node) (core : Option Core)
    → self.running ≡ false
    → IsSteady self
    → record self {
      core = core;
      node = false;
      has_node_listener = false;
      registry = false;
      has_registry_listener = false;
    }
      ≡ record self { core = core }
no_proxy_left self core off w =
    ground (arith, off, w.node, w.registry, w.node_listener, w.registry_listener)

bind_node-Begins :
    (answers : StartAnswers) (self : Node) (core : Option Core) (global : Global)
    → self.running ≡ false
    → IsSteady self
    → Begins self (bind_node quiet answers (record self { core = core }) global)
unfolding bind_node destroy_pipewire_objects emit
bind_node-Begins answers self core global off w =
    if-both (Begins self) (not answers.registry_new)
      (inr (pipewire, core, refl, ground (arith, off, w.registry)))
      (if-both (Begins self) (not (answers.bind global.id (bind_version global.version)))
        (inr (pipewire, core, refl, no_proxy_left self core off w))
        (if-both (Begins self) (is_negative answers.add_listener)
          (inr (pipewire, core, refl, no_proxy_left self core off w))
          (inl (
            refl,
            refl,
            refl,
            refl,
            refl,
            refl,
            refl,
            record {
              bound = refl;
              registry = refl;
              node = refl;
              registry_listener = refl;
              node_listener = refl;
              no_state = λ e. absurd (ground (arith, e));
              no_error = λ e. absurd (ground (arith, e));
              no_infos = λ e. absurd (ground (arith, e));
              no_params = λ e. absurd (ground (arith, e));
            },
          ))))

start_connected-Begins :
    (answers : StartAnswers) (self : Node) (global : Global) (connected : Outcome (Unit {0}))
    (core : Core)
    → self.running ≡ false
    → IsSteady self
    → Begins self (start_connected quiet answers self global connected core)
unfolding start_connected
start_connected-Begins answers self global (err e) core off w = inr (e, some core, refl, refl)
start_connected-Begins answers self global (ok u) core off w =
    if-both (Begins self) (not core.thread_loop || not core.core)
      (inr (pipewire, some core, refl, refl))
      (bind_node-Begins answers self (some core) global off w)

start_global-Begins :
    (connect_answers : ConnectAnswers) (answers : StartAnswers) (self : Node) (core : Option Core)
    (global : Option Global)
    → self.running ≡ false
    → IsSteady self
    → Begins self (start_global quiet connect_answers answers self core global)
unfolding start_global
start_global-Begins connect_answers answers self none global off w =
    inr (failed, self.core, refl, refl)
start_global-Begins connect_answers answers self (some core) none off w =
    inr (failed, self.core, refl, refl)
start_global-Begins connect_answers answers self (some core) (some global) off w =
    if-both (Begins self) (not (is_interface global interface_node))
      (inr (failed, self.core, refl, refl))
      (start_connected-Begins answers self global (connect connect_answers core).0
        (connect connect_answers core).1 off w)

-- Where no handler calls back: a start of a steady node that does not run either begins a session,
-- with both proxies and listeners there and a new generation, or it fails and leaves the node as it
-- was, but for what became of the core: no proxy or listener of the attempt stays behind.
pub start-Begins :
    (connect_answers : ConnectAnswers) (answers : StartAnswers) (self : Node)
    → self.running ≡ false
    → IsSteady self
    → Begins self (start quiet connect_answers answers self)
unfolding start
start-Begins connect_answers answers self off w =
    if-cases (Begins self) self.running (λ e. absurd (ground (arith, e, off)))
      (λ _. start_global-Begins connect_answers answers self self.core self.global off w)

pub start_running :
    (connect_answers : ConnectAnswers) (answers : StartAnswers) (self : Node)
    → self.running ≡ true
    → start quiet connect_answers answers self ≡ (ok tt, self)
unfolding start
start_running connect_answers answers self on =
    if-cases (λ r. r ≡ (ok tt, self)) self.running (λ _. refl) (λ e. absurd (ground (arith, e, on)))

pub start-IsSteady :
    (connect_answers : ConnectAnswers) (answers : StartAnswers) (self : Node)
    → IsSteady self
    → IsSteady (start quiet connect_answers answers self).1
start-IsSteady connect_answers answers self w = elim (Bool-cases self.running) [
  | inl on ↦ subst (λ r. IsSteady r.1) (sym (start_running connect_answers answers self on)) w
  | inr off ↦ elim (start-Begins connect_answers answers self off w) [
    | inl (o, r, g, s, p, n, q, steady) ↦ steady
    | inr (e, core, o, same) ↦ subst IsSteady (sym same) (core-IsSteady self core w)
  ]
]
