-- ===== src/Node/Whole.antt =====
-- What holds of a node also while its handlers run, and what a stop keeps of it.
use pipewire_gobject.Prelude.{◌+◌, ◌≡◌, refl, sym, ◌∙◌, false, not, ◌&&◌, none, if-both}
use pipewire_gobject.Prelude.Word.{u32}
use pipewire_gobject.Node.State.{
  Node, NodeSignal, notify_running, notify_bound, notify_state, notify_error, Handlers, emit,
}
use pipewire_gobject.Node.Operations.{
  destroy_pipewire_objects, clear_name, clear_error, clear_state, clear_lists, set_unbound,
  set_stopped, reset, is_some, stop,
}

-- A node that does not run has no proxy, and a listener is there only with its proxy.
pub record IsWhole (self : Node) : Type 0 where
  pub idle_registry : self.running ≡ false → self.registry ≡ false
  pub idle_node : self.running ≡ false → self.node ≡ false
  pub registry_listener : self.registry ≡ false → self.has_registry_listener ≡ false
  pub node_listener : self.node ≡ false → self.has_node_listener ≡ false

-- What an operation that begins no session keeps.
pub record Keeps (self : Node) (now : Node) : Type 0 where
  pub whole : IsWhole now
  pub no_registry : self.registry ≡ false → now.registry ≡ false
  pub no_node : self.node ≡ false → now.node ≡ false

-- Handlers that may call back, as long as they begin no session.
abbrev pub Respect : Handlers → Type 0
Respect on = (sig : NodeSignal) (self : Node) → IsWhole self → Keeps self (on sig self)

pub same-Keeps : (self : Node) → IsWhole self → Keeps self self
same-Keeps self w = record { whole = w; no_registry = λ h. h; no_node = λ h. h }

pub Keeps-trans : (a b c : Node) → Keeps a b → Keeps b c → Keeps a c
Keeps-trans a b c k l = record {
  whole = l.whole;
  no_registry = λ h. l.no_registry (k.no_registry h);
  no_node = λ h. l.no_node (k.no_node h);
}

-- A change of other fields.
pub relabelled :
    (self now : Node)
    → now.running ≡ self.running
    → now.registry ≡ self.registry
    → now.node ≡ self.node
    → now.has_registry_listener ≡ self.has_registry_listener
    → now.has_node_listener ≡ self.has_node_listener
    → IsWhole self
    → Keeps self now
relabelled self now a b c d e w = record {
  whole = record {
    idle_registry = λ h. b ∙ w.idle_registry (sym a ∙ h);
    idle_node = λ h. c ∙ w.idle_node (sym a ∙ h);
    registry_listener = λ h. d ∙ w.registry_listener (sym b ∙ h);
    node_listener = λ h. e ∙ w.node_listener (sym c ∙ h);
  };
  no_registry = λ h. b ∙ h;
  no_node = λ h. c ∙ h;
}

-- A node without proxies and listeners.
pub bare-IsWhole :
    (self : Node)
    → self.registry ≡ false
    → self.node ≡ false
    → self.has_registry_listener ≡ false
    → self.has_node_listener ≡ false
    → IsWhole self
bare-IsWhole self a b c d = record {
  idle_registry = λ h. a;
  idle_node = λ h. b;
  registry_listener = λ h. c;
  node_listener = λ h. d;
}

module _ (on : Handlers) (respect : Respect on) where
  -- A signal behind a change of other fields.
  pub told-Keeps :
      (sig : NodeSignal) (self now : Node) → Keeps self now → Keeps self (emit on sig now)
  unfolding emit
  told-Keeps sig self now k = Keeps-trans self now (emit on sig now) k (
      let l = relabelled now _ refl refl refl refl refl k.whole in
      Keeps-trans now _ (emit on sig now) l (respect sig _ l.whole))

  pub set_unbound-Keeps : (self : Node) → IsWhole self → Keeps self (set_unbound on self)
  unfolding set_unbound
  set_unbound-Keeps self w =
      if-both (Keeps self) self.bound
        (told-Keeps notify_bound self (record self { bound = false })
          (relabelled self _ refl refl refl refl refl w))
        (same-Keeps self w)

  pub clear_name-Keeps : (self : Node) → IsWhole self → Keeps self (clear_name on self)
  unfolding clear_name
  clear_name-Keeps self w =
      if-both (Keeps self) (is_some self.state)
        (told-Keeps notify_state self (record self { state = none })
          (relabelled self _ refl refl refl refl refl w))
        (same-Keeps self w)

  pub clear_error-Keeps : (self : Node) → IsWhole self → Keeps self (clear_error on self)
  unfolding clear_error
  clear_error-Keeps self w =
      if-both (Keeps self) (is_some self.error)
        (told-Keeps notify_error self (record self { error = none })
          (relabelled self _ refl refl refl refl refl w))
        (same-Keeps self w)

  -- The end of a stop and of a reset, once the proxies are gone.
  pub set_stopped-Keeps :
      (self : Node)
      → self.registry ≡ false
      → self.node ≡ false
      → IsWhole self
      → Keeps self (set_stopped on self)
  unfolding set_stopped
  set_stopped-Keeps self r n w =
      let now : Node = record self { running = false } in
      if-both (Keeps self) self.running
        (told-Keeps notify_running self now (record {
          whole = bare-IsWhole now r n (w.registry_listener r) (w.node_listener n);
          no_registry = λ h. h;
          no_node = λ h. h;
        }))
        (same-Keeps self w)

  pub ended-Keeps :
      (self : Node)
      → self.registry ≡ false
      → self.node ≡ false
      → self.has_registry_listener ≡ false
      → self.has_node_listener ≡ false
      → Keeps self (clear_lists (clear_state on (set_stopped on (set_unbound on self))))
  unfolding clear_lists clear_state
  ended-Keeps self r n a b =
      let unbound = set_unbound on self in
      let stopped = set_stopped on unbound in
      let named = clear_name on stopped in
      let cleared = clear_error on named in
      let k = set_unbound-Keeps self (bare-IsWhole self r n a b) in
      let l = set_stopped-Keeps unbound (k.no_registry r) (k.no_node n) k.whole in
      let m = clear_name-Keeps stopped l.whole in
      let o = clear_error-Keeps named m.whole in
      let p = relabelled cleared (clear_lists cleared) refl refl refl refl refl o.whole in
      Keeps-trans self unbound _ k (
        Keeps-trans unbound stopped _ l
          (Keeps-trans stopped named _ m (Keeps-trans named cleared _ o p)))

  pub stop-Keeps : (self : Node) → IsWhole self → Keeps self (stop on self)
  unfolding stop destroy_pipewire_objects
  stop-Keeps self w =
      let gone =
        destroy_pipewire_objects (record self { generation = u32 (self.generation + 1) }) in
      let k = ended-Keeps gone refl refl refl refl in
      if-both (Keeps self) (not self.running && not self.registry && not self.node)
        (same-Keeps self w)
        (record {
          whole = k.whole;
          no_registry = λ h. k.no_registry refl;
          no_node = λ h. k.no_node refl;
        })

  pub reset-Keeps : (self : Node) → Keeps self (reset on self)
  unfolding reset
  reset-Keeps self =
      let k =
        ended-Keeps
          (record self {
            registry = false;
            node = false;
            has_registry_listener = false;
            has_node_listener = false;
            generation = u32 (self.generation + 1);
          })
          refl refl refl refl in
      record {
        whole = k.whole;
        no_registry = λ h. k.no_registry refl;
        no_node = λ h. k.no_node refl;
      }
