-- ===== src/Node/OnCoreStart.antt =====
-- What a start of a node, of src/pwg-node.c, and its events do to its core.
use pipewire_gobject.Prelude.{
  ◌≡◌, refl, sym, ◌∙◌, true, false, not, ◌||◌, Option, none, some, subst, arith, if-both, if-cases,
}
use pipewire_gobject.Prelude.Int.{is_negative}
use pipewire_gobject.Error.{Outcome, ok, err}
use pipewire_gobject.Core.Connection.{Core, ConnectAnswers, connect}
use pipewire_gobject.Core.Clients.{Linked, same_core-Linked, Leads}
use pipewire_gobject.Core.Sharing.{connect-Leads}
use pipewire_gobject.Global.{Global, is_interface}
use pipewire_gobject.Node.State.{Node, quiet, emit, interface_node}
use pipewire_gobject.Node.Operations.{destroy_pipewire_objects}
use pipewire_gobject.Node.Control.{
  StartAnswers, bind_version, bind_node, start_connected, start_global, start,
}
use pipewire_gobject.Node.Calm.{Calm}

-- The node has its core, which was not lost, and runs only if it is connected.
abbrev pub Holds : Core → Node → Type 0
Holds old self = Linked old self.core self.running

pub Calm-Holds : (old : Core) (self now : Node) → Calm self now → Holds old self → Holds old now
Calm-Holds old self now (same, off) h =
    same_core-Linked old self.core now.core self.running now.running same off h

bind_node-Holds :
    (old : Core) (answers : StartAnswers) (self : Node) (global : Global) (core : Core)
    → self.core ≡ some core
    → core.connected ≡ true
    → Holds old (bind_node quiet answers self global).1
unfolding bind_node destroy_pipewire_objects emit
bind_node-Holds old answers self global core e on =
    let P = λ (r : Outcome (Unit {0}) × Node). Holds old r.1 in
    if-both P (not answers.registry_new) (core, e, (λ _. on), λ _. on)
      (if-both P (not (answers.bind global.id (bind_version global.version)))
        (core, e, (λ _. on), λ _. on)
        (if-both P (is_negative answers.add_listener) (core, e, (λ _. on), λ _. on)
          (core, e, (λ _. on), λ _. on)))

start_connected-Holds :
    (old : Core) (answers : StartAnswers) (self : Node) (global : Global)
    (connected : Outcome (Unit {0})) (core : Core)
    → self.running ≡ false
    → Leads old (connected, core)
    → Holds old (start_connected quiet answers self global connected core).1
unfolding start_connected
start_connected-Holds old answers self global (err e) core off (up, made) =
    (core, refl, up, λ on. absurd (ground (arith, sym on ∙ off)))
start_connected-Holds old answers self global (ok u) core off (up, made) =
    let ready : Node = record self { core = some core } in
    if-both (λ (r : Outcome (Unit {0}) × Node). Holds old r.1)
      (not core.thread_loop || not core.core) (core, refl, up, λ on. made refl)
      (bind_node-Holds old answers ready global core refl (made refl))

start_global-Holds :
    (connect_answers : ConnectAnswers) (answers : StartAnswers) (self : Node) (core : Core)
    (global : Option Global)
    → self.running ≡ false
    → Holds core self
    → Holds core (start_global quiet connect_answers answers self (some core) global).1
unfolding start_global
start_global-Holds connect_answers answers self core none off h = h
start_global-Holds connect_answers answers self core (some global) off h =
    if-both (λ (r : Outcome (Unit {0}) × Node). Holds core r.1)
      (not (is_interface global interface_node)) h
      (start_connected-Holds core answers self global (connect connect_answers core).0
        (connect connect_answers core).1 off (connect-Leads connect_answers core))

start-Holds :
    (connect_answers : ConnectAnswers) (answers : StartAnswers) (self : Node) (old : Core)
    → self.core ≡ some old
    → (self.running ≡ true → old.connected ≡ true)
    → Holds old (start quiet connect_answers answers self).1
unfolding start
start-Holds connect_answers answers self old e runs =
    let h : Holds old self = (old, e, (λ on. on), runs) in
    if-cases (λ (r : Outcome (Unit {0}) × Node). Holds old r.1) self.running (λ _. h)
      (λ off.
        subst
          (λ core. Holds old (start_global quiet connect_answers answers self core self.global).1)
          (sym e) (start_global-Holds connect_answers answers self old self.global off h))

-- The same, of a node that has come to another core.
pub started-Holds :
    (old : Core) (connect_answers : ConnectAnswers) (answers : StartAnswers) (self : Node)
    → Holds old self
    → Holds old (start quiet connect_answers answers self).1
started-Holds old connect_answers answers self (mid, e, up, runs) =
    let (now, same, more, needs) = start-Holds connect_answers answers self mid e runs in
    (now, same, (λ on. more (up on)), needs)
