-- ===== src/Node/Begun.antt =====
-- The start of a node, whatever its handlers do but begin a session.
use pipewire_gobject.Prelude.{
  ◌+◌, ◌≡◌, refl, true, false, not, ◌||◌, Option, none, some, arith, if-both, if-cases,
}
use pipewire_gobject.Prelude.Word.{u32}
use pipewire_gobject.Core.Connection.{Core}
use pipewire_gobject.Node.State.{Node, notify_running, notify_bound, Handlers, emit}
use pipewire_gobject.Node.Operations.{destroy_pipewire_objects}
use pipewire_gobject.Prelude.Int.{is_negative}
use pipewire_gobject.Error.{Outcome, ok, err}
use pipewire_gobject.Core.Connection.{ConnectAnswers, connect}
use pipewire_gobject.Global.{Global, is_interface}
use pipewire_gobject.Node.State.{interface_node}
use pipewire_gobject.Node.Control.{
  StartAnswers, bind_version, bind_node, start_connected, start_global, start,
}
use pipewire_gobject.Node.Whole.{IsWhole, Respect, same-Keeps, relabelled, bare-IsWhole, told-Keeps}

module _ (on : Handlers) (respect : Respect on) where
  bind_node-IsWhole :
      (answers : StartAnswers) (self : Node) (global : Global)
      → self.running ≡ false
      → IsWhole self
      → IsWhole (bind_node on answers self global).1
  unfolding bind_node destroy_pipewire_objects
  bind_node-IsWhole answers self global off w =
      let P = λ (r : Outcome (Unit {0}) × Node). IsWhole r.1 in
      let started : Node = record self {
        registry = true;
        has_registry_listener = true;
        node = true;
        has_node_listener = true;
        generation = u32 (self.generation + 1);
        running = true;
        bound = true;
      } in
      let whole : IsWhole started = ground (arith) in
      let k = told-Keeps on respect notify_running started started (same-Keeps started whole) in
      if-both P (not answers.registry_new)
        (ground (
          arith,
          off,
          w.idle_registry off,
          w.idle_node off,
          w.registry_listener (w.idle_registry off),
          w.node_listener (w.idle_node off),
        ))
        (if-both P (not (answers.bind global.id (bind_version global.version)))
          (bare-IsWhole _ refl refl refl refl)
          (if-both P (is_negative answers.add_listener) (bare-IsWhole _ refl refl refl refl)
            (told-Keeps on respect notify_bound started (emit on notify_running started) k).whole))

  start_connected-IsWhole :
      (answers : StartAnswers) (self : Node) (global : Global) (connected : Outcome (Unit {0}))
      (core : Core)
      → self.running ≡ false
      → IsWhole self
      → IsWhole (start_connected on answers self global connected core).1
  unfolding start_connected
  start_connected-IsWhole answers self global (err e) core off w =
      (relabelled self _ refl refl refl refl refl w).whole
  start_connected-IsWhole answers self global (ok u) core off w =
      let k = relabelled self (record self { core = some core }) refl refl refl refl refl w in
      if-both (λ (r : Outcome (Unit {0}) × Node). IsWhole r.1)
        (not core.thread_loop || not core.core) k.whole
        (bind_node-IsWhole answers (record self { core = some core }) global off k.whole)

  start_global-IsWhole :
      (connect_answers : ConnectAnswers) (answers : StartAnswers) (self : Node) (core : Option Core)
      (global : Option Global)
      → self.running ≡ false
      → IsWhole self
      → IsWhole (start_global on connect_answers answers self core global).1
  unfolding start_global
  start_global-IsWhole connect_answers answers self none global off w = w
  start_global-IsWhole connect_answers answers self (some core) none off w = w
  start_global-IsWhole connect_answers answers self (some core) (some global) off w =
      if-both (λ (r : Outcome (Unit {0}) × Node). IsWhole r.1)
        (not (is_interface global interface_node)) w
        (start_connected-IsWhole answers self global (connect connect_answers core).0
          (connect connect_answers core).1 off w)

  pub start-IsWhole :
      (connect_answers : ConnectAnswers) (answers : StartAnswers) (self : Node)
      → IsWhole self
      → IsWhole (start on connect_answers answers self).1
  unfolding start
  start-IsWhole connect_answers answers self w =
      if-cases (λ (r : Outcome (Unit {0}) × Node). IsWhole r.1) self.running (λ _. w)
        (λ off. start_global-IsWhole connect_answers answers self self.core self.global off w)
