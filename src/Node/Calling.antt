-- ===== src/Node/Calling.antt =====
-- What a stop of a node and an event do when a handler starts or stops the node.
use pipewire_gobject.Prelude.{
  ◌+◌, ◌≡◌, refl, sym, subst, ap, ◌∙◌, ◌++◌, ◌∷◌, [], ◌||◌, String, true, false, not, ◌&&◌, Option,
  some, List, ◌==◌, strcmp0_eq, arith, if-cases, if-both,
}
use pipewire_gobject.Prelude.Word.{u32}
use pipewire_gobject.Core.Connection.{ConnectAnswers}
use pipewire_gobject.Node.State.{
  Node, NodeEvent, ParamInfoCopy, node_info, notify_running, notify_bound, notify_state,
  notify_error, notify_param_infos, signal_param, Handlers, quiet, emit,
}
use pipewire_gobject.Node.Operations.{
  destroy_pipewire_objects, clear_name, clear_error, clear_state, clear_lists, set_unbound,
  set_stopped, stop, update_name, update_error, update_state, update_param_infos, param_infos_of,
  apply_param_infos, apply_report, dispatch_event,
}
use pipewire_gobject.Node.Control.{StartAnswers, start}
use pipewire_gobject.Node.Steady.{IsSteady, stopped-IsSteady}
use pipewire_gobject.Node.Starting.{start-IsSteady}

-- A handler of notify::bound that stops the node and starts it again.
unfoldable pub restarting : ConnectAnswers → StartAnswers → Handlers
unfolding start stop
restarting connect_answers answers notify_bound self =
    (start quiet connect_answers answers (stop quiet self)).1
restarting connect_answers answers notify_running self = self
restarting connect_answers answers notify_state self = self
restarting connect_answers answers notify_error self = self
restarting connect_answers answers notify_param_infos self = self
restarting connect_answers answers (signal_param p) self = self

-- A handler of notify::state that stops the node.
unfoldable pub stopping : Handlers
unfolding stop
stopping notify_state self = stop quiet self
stopping notify_bound self = self
stopping notify_running self = self
stopping notify_error self = self
stopping notify_param_infos self = self
stopping (signal_param p) self = self

-- The node that a stop shows to the handler of notify::bound.
abbrev pub unbound : Node → Node
unbound self = record self {
  generation = u32 (self.generation + 1);
  node = false;
  has_node_listener = false;
  registry = false;
  has_registry_listener = false;
  bound = false;
  emitted = self.emitted ++ notify_bound ∷ [];
}

-- The rest of a stop, behind the notification of `bound`.
rest_of_stop :
    (connect_answers : ConnectAnswers) (answers : StartAnswers) (self : Node)
    → self.running ≡ true
    → let on = restarting connect_answers answers in
      let after = clear_lists (clear_state on (set_stopped on self)) in
      (after.running ≡ false)
      × (after.bound ≡ self.bound)
      × (after.registry ≡ self.registry)
      × (after.node ≡ self.node)
unfolding clear_lists clear_state set_stopped clear_name clear_error emit restarting
rest_of_stop connect_answers answers self on = ground (arith, on)

-- A stop of a bound node, up to what the handler of notify::bound makes of it.
stop_notifies :
    (on : Handlers) (self : Node)
    → self.running ≡ true
    → self.bound ≡ true
    → stop on self ≡ clear_lists (clear_state on (set_stopped on (on notify_bound (unbound self))))
unfolding stop set_unbound destroy_pipewire_objects emit
stop_notifies on self r b =
    let end : Node → Node = λ x. clear_lists (clear_state on (set_stopped on x)) in
    let gone = destroy_pipewire_objects (record self { generation = u32 (self.generation + 1) }) in
    if-cases (λ x. x ≡ end (on notify_bound (unbound self)))
      (not self.running && not self.registry && not self.node) (λ e. absurd (ground (arith, e, r)))
      (λ _. ap end (
        if-cases (λ x. x ≡ on notify_bound (unbound self)) self.bound (λ _. refl)
          (λ e. absurd (ground (arith, e, b)))))

-- A handler of notify::bound stops the node and starts it again, and the start succeeds. Then the
-- stop of a node that runs, steady before, ends with a node that does not run and yet is bound, with
-- both proxies of the new session.
pub restart_in_stop :
    (connect_answers : ConnectAnswers) (answers : StartAnswers) (self : Node)
    → IsSteady self
    → self.running ≡ true
    → (restarting connect_answers answers notify_bound (unbound self)).running ≡ true
    → let after = stop (restarting connect_answers answers) self in
      (after.running ≡ false) × (after.bound ≡ true) × (after.registry ≡ true) × (after.node ≡ true)
unfolding restarting
restart_in_stop connect_answers answers self w on restarted =
    let handler = restarting connect_answers answers in
    let again : Node = handler notify_bound (unbound self) in
    let steady : IsSteady again =
      start-IsSteady connect_answers answers (stop quiet (unbound self))
        (stopped-IsSteady (unbound self) on) in
    let (r, b, g, n) = rest_of_stop connect_answers answers again restarted in
    subst (λ x. (x.running ≡ false) × (x.bound ≡ true) × (x.registry ≡ true) × (x.node ≡ true))
      (sym (stop_notifies handler self on (w.bound ∙ on)))
      (
        r,
        b ∙ steady.bound ∙ restarted,
        g ∙ steady.registry ∙ restarted,
        n ∙ steady.node ∙ restarted,
      )

-- What an event still does to a node that the handler of notify::state has stopped.
rest_of_event :
    (self : Node) (error : Option String) (copies : List ParamInfoCopy)
    → let after = update_param_infos stopping (update_error stopping self error) copies in
      (after.running ≡ self.running) × (after.param_infos ≡ param_infos_of copies)
unfolding update_param_infos update_error emit stopping
rest_of_event self error copies =
    (if-both (λ (x : Node). x.running ≡ self.running) (strcmp0_eq self.error error) refl refl, refl)

stopped_off : (self : Node) → self.running ≡ true → (stop quiet self).running ≡ false
unfolding stop destroy_pipewire_objects clear_lists clear_state set_stopped set_unbound clear_name
    clear_error emit
stopped_off self on = ground (arith, on)

-- An event that changes the state, of a node with the same generation that runs.
event_notifies :
    (on : Handlers) (self : Node) (event : NodeEvent) (state error : Option String)
    (copies : List ParamInfoCopy)
    → self.running ≡ true
    → event.generation ≡ self.generation
    → event.report ≡ node_info true state error (some copies)
    → strcmp0_eq self.state state ≡ false
    → dispatch_event on self event
      ≡ update_param_infos on
          (update_error on
            (on notify_state
              (record self { state = state; emitted = self.emitted ++ notify_state ∷ [] }))
            error)
          copies
unfolding dispatch_event apply_report apply_param_infos update_state update_name emit
event_notifies on self event state error copies running same report changed =
    let told =
      on notify_state
        (record self { state = state; emitted = self.emitted ++ notify_state ∷ [] }) in
    let after : Node → Node = λ x. update_param_infos on (update_error on x error) copies in
    if-cases (λ x. x ≡ after told) (not self.running || not (event.generation == self.generation))
      (λ e. absurd (ground (arith, e, running, same)))
      (λ _.
        subst (λ r. apply_report on self r ≡ after told) (sym report)
          (ap after (
            if-cases (λ x. x ≡ told) (strcmp0_eq self.state state)
              (λ e. absurd (ground (arith, e, changed))) (λ _. refl))))

-- A handler of notify::state stops the node. An event with a new state and the parameters, of a
-- node of the same generation that runs, still gives its parameters to the node, which then does not
-- run and yet shows them.
pub stop_in_event :
    (self : Node) (event : NodeEvent) (state error : Option String) (copies : List ParamInfoCopy)
    → self.running ≡ true
    → event.generation ≡ self.generation
    → event.report ≡ node_info true state error (some copies)
    → strcmp0_eq self.state state ≡ false
    → let after = dispatch_event stopping self event in
      (after.running ≡ false) × (after.param_infos ≡ param_infos_of copies)
unfolding stopping
stop_in_event self event state error copies running same report changed =
    let told : Node = record self { state = state; emitted = self.emitted ++ notify_state ∷ [] } in
    let (off, shown) = rest_of_event (stop quiet told) error copies in
    subst (λ x. (x.running ≡ false) × (x.param_infos ≡ param_infos_of copies))
      (sym (event_notifies stopping self event state error copies running same report changed))
      (off ∙ stopped_off told running, shown)
