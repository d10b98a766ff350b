-- ===== src/Node/Brought.antt =====
-- What an application reads of a node after a wait, with the events that PipeWire brought meanwhile.
use pipewire_gobject.Prelude.{
  ℕ, ◌≡◌, refl, sym, ap, ◌∙◌, String, Option, Bool, true, false, none, some, List, [], ◌∷◌, ◌++◌,
  append-nil, append_assoc, ◌==◌, ==_refl, if◌then◌else◌, arith, Bool-cases, inl, inr,
}
use pipewire_gobject.Prelude.Arrivals.{at_once, attached}
use pipewire_gobject.Node.State.{
  Node, NodeEvent, NodeReport, ParamInfoCopy, node_info, node_param, node_removed, quiet, emit,
}
use pipewire_gobject.Node.Operations.{
  stop, update_name, update_error, update_state, update_param_infos, apply_param_infos,
  apply_report, queue_event, drain,
}
use pipewire_gobject.Node.Control.{receive}
use pipewire_gobject.Node.Follow.{
  Shown, shown, current, infos_or, follow, Shows, info-Shows, shown-stop,
}
use pipewire_gobject.Node.Shown.{
  dispatch_event-ignored, dispatch_event-applied, run_sources-stopped, node_shown,
}

-- What a wait has brought shows nothing of a node that does not run.
stopped_brought :
    (self : Node) (arrivals : List (Bool × NodeReport))
    → self.running ≡ false
    → shown (drain quiet (receive quiet self arrivals)) ≡ shown self
unfolding drain receive queue_event
stopped_brought self [] off =
    ap shown (run_sources-stopped (record self { queue = [] }) self.queue off)
stopped_brought self ((true, report) ∷ arrivals) off =
    let event : NodeEvent = record { generation = self.generation; report = report } in
    ap (λ now. shown (drain quiet (receive quiet now arrivals)))
      (dispatch_event-ignored self event (ground (arith, off)))
    ∙ stopped_brought self arrivals off
stopped_brought self ((false, report) ∷ arrivals) off =
    stopped_brought (queue_event quiet false self report) arrivals off

current-attach :
    (generation : ℕ) (events : List NodeEvent) (report : NodeReport)
    → current generation (events ++ record { generation = generation; report = report } ∷ [])
      ≡ current generation events ++ report ∷ []
current-attach generation [] report =
    ap (λ (b : Bool). if b then report ∷ [] else []) (==_refl generation)
current-attach generation (event ∷ events) report =
    elim (Bool-cases (event.generation == generation)) [
      | inl e ↦ rw e (ap (λ rs. event.report ∷ rs) (current-attach generation events report))
      | inr e ↦ rw e (current-attach generation events report)
    ]

name-queue :
    (self : Node) (state : Option String) → (update_name quiet self state).queue ≡ self.queue
unfolding update_name emit
name-queue self state = ground arith

error-queue :
    (self : Node) (error : Option String) → (update_error quiet self error).queue ≡ self.queue
unfolding update_error emit
error-queue self error = ground arith

-- What an information changes leaves the events that wait.
info-queue :
    (self : Node) (state_changed : Bool) (state error : Option String)
    (copies : Option (List ParamInfoCopy))
    → (apply_report quiet self (node_info state_changed state error copies)).queue ≡ self.queue
unfolding apply_report apply_param_infos update_param_infos update_state emit
info-queue self true state error (some copies) =
    error-queue (update_name quiet self state) error ∙ name-queue self state
info-queue self true state error none =
    error-queue (update_name quiet self state) error ∙ name-queue self state
info-queue self false state error (some copies) = refl
info-queue self false state error none = refl

-- What is shown at the end of a wait, told from what is shown, in the session and with the events
-- of `self`.
Brings : Node → Shown → List (Bool × NodeReport) → Node → Type 0
Brings self told arrivals now =
    shown (drain quiet (receive quiet now arrivals))
    ≡ follow told (at_once arrivals ++ (current self.generation self.queue ++ attached arrivals))

bring_one :
    (self now : Node) (told : Shown) (arrivals : List (Bool × NodeReport))
    → Shows self told now
    → now.queue ≡ self.queue
    → told.running ≡ true
    → ((next : Node) → next.running ≡ true → Brings next (shown next) arrivals next)
    → Brings self told arrivals now
unfolding Brings
bring_one self now told arrivals (s, g) q on rest =
    let after = λ (n : ℕ) (events : List NodeEvent) (t : Shown).
      follow t (at_once arrivals ++ (current n events ++ attached arrivals)) in
    rest now (ap (λ (t : Shown). t.running) s ∙ on)
    ∙ ap (after now.generation now.queue) s
    ∙ ap (λ n. after n now.queue told) g
    ∙ ap (λ events. after self.generation events told) q

-- One report that is dispatched at once.
bring_at_once :
    (self : Node) (report : NodeReport) (arrivals : List (Bool × NodeReport))
    → self.running ≡ true
    → ((next : Node) → next.running ≡ true → Brings next (shown next) arrivals next)
    → shown (drain quiet (receive quiet (apply_report quiet self report) arrivals))
      ≡ follow
          (shown self)
          (report ∷ at_once arrivals ++ (current self.generation self.queue ++ attached arrivals))
unfolding Brings apply_report emit
bring_at_once self (node_info state_changed state error copies) arrivals on rest =
    bring_one self (apply_report quiet self (node_info state_changed state error copies))
      (record (shown self) {
        state = if state_changed then state else self.state;
        error = if state_changed then error else self.error;
        param_infos = infos_or self.param_infos copies;
      })
      arrivals (info-Shows self state_changed state error copies)
      (info-queue self state_changed state error copies) on rest
bring_at_once self (node_param none) arrivals on rest =
    bring_one self self (shown self) arrivals (refl, refl) refl on rest
bring_at_once self (node_param (some param)) arrivals on rest =
    bring_one self (apply_report quiet self (node_param (some param)))
      (record (shown self) { params = self.params ++ param ∷ [] }) arrivals (refl, refl) refl on
      rest
bring_at_once self node_removed arrivals on rest =
    let stopped = shown-stop self on in
    stopped_brought (stop quiet self) arrivals (ap (λ (t : Shown). t.running) stopped) ∙ stopped

-- The reports that were dispatched at once come first, then those that were attached before the
-- wait, then those that the wait attached.
pub receive-shown :
    (self : Node) (arrivals : List (Bool × NodeReport))
    → self.running ≡ true
    → shown (drain quiet (receive quiet self arrivals))
      ≡ follow
          (shown self)
          (at_once arrivals ++ (current self.generation self.queue ++ attached arrivals))
unfolding drain receive queue_event Brings
receive-shown self [] on =
    node_shown (record self { queue = [] }) self.queue on
    ∙ ap (follow (shown self)) (sym (append-nil (current self.generation self.queue)))
receive-shown self ((true, report) ∷ arrivals) on =
    let event : NodeEvent = record { generation = self.generation; report = report } in
    ap (λ now. shown (drain quiet (receive quiet now arrivals)))
      (dispatch_event-applied self event on (==_refl self.generation))
    ∙ bring_at_once self report arrivals on (λ next h. receive-shown next arrivals h)
receive-shown self ((false, report) ∷ arrivals) on =
    receive-shown (queue_event quiet false self report) arrivals on
    ∙ ap (λ rs. follow (shown self) (at_once arrivals ++ rs))
        (ap (λ rs. rs ++ attached arrivals) (current-attach self.generation self.queue report)
          ∙ append_assoc (current self.generation self.queue) (report ∷ []) (attached arrivals))
