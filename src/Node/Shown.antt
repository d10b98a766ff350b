-- ===== src/Node/Shown.antt =====
-- What an application reads of a node, after the events of PipeWire.
use pipewire_gobject.Prelude.{
  ◌≡◌, refl, sym, ap, ◌∙◌, Bool, true, false, not, ◌||◌, none, some, List, [], ◌∷◌, ◌++◌, ◌==◌,
  if◌then◌else◌, arith, if-cases, Bool-cases, inl, inr,
}
use pipewire_gobject.Node.State.{
  Node, NodeEvent, NodeReport, node_info, node_param, node_removed, quiet, emit,
}
use pipewire_gobject.Node.Operations.{stop, apply_report, dispatch_event, run_sources}
use pipewire_gobject.Node.Follow.{
  Shown, shown, current, infos_or, follow, Shows, info-Shows, shown-stop,
}

pub dispatch_event-ignored :
    (self : Node) (event : NodeEvent)
    → (not self.running || not (event.generation == self.generation)) ≡ true
    → dispatch_event quiet self event ≡ self
unfolding dispatch_event
dispatch_event-ignored self event h =
    if-cases (λ now. now ≡ self) (not self.running || not (event.generation == self.generation))
      (λ _. refl) (λ e. absurd (ground (arith, e, h)))

pub dispatch_event-applied :
    (self : Node) (event : NodeEvent)
    → self.running ≡ true
    → (event.generation == self.generation) ≡ true
    → dispatch_event quiet self event ≡ apply_report quiet self event.report
unfolding dispatch_event
dispatch_event-applied self event on e =
    if-cases (λ now. now ≡ apply_report quiet self event.report)
      (not self.running || not (event.generation == self.generation))
      (λ f. absurd (ground (arith, f, on, e))) (λ _. refl)

pub run_sources-stopped :
    (self : Node) (events : List NodeEvent)
    → self.running ≡ false
    → run_sources quiet self events ≡ self
unfolding run_sources
run_sources-stopped self [] off = refl
run_sources-stopped self (event ∷ events) off =
    ap (λ now. run_sources quiet now events)
      (dispatch_event-ignored self event (ground (arith, off)))
    ∙ run_sources-stopped self events off

-- After one report, the others are followed from what it shows.
follow_one :
    (self now : Node) (told : Shown) (events : List NodeEvent)
    → Shows self told now
    → told.running ≡ true
    → ((next : Node)
        → next.running ≡ true
        → shown (run_sources quiet next events)
          ≡ follow (shown next) (current next.generation events))
    → shown (run_sources quiet now events) ≡ follow told (current self.generation events)
follow_one self now told events (s, g) on rest =
    rest now (ap (λ (t : Shown). t.running) s ∙ on)
    ∙ ap (λ t. follow t (current now.generation events)) s
    ∙ ap (λ n. follow told (current n events)) g

after_report :
    (self : Node) (report : NodeReport) (events : List NodeEvent)
    → self.running ≡ true
    → ((next : Node)
        → next.running ≡ true
        → shown (run_sources quiet next events)
          ≡ follow (shown next) (current next.generation events))
    → shown (run_sources quiet (apply_report quiet self report) events)
      ≡ follow (shown self) (report ∷ current self.generation events)
unfolding apply_report emit
after_report self (node_info state_changed state error copies) events on rest =
    follow_one self (apply_report quiet self (node_info state_changed state error copies))
      (record (shown self) {
        state = if state_changed then state else self.state;
        error = if state_changed then error else self.error;
        param_infos = infos_or self.param_infos copies;
      })
      events (info-Shows self state_changed state error copies) on rest
after_report self (node_param none) events on rest =
    follow_one self self (shown self) events (refl, refl) on rest
after_report self (node_param (some param)) events on rest =
    follow_one self (apply_report quiet self (node_param (some param)))
      (record (shown self) { params = self.params ++ param ∷ [] }) events (refl, refl) on rest
after_report self node_removed events on rest =
    let stopped = shown-stop self on in
    ap shown (run_sources-stopped (stop quiet self) events (ap (λ (t : Shown). t.running) stopped))
    ∙ stopped

-- Where no handler calls back, an application reads of a node that runs, after any events, what the
-- reports of its own session say, one after the other: the last state and error, the last list of
-- parameter descriptors, and all parameters in the order of their events behind those that were
-- there; once the node was removed, that it does not run and has none of these. Reports after the
-- removal, and those of other sessions, do nothing.
pub node_shown :
    (self : Node) (events : List NodeEvent)
    → self.running ≡ true
    → shown (run_sources quiet self events) ≡ follow (shown self) (current self.generation events)
unfolding run_sources
node_shown self [] on = refl
node_shown self (event ∷ events) on =
    let spec = λ (b : Bool). follow (shown self) (
      if b
      then event.report ∷ current self.generation events
      else current self.generation events) in
    elim (Bool-cases (event.generation == self.generation)) [
      | inl e ↦
          ap (λ now. shown (run_sources quiet now events)) (dispatch_event-applied self event on e)
          ∙ after_report self event.report events on (λ next h. node_shown next events h)
          ∙ ap spec (sym e)
      | inr e ↦
          ap (λ now. shown (run_sources quiet now events))
            (dispatch_event-ignored self event (ground (arith, e)))
          ∙ node_shown self events on
          ∙ ap spec (sym e)
    ]
