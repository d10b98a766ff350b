-- ===== src/Link/Shown.antt =====
-- What an application reads of a link, after the events of PipeWire.
use pipewire_gobject.Prelude.{
  ℕ, ◌+◌, ◌≡◌, refl, sym, ap, ◌∙◌, String, Bool, true, false, not, ◌&&◌, ◌||◌, Option, none, List,
  [], ◌∷◌, ◌==◌, strcmp0_eq, strcmp0_same, if◌then◌else◌, arith, if-cases, Bool-cases, inl, inr,
}
use pipewire_gobject.Prelude.Word.{u32}
use pipewire_gobject.Link.State.{Link, LinkEvent, LinkReport, link_info, link_removed, quiet, emit}
use pipewire_gobject.Link.Operations.{
  destroy_pipewire_objects, clear_name, clear_error, clear_state, set_unbound, set_stopped, stop,
  update_name, update_error, update_state, apply_report, dispatch_event, run_sources,
}

-- Whether the link runs, its state and its error.
abbrev pub Shown : Type 0
Shown = Bool × Option String × Option String

abbrev pub shown : Link → Shown
shown self = (self.running, self.state, self.error)

-- The reports of one session.
abbrev pub current : ℕ → List LinkEvent → List LinkReport
current generation [] = []
current generation (event ∷ events) =
    let rest = current generation events in
    if event.generation == generation then event.report ∷ rest else rest

-- What reports say of a link that runs: the last information before the removal, or nothing more.
abbrev pub follow : Option String → Option String → List LinkReport → Shown
follow state error [] = (true, state, error)
follow state error (link_info next_state next_error ∷ reports) =
    follow next_state next_error reports
follow state error (link_removed ∷ reports) = (false, none, none)

update_name-lem :
    (self : Link) (state : Option String)
    → let now = update_name quiet self state in
      (now.running ≡ self.running)
      × (now.generation ≡ self.generation)
      × (now.state ≡ state)
      × (now.error ≡ self.error)
unfolding update_name emit
update_name-lem self state =
    if-cases
      (λ (now : Link).
        (now.running ≡ self.running)
        × (now.generation ≡ self.generation)
        × (now.state ≡ state)
        × (now.error ≡ self.error))
      (strcmp0_eq self.state state) (λ e. (refl, refl, strcmp0_same self.state state e, refl))
      (λ _. (refl, refl, refl, refl))

update_error-lem :
    (self : Link) (error : Option String)
    → let now = update_error quiet self error in
      (now.running ≡ self.running)
      × (now.generation ≡ self.generation)
      × (now.state ≡ self.state)
      × (now.error ≡ error)
unfolding update_error emit
update_error-lem self error =
    if-cases
      (λ (now : Link).
        (now.running ≡ self.running)
        × (now.generation ≡ self.generation)
        × (now.state ≡ self.state)
        × (now.error ≡ error))
      (strcmp0_eq self.error error) (λ e. (refl, refl, refl, strcmp0_same self.error error e))
      (λ _. (refl, refl, refl, refl))

ended_shown :
    (self : Link)
    → shown (clear_state quiet (set_stopped quiet (set_unbound quiet self))) ≡ (false, none, none)
unfolding clear_state set_stopped set_unbound clear_name clear_error emit
ended_shown self = ground arith

shown-stop : (self : Link) → self.running ≡ true → shown (stop quiet self) ≡ (false, none, none)
unfolding stop
shown-stop self on =
    if-cases (λ now. shown now ≡ (false, none, none))
      (not self.running && not self.registry && not self.link) (λ e. absurd (ground (arith, e, on)))
      (λ _.
        ended_shown
          (destroy_pipewire_objects (record self { generation = u32 (self.generation + 1) })))

dispatch_event-ignored :
    (self : Link) (event : LinkEvent)
    → (not self.running || not (event.generation == self.generation)) ≡ true
    → dispatch_event quiet self event ≡ self
unfolding dispatch_event
dispatch_event-ignored self event h =
    if-cases (λ now. now ≡ self) (not self.running || not (event.generation == self.generation))
      (λ _. refl) (λ e. absurd (ground (arith, e, h)))

dispatch_event-applied :
    (self : Link) (event : LinkEvent)
    → self.running ≡ true
    → (event.generation == self.generation) ≡ true
    → dispatch_event quiet self event ≡ apply_report quiet self event.report
unfolding dispatch_event
dispatch_event-applied self event on e =
    if-cases (λ now. now ≡ apply_report quiet self event.report)
      (not self.running || not (event.generation == self.generation))
      (λ f. absurd (ground (arith, f, on, e))) (λ _. refl)

run_sources-stopped :
    (self : Link) (events : List LinkEvent)
    → self.running ≡ false
    → run_sources quiet self events ≡ self
unfolding run_sources
run_sources-stopped self [] off = refl
run_sources-stopped self (event ∷ events) off =
    ap (λ now. run_sources quiet now events)
      (dispatch_event-ignored self event (ground (arith, off)))
    ∙ run_sources-stopped self events off

after_report :
    (self : Link) (report : LinkReport) (events : List LinkEvent)
    → self.running ≡ true
    → ((now : Link)
        → now.running ≡ true
        → shown (run_sources quiet now events)
          ≡ follow now.state now.error (current now.generation events))
    → shown (run_sources quiet (apply_report quiet self report) events)
      ≡ follow self.state self.error (report ∷ current self.generation events)
unfolding apply_report update_state
after_report self link_removed events on rest =
    let stopped = shown-stop self on in
    ap shown (run_sources-stopped (stop quiet self) events (ap (λ v. v.0) stopped)) ∙ stopped
after_report self (link_info state error) events on rest =
    let named = update_name quiet self state in
    let now = update_error quiet named error in
    let (n0, n1, n2, n3) = update_name-lem self state in
    let (e0, e1, e2, e3) = update_error-lem named error in
    rest now (e0 ∙ n0 ∙ on)
    ∙ ap (λ s. follow s now.error (current now.generation events)) (e2 ∙ n2)
    ∙ ap (λ e. follow state e (current now.generation events)) e3
    ∙ ap (λ g. follow state error (current g events)) (e1 ∙ n1)

-- Where no handler calls back, an application reads of a link that runs, after any events, what the
-- reports of its own session say: the state and the error of the last information before the link
-- was removed, or, once it was removed, that it does not run and has neither; reports after the
-- removal, and those of other sessions, do nothing.
pub run_sources-shown :
    (self : Link) (events : List LinkEvent)
    → self.running ≡ true
    → shown (run_sources quiet self events)
      ≡ follow self.state self.error (current self.generation events)
unfolding run_sources
run_sources-shown self [] on = ap (λ r. (r, self.state, self.error)) on
run_sources-shown self (event ∷ events) on =
    elim (Bool-cases (event.generation == self.generation)) [
      | inl e ↦
          ap (λ now. shown (run_sources quiet now events)) (dispatch_event-applied self event on e)
          ∙ after_report self event.report events on (λ now h. run_sources-shown now events h)
          ∙ ap
              (λ b. follow self.state self.error (
                if b
                then event.report ∷ current self.generation events
                else current self.generation events))
              (sym e)
      | inr e ↦
          ap (λ now. shown (run_sources quiet now events))
            (dispatch_event-ignored self event (ground (arith, e)))
          ∙ run_sources-shown self events on
          ∙ ap
              (λ b. follow self.state self.error (
                if b
                then event.report ∷ current self.generation events
                else current self.generation events))
              (sym e)
    ]
