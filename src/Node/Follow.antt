-- ===== src/Node/Follow.antt =====
-- What an application reads of a node, and what one report does to it.
use pipewire_gobject.Prelude.{
  ℕ, ◌+◌, ◌≡◌, refl, ap, ◌∙◌, String, Bool, true, false, not, ◌&&◌, Option, none, some, List, [],
  ◌∷◌, ◌++◌, ◌==◌, strcmp0_eq, strcmp0_same, if◌then◌else◌, arith, if-cases,
}
use pipewire_gobject.Prelude.Word.{u32}
use pipewire_gobject.Param.Pod.{Param}
use pipewire_gobject.ParamInfo.{ParamInfo}
use pipewire_gobject.Node.State.{
  Node, NodeEvent, NodeReport, ParamInfoCopy, node_info, node_param, node_removed, quiet, emit,
}
use pipewire_gobject.Node.Operations.{
  destroy_pipewire_objects, clear_name, clear_error, clear_state, clear_lists, set_unbound,
  set_stopped, stop, update_name, update_error, update_state, param_infos_of, update_param_infos,
  apply_param_infos, apply_report,
}

-- What an application reads.
pub record Shown : Type 0 where
  pub running : Bool
  pub state : Option String
  pub error : Option String
  pub param_infos : List ParamInfo
  pub params : List Param

abbrev pub shown : Node → Shown
shown self = record {
  running = self.running;
  state = self.state;
  error = self.error;
  param_infos = self.param_infos;
  params = self.params;
}

-- What an application reads of a node that does not run.
abbrev pub gone : Shown
gone = record { running = false; state = none; error = none; param_infos = []; params = [] }

-- The reports of one session.
abbrev pub current : ℕ → List NodeEvent → List NodeReport
current generation [] = []
current generation (event ∷ events) =
    let rest = current generation events in
    if event.generation == generation then event.report ∷ rest else rest

abbrev pub infos_or : List ParamInfo → Option (List ParamInfoCopy) → List ParamInfo
infos_or old none = old
infos_or old (some copies) = param_infos_of copies

-- What reports say of a node that runs: each information replaces what it has, each parameter is
-- added behind the others, and nothing follows on the removal.
abbrev pub follow : Shown → List NodeReport → Shown
follow now [] = now
follow now (node_info state_changed state error copies ∷ reports) =
    follow
      (record now {
        state = if state_changed then state else now.state;
        error = if state_changed then error else now.error;
        param_infos = infos_or now.param_infos copies;
      })
      reports
follow now (node_param none ∷ reports) = follow now reports
follow now (node_param (some param) ∷ reports) =
    follow (record now { params = now.params ++ param ∷ [] }) reports
follow now (node_removed ∷ reports) = gone

-- An operation leaves the session, and the application reads what is given.
abbrev pub Shows : Node → Shown → Node → Type 0
Shows self told now = (shown now ≡ told) × (now.generation ≡ self.generation)

update_name-Shows :
    (self : Node) (state : Option String)
    → Shows self (record (shown self) { state = state }) (update_name quiet self state)
unfolding update_name emit
update_name-Shows self state =
    if-cases (Shows self (record (shown self) { state = state })) (strcmp0_eq self.state state)
      (λ e. (ap (λ s. record (shown self) { state = s }) (strcmp0_same self.state state e), refl))
      (λ _. (refl, refl))

update_error-Shows :
    (self : Node) (error : Option String)
    → Shows self (record (shown self) { error = error }) (update_error quiet self error)
unfolding update_error emit
update_error-Shows self error =
    if-cases (Shows self (record (shown self) { error = error })) (strcmp0_eq self.error error)
      (λ e. (ap (λ s. record (shown self) { error = s }) (strcmp0_same self.error error e), refl))
      (λ _. (refl, refl))

update_state-Shows :
    (self : Node) (state error : Option String)
    → Shows self
        (record (shown self) { state = state; error = error })
        (update_state quiet self state error)
unfolding update_state
update_state-Shows self state error =
    let named = update_name quiet self state in
    let (n, g) = update_name-Shows self state in
    let (e, h) = update_error-Shows named error in
    (e ∙ ap (λ (s : Shown). record s { error = error }) n, h ∙ g)

-- What the first part of an information changes.
state_part-Shows :
    (self : Node) (state_changed : Bool) (state error : Option String)
    → Shows self
        (record (shown self) {
          state = if state_changed then state else self.state;
          error = if state_changed then error else self.error;
        })
        (if state_changed then update_state quiet self state error else self)
state_part-Shows self true state error = update_state-Shows self state error
state_part-Shows self false state error = (refl, refl)

apply_param_infos-Shows :
    (self : Node) (copies : Option (List ParamInfoCopy))
    → Shows self
        (record (shown self) { param_infos = infos_or self.param_infos copies })
        (apply_param_infos quiet self copies)
unfolding apply_param_infos update_param_infos emit
apply_param_infos-Shows self none = (refl, refl)
apply_param_infos-Shows self (some copies) = (refl, refl)

pub info-Shows :
    (self : Node) (state_changed : Bool) (state error : Option String)
    (copies : Option (List ParamInfoCopy))
    → Shows self
        (record (shown self) {
          state = if state_changed then state else self.state;
          error = if state_changed then error else self.error;
          param_infos = infos_or self.param_infos copies;
        })
        (apply_report quiet self (node_info state_changed state error copies))
unfolding apply_report
info-Shows self state_changed state error copies =
    let now = if state_changed then update_state quiet self state error else self in
    let (s, g) = state_part-Shows self state_changed state error in
    let (p, h) = apply_param_infos-Shows now copies in
    (
      p ∙ ap (λ (told : Shown). record told { param_infos = infos_or told.param_infos copies }) s,
      h ∙ g,
    )

ended_shown :
    (self : Node)
    → shown (clear_lists (clear_state quiet (set_stopped quiet (set_unbound quiet self)))) ≡ gone
unfolding clear_lists clear_state set_stopped set_unbound clear_name clear_error emit
ended_shown self = ground arith

pub shown-stop : (self : Node) → self.running ≡ true → shown (stop quiet self) ≡ gone
unfolding stop
shown-stop self on =
    if-cases (λ now. shown now ≡ gone) (not self.running && not self.registry && not self.node)
      (λ e. absurd (ground (arith, e, on)))
      (λ _.
        ended_shown
          (destroy_pipewire_objects (record self { generation = u32 (self.generation + 1) })))
