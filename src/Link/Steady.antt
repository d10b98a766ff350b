-- ===== src/Link/Steady.antt =====
-- What holds of a link between any two operations, where no handler calls back into it.
use pipewire_gobject.Prelude.{
  ◌+◌, ◌≡◌, refl, String, Bool, true, false, not, ◌&&◌, ◌||◌, Option, none, some, List, [], ◌∷◌,
  ◌==◌, arith, if-both, if-cases,
}
use pipewire_gobject.Prelude.Word.{u32}
use pipewire_gobject.Core.Connection.{Core, disconnect}
use pipewire_gobject.Link.State.{Link, LinkEvent, LinkReport, link_info, link_removed, quiet, emit}
use pipewire_gobject.Link.Operations.{
  destroy_pipewire_objects, clear_name, clear_error, clear_state, set_unbound, set_stopped, reset,
  stop, update_name, update_error, update_state, apply_report, dispatch_event, queue_event,
  LinkInfo, on_info, run_sources, on_core_connected_notify, lose_core,
}

-- A link that runs is bound, with both proxies and both listeners; one that does not has none of
-- them, and shows no state and no error.
pub record IsSteady (self : Link) : Type 0 where
  pub bound : self.bound ≡ self.running
  pub registry : self.registry ≡ self.running
  pub link : self.link ≡ self.running
  pub registry_listener : self.has_registry_listener ≡ self.running
  pub link_listener : self.has_link_listener ≡ self.running
  pub no_state : self.running ≡ false → self.state ≡ none
  pub no_error : self.running ≡ false → self.error ≡ none

-- Whatever a link without proxies shows, the end of a stop clears it.
ended-IsSteady :
    (self : Link)
    → self.registry ≡ false
    → self.link ≡ false
    → self.has_registry_listener ≡ false
    → self.has_link_listener ≡ false
    → IsSteady (clear_state quiet (set_stopped quiet (set_unbound quiet self)))
unfolding clear_state set_stopped set_unbound clear_name clear_error emit
ended-IsSteady self r l a b = ground (arith, r, l, a, b)

pub stop-IsSteady : (self : Link) → IsSteady self → IsSteady (stop quiet self)
unfolding stop destroy_pipewire_objects
stop-IsSteady self w = if-both IsSteady (not self.running && not self.registry && not self.link) w (
    ended-IsSteady
      (destroy_pipewire_objects (record self { generation = u32 (self.generation + 1) })) refl refl
      refl refl)

reset-IsSteady : (self : Link) → IsSteady (reset quiet self)
unfolding reset
reset-IsSteady self =
    ended-IsSteady
      (record self {
        registry = false;
        link = false;
        has_registry_listener = false;
        has_link_listener = false;
        generation = u32 (self.generation + 1);
      })
      refl refl refl refl

pub core-IsSteady :
    (self : Link) (core : Option Core) → IsSteady self → IsSteady (record self { core = core })
core-IsSteady self core w = ground (arith, w.no_state, w.no_error)

pub lose_core-IsSteady :
    (self : Link) (core : Core) → IsSteady self → IsSteady (lose_core quiet self core)
unfolding lose_core on_core_connected_notify
lose_core-IsSteady self core w =
    let lost : Link = record self { core = some (disconnect core) } in
    if-both IsSteady core.connected
      (if-both IsSteady (disconnect core).connected (core-IsSteady self (some (disconnect core)) w)
        (reset-IsSteady lost))
      (core-IsSteady self (some (disconnect core)) w)

update_state-IsSteady :
    (self : Link) (state error : Option String)
    → self.running ≡ true
    → IsSteady self
    → IsSteady (update_state quiet self state error)
unfolding update_state update_name update_error emit
update_state-IsSteady self state error on w = ground (arith, on, w.no_state, w.no_error)

apply_report-IsSteady :
    (self : Link) (report : LinkReport)
    → self.running ≡ true
    → IsSteady self
    → IsSteady (apply_report quiet self report)
unfolding apply_report
apply_report-IsSteady self (link_info state error) on w =
    update_state-IsSteady self state error on w
apply_report-IsSteady self link_removed on w = stop-IsSteady self w

dispatch_event-IsSteady :
    (self : Link) (event : LinkEvent) → IsSteady self → IsSteady (dispatch_event quiet self event)
unfolding dispatch_event
dispatch_event-IsSteady self event w =
    if-cases IsSteady (not self.running || not (event.generation == self.generation)) (λ _. w)
      (λ e. apply_report-IsSteady self event.report (ground (arith, e)) w)

pub queue_event-IsSteady :
    (self : Link) (direct : Bool) (report : LinkReport)
    → IsSteady self
    → IsSteady (queue_event quiet direct self report)
unfolding queue_event
queue_event-IsSteady self direct report w =
    let event : LinkEvent = record { generation = self.generation; report = report } in
    if-both IsSteady direct (dispatch_event-IsSteady self event w)
      (ground (arith, w.no_state, w.no_error))

pub on_info-IsSteady :
    (self : Link) (direct : Bool) (info : Option LinkInfo)
    → IsSteady self
    → IsSteady (on_info quiet direct self info)
unfolding on_info
on_info-IsSteady self direct none w = w
on_info-IsSteady self direct (some info) w =
    if-both IsSteady (not info.state_changed) w
      (queue_event-IsSteady self direct (link_info info.state info.error) w)

pub run_sources-IsSteady :
    (self : Link) (events : List LinkEvent)
    → IsSteady self
    → IsSteady (run_sources quiet self events)
unfolding run_sources
run_sources-IsSteady self [] w = w
run_sources-IsSteady self (event ∷ events) w =
    run_sources-IsSteady (dispatch_event quiet self event) events
      (dispatch_event-IsSteady self event w)
