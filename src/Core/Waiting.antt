-- ===== src/Core/Waiting.antt =====
-- The round trip of a sync: what events of PipeWire make of its state.
use pipewire_gobject.Prelude.{
  ◌≤◌, ◌<◌, ◌≡◌, refl, ap, subst, ◌∙◌, Bool, true, false, ◌&&◌, ◌||◌, Option, none, some, List, [],
  ◌∷◌, arith, ◌==◌, if◌then◌else◌,
}
use pipewire_gobject.Prelude.Int.{ℤ, is_negative, int_eq}
use pipewire_gobject.Error.{Outcome, ok, err, pipewire}
use pipewire_gobject.Core.Sync.{
  SyncData, CoreEvent, core_done, core_error, Wake, id_core, on_done, on_error, on_event, on_events,
  queue_main_context_done,
}

-- Whether PipeWire confirms the request, and whether it refuses it.
abbrev pub is_confirmation : ℤ → CoreEvent → Bool
is_confirmation seq (core_done id answered) = id == id_core && int_eq answered seq
is_confirmation seq (core_error id answered res message) = false

abbrev pub is_refusal : ℤ → CoreEvent → Bool
is_refusal seq (core_done id answered) = false
is_refusal seq (core_error id answered res message) = id == id_core && int_eq answered seq

abbrev pub confirms : ℤ → List CoreEvent → Bool
confirms seq [] = false
confirms seq (event ∷ events) = is_confirmation seq event || confirms seq events

abbrev pub refuses : ℤ → List CoreEvent → Bool
refuses seq [] = false
refuses seq (event ∷ events) = is_refusal seq event || refuses seq events

-- What the caller is told: the first wake that brings an answer decides, a refusal before a
-- confirmation, and a timed wait may end before.
unfoldable pub verdict : Bool → ℤ → List Wake → Option (Outcome (Unit {0}))
verdict timed seq [] = none
verdict timed seq (wake ∷ wakes) =
    let later = verdict timed seq wakes in
    if refuses seq wake.events
    then some (err pipewire)
    else if confirms seq wake.events
    then some (ok tt)
    else if timed && is_negative wake.wait_result
    then some (err pipewire)
    else later

-- How one event changes the record.
pub record Changes (info : SyncData) (confirmed : Bool) (refused : Bool) (now : SyncData)
    : Type 0 where
  pub refusal : is_negative now.error_result ≡ (is_negative info.error_result || refused)
  pub confirmation : now.done ≡ (info.done || confirmed)
  pub same_seq : now.seq ≡ info.seq
  pub same_context : now.main_context ≡ info.main_context
  pub same_flag : now.main_context_done ≡ info.main_context_done
  pub kept : info.sources ≤ now.sources
  pub source : confirmed ≡ true → info.main_context ≡ true → 0 < now.sources

on_event-Changes :
    (info : SyncData) (event : CoreEvent)
    → Changes info
        (is_confirmation info.seq event)
        (is_refusal info.seq event)
        (on_event info event)
unfolding on_event on_done on_error queue_main_context_done
on_event-Changes info (core_done id seq) = record {
  refusal = ground arith;
  confirmation = ground arith;
  same_seq = ground arith;
  same_context = ground arith;
  same_flag = ground arith;
  kept = ground arith;
  source = λ c m. ground (arith, c, m);
}
on_event-Changes info (core_error id seq res message) = record {
  refusal = ground arith;
  confirmation = ground arith;
  same_seq = ground arith;
  same_context = ground arith;
  same_flag = ground arith;
  kept = ground arith;
  source = λ c m. ground (arith, c, m);
}

pub on_events-Changes :
    (info : SyncData) (events : List CoreEvent)
    → Changes info (confirms info.seq events) (refuses info.seq events) (on_events info events)
unfolding on_events
on_events-Changes info [] = record {
  refusal = ground arith;
  confirmation = ground arith;
  same_seq = refl;
  same_context = refl;
  same_flag = refl;
  kept = omega arith;
  source = λ c m. absurd (ground (arith, c));
}
on_events-Changes info (event ∷ events) =
    let now = on_event info event in
    let c = on_event-Changes info event in
    let r =
      subst (λ seq. Changes now (confirms seq events) (refuses seq events) (on_events now events))
        c.same_seq (on_events-Changes now events) in
    record {
      refusal = ground (arith, c.refusal, r.refusal);
      confirmation = ground (arith, c.confirmation, r.confirmation);
      same_seq = r.same_seq ∙ c.same_seq;
      same_context = r.same_context ∙ c.same_context;
      same_flag = r.same_flag ∙ c.same_flag;
      kept = omega (arith, c.kept, r.kept);
      source = λ f m. ground (arith, f, m, c.source, r.source, r.kept, c.same_context);
    }

-- Events that do not answer the request leave the record alone.
on_event-ignored :
    (info : SyncData) (event : CoreEvent)
    → is_confirmation info.seq event ≡ false
    → is_refusal info.seq event ≡ false
    → on_event info event ≡ info
unfolding on_event on_done on_error
on_event-ignored info (core_done id seq) c r = ground (arith, c)
on_event-ignored info (core_error id seq res message) c r = ground (arith, r)

pub on_events-ignored :
    (info : SyncData) (events : List CoreEvent)
    → confirms info.seq events ≡ false
    → refuses info.seq events ≡ false
    → on_events info events ≡ info
unfolding on_events
on_events-ignored info [] c r = refl
on_events-ignored info (event ∷ events) c r =
    ap (λ now. on_events now events)
      (on_event-ignored info event (ground (arith, c)) (ground (arith, r)))
    ∙ on_events-ignored info events (ground (arith, c)) (ground (arith, r))
