-- ===== src/Core/Verdict.antt =====
-- The round trip of a sync: what a caller is told, from the events of PipeWire alone.
use pipewire_gobject.Prelude.{
  ℕ, ◌<◌, ◌≡◌, refl, sym, ap, ◌∙◌, Bool, true, false, not, ◌&&◌, ◌||◌, Option, none, some, List, [],
  ◌∷◌, arith, if-both, if-cases, ltb, if◌then◌else◌,
}
use pipewire_gobject.Prelude.Int.{ℤ, pos, negsuc, is_negative, int_eq}
use pipewire_gobject.Error.{Outcome, ok, err, pipewire}
use pipewire_gobject.Core.Sync.{
  SyncData, CoreEvent, Wake, on_events, wait, iterate_main_context, conclude, SyncAnswers,
  sync_data, sync_request, told, result_of, succeed,
}
use pipewire_gobject.Core.Waiting.{confirms, refuses, verdict, on_events-Changes, on_events-ignored}

negative_not_zero : (a : ℤ) → is_negative a ≡ true → int_eq a (pos 0) ≡ false
negative_not_zero (pos a) h = absurd (ground (arith, h))
negative_not_zero (negsuc a) h = refl

-- The loop stops at a record that has its answer.
wait-answered :
    (timed : Bool) (result : ℤ) (info : SyncData) (wakes : List Wake)
    → (info.done || not (int_eq info.error_result (pos 0))) ≡ true
    → wait timed result info wakes ≡ some (info, result)
unfolding wait
wait-answered timed result info [] h = rw h refl
wait-answered timed result info (wake ∷ wakes) h = rw h refl

-- A refused request is told as a failure, and a confirmed one as a success: the main context has a
-- source to wait for.
told-refused :
    (info : SyncData) (result : ℤ)
    → is_negative info.error_result ≡ true
    → told (some (info, result)) ≡ some (err pipewire)
unfolding told conclude
told-refused info result h =
    if-cases (λ r. result_of r ≡ some (err pipewire)) (is_negative info.error_result) (λ _. refl)
      (λ e. absurd (ground (arith, h, e)))

iterate-returns :
    (info : SyncData)
    → (info.main_context ≡ true → 0 < info.sources)
    → result_of (succeed (iterate_main_context info)) ≡ some (ok tt)
unfolding iterate_main_context
iterate-returns info s =
    if-cases (λ r. result_of (succeed r) ≡ some (ok tt))
      (info.main_context && not info.main_context_done)
      (λ e.
        if-cases (λ r. result_of (succeed r) ≡ some (ok tt)) (ltb 0 info.sources) (λ _. refl)
          (λ f. absurd (ground (arith, e, f, s))))
      (λ _. refl)

told-confirmed :
    (info : SyncData) (result : ℤ)
    → is_negative info.error_result ≡ false
    → info.done ≡ true
    → (info.main_context ≡ true → 0 < info.sources)
    → told (some (info, result)) ≡ some (ok tt)
unfolding told conclude
told-confirmed info result e d s =
    if-cases (λ r. result_of r ≡ some (ok tt)) (is_negative info.error_result)
      (λ f. absurd (ground (arith, e, f)))
      (λ _.
        if-cases (λ r. result_of r ≡ some (ok tt)) (not info.done)
          (λ f. absurd (ground (arith, d, f))) (λ _. iterate-returns info s))

told-unanswered :
    (info : SyncData) (result : ℤ)
    → is_negative info.error_result ≡ false
    → info.done ≡ false
    → told (some (info, result)) ≡ some (err pipewire)
unfolding told conclude
told-unanswered info result e d =
    if-both (λ r. result_of r ≡ some (err pipewire)) (is_negative info.error_result) refl
      (if-cases (λ r. result_of r ≡ some (err pipewire)) (not info.done) (λ _. refl)
        (λ f. absurd (ground (arith, d, f))))

told-eq : (info : SyncData) (a b : ℤ) → told (some (info, a)) ≡ told (some (info, b))
unfolding told
told-eq info a b = refl

-- A wake with an answer ends the loop, whatever the timed wait says.
told-answered :
    (timed : Bool) (result : ℤ) (now : SyncData) (over : Bool) (wait_result : ℤ) (wakes : List Wake)
    → (now.done || not (int_eq now.error_result (pos 0))) ≡ true
    → told (if over then some (now, wait_result) else wait timed result now wakes)
      ≡ told (some (now, wait_result))
told-answered timed result now true wait_result wakes h = refl
told-answered timed result now false wait_result wakes h =
    ap told (wait-answered timed result now wakes h) ∙ told-eq now result wait_result

-- A record that waits for its answer.
record IsPending (info : SyncData) : Type 0 where
  no_error : info.error_result ≡ pos 0
  not_done : info.done ≡ false

wait-pending :
    (timed : Bool) (result : ℤ) (info : SyncData) (wake : Wake) (wakes : List Wake)
    → IsPending info
    → wait timed result info (wake ∷ wakes) ≡ (
        if timed && is_negative wake.wait_result
        then some (on_events info wake.events, wake.wait_result)
        else wait timed
            (if timed then wake.wait_result else result)
            (on_events info wake.events)
            wakes)
unfolding wait
wait-pending timed result info wake wakes p =
    if-cases
      (λ r. r ≡ (
        if timed && is_negative wake.wait_result
        then some (on_events info wake.events, wake.wait_result)
        else wait timed (if timed then wake.wait_result else result) (on_events info wake.events)
            wakes))
      (info.done || not (int_eq info.error_result (pos 0)))
      (λ e. absurd (ground (arith, e, p.no_error, p.not_done))) (λ _. refl)

wait-nil :
    (timed : Bool) (result : ℤ) (info : SyncData)
    → IsPending info
    → wait timed result info [] ≡ none
unfolding wait
wait-nil timed result info p =
    if-cases (λ r. r ≡ none) (info.done || not (int_eq info.error_result (pos 0)))
      (λ e. absurd (ground (arith, e, p.no_error, p.not_done))) (λ _. refl)

told-nil : told none ≡ none
unfolding told
told-nil = refl

-- A wake without an answer: the call fails if the timed wait is over, or goes on.
told-next :
    (over : Bool) (timed : Bool) (result : ℤ) (wait_result : ℤ) (info : SyncData) (now : SyncData)
    (wakes : List Wake) (rest : Option (Outcome (Unit {0})))
    → IsPending info
    → now ≡ info
    → told (wait timed result info wakes) ≡ rest
    → told (if over then some (now, wait_result) else wait timed result now wakes)
      ≡ (if over then some (err pipewire) else rest)
told-next true timed result wait_result info now wakes rest p same r =
    ap (λ i. told (some (i, wait_result))) same
    ∙ told-unanswered info wait_result (ground (arith, p.no_error)) p.not_done
told-next false timed result wait_result info now wakes rest p same r =
    ap (λ i. told (wait timed result i wakes)) same ∙ r

told-verdict :
    (timed : Bool) (result : ℤ) (info : SyncData) (wakes : List Wake)
    → IsPending info
    → told (wait timed result info wakes) ≡ verdict timed info.seq wakes
unfolding verdict
told-verdict timed result info [] p = ap told (wait-nil timed result info p) ∙ told-nil
told-verdict timed result info (wake ∷ wakes) p =
    let now = on_events info wake.events in
    let c = on_events-Changes info wake.events in
    let next = if timed then wake.wait_result else result in
    let over = timed && is_negative wake.wait_result in
    let calm : is_negative info.error_result ≡ false = ground (arith, p.no_error) in
    ap told (wait-pending timed result info wake wakes p)
    ∙ if-cases
        (λ r. told (if over then some (now, wake.wait_result) else wait timed next now wakes) ≡ r)
        (refuses info.seq wake.events)
        (λ r.
          let failed_now : is_negative now.error_result ≡ true = ground (arith, c.refusal, r) in
          told-answered timed next now over wake.wait_result wakes
            (ground (arith, negative_not_zero now.error_result failed_now))
          ∙ told-refused now wake.wait_result failed_now)
        (λ r.
          if-cases
            (λ v.
              told (if over then some (now, wake.wait_result) else wait timed next now wakes) ≡ v)
            (confirms info.seq wake.events)
            (λ f.
              let done_now : now.done ≡ true = ground (arith, c.confirmation, f) in
              told-answered timed next now over wake.wait_result wakes (ground (arith, done_now))
              ∙ told-confirmed now wake.wait_result (ground (arith, c.refusal, r, calm)) done_now
                  (λ m. c.source f (sym c.same_context ∙ m)))
            (λ f.
              told-next over timed next wake.wait_result info now wakes
                (verdict timed info.seq wakes) p (on_events-ignored info wake.events f r)
                (told-verdict timed next info wakes p)))

-- Once the request is sent, the caller is told what the first wake with an answer says, a refusal
-- before a confirmation, or a failure when a timed wait ends before; if an answer comes, the call
-- returns, whether or not it waits for the main context too.
pub sync_request-eq-verdict :
    (answers : SyncAnswers) (main_context : Bool) (timeout : ℕ) (wakes : List Wake)
    → is_negative answers.add_listener ≡ false
    → is_negative answers.core_sync ≡ false
    → sync_request answers main_context timeout wakes
      ≡ verdict (ltb 0 timeout) answers.core_sync wakes
unfolding sync_request sync_data
sync_request-eq-verdict answers main_context timeout wakes l c =
    let P : Option (Outcome (Unit {0})) → Type 0 =
      λ r. r ≡ verdict (ltb 0 timeout) answers.core_sync wakes in
    if-cases P (is_negative answers.add_listener) (λ e. absurd (ground (arith, l, e)))
      (λ _.
        if-cases P (is_negative answers.core_sync) (λ e. absurd (ground (arith, c, e)))
          (λ _.
            told-verdict (ltb 0 timeout) (pos 0) (sync_data main_context answers.core_sync) wakes
              (record { no_error = refl; not_done = refl })))

-- If one wake brings both a confirmation and a refusal of a request that waits for the main
-- context, the call fails and returns while a source with a pointer to its record, which lives on
-- the stack of the call, is still attached to the main context.
pub refused_leaves_source :
    (seq : ℤ) (events : List CoreEvent)
    → confirms seq events ≡ true
    → refuses seq events ≡ true
    → let now = on_events (sync_data true seq) events in
      (conclude now ≡ some (err pipewire, now)) × (0 < now.sources)
unfolding sync_data conclude
refused_leaves_source seq events f r =
    let c = on_events-Changes (sync_data true seq) events in
    let now = on_events (sync_data true seq) events in
    (
      if-cases (λ r. r ≡ some (err pipewire, now)) (is_negative now.error_result) (λ _. refl)
          (λ e. absurd (ground (arith, e, c.refusal, r))),
      c.source f refl,
    )
