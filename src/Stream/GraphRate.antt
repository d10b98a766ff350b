-- ===== src/Stream/GraphRate.antt =====
-- The graph rate under reentrant dispatches. A handler that runs inside a dispatch may dispatch
-- again, restart the stream, or let newer observations in; the revision keeps the outer dispatch
-- from publishing what it took before. The dispatch is taken apart here into its critical
-- sections, and anything may happen between two of them.
use pipewire_gobject.Prelude.{
  ◌<◌, ◌≡◌, subst, Bool, true, false, List, [], ◌∷◌, ◌⊎◌, inl, inr, arith, String, Option,
}
use native.Mathlib.Decide.{dec_lt}
use pipewire_gobject.Double.{Double}
use pipewire_gobject.Stream.State.{quiet, stream_new_audio_capture, emit}
use pipewire_gobject.Stream.Dispatch.{Snapshot, publish_graph_rate}
use pipewire_gobject.Stream.RateSteps.{
  view, Config, Step, observe, halt, begin, publish, launch, other, Reach, here, next, Inv,
  Inv-observe, Inv-halt, Inv-begin, Inv-publish, Inv-start,
}

module _ {V : Type 0} {D : Double V} where
  Inv-Step :
      (c d : Config V) → Step D c d → Inv (view c.stream) c.active → Inv (view d.stream) d.active
  Inv-Step c d (observe rate r b e a) v = rw (e, a) (Inv-observe c.stream rate c.active r b v)
  Inv-Step c d (halt b e a) v = rw (e, a) (Inv-halt D c.stream c.active b v)
  Inv-Step c d (begin e a) v = rw (e, a) (Inv-begin D c.stream c.active v)
  Inv-Step c d (publish taken a e) v =
      rw e (Inv-publish taken c.stream d.active (subst (Inv (view c.stream)) a v))
  Inv-Step c d (launch keys answers b e a) v =
      rw (e, a) (Inv-start D keys answers c.stream c.active b v)
  Inv-Step c d (other e a) v = rw (e, a) v

  Inv-Reach :
      {c d : Config V} → Reach D c d → Inv (view c.stream) c.active → Inv (view d.stream) d.active
  Inv-Reach here v = v
  Inv-Reach (next r s) v = Inv-Step _ _ s (Inv-Reach r v)

abbrev pub new_config : {V : Type 0} → Double V → Option String → Bool → Config V
new_config D target_object monitor = record {
  stream = stream_new_audio_capture D target_object monitor;
  active = [];
}

module _ {V : Type 0} (D : Double V) (target_object : Option String) (monitor : Bool) {c : Config V}
    (reached : Reach D (new_config D target_object monitor) c) where
  reached-Inv : Inv (view c.stream) c.active
  unfolding stream_new_audio_capture
  reached-Inv = Inv-Reach reached (ground arith)

  -- However observations, stops, starts and nested dispatches interleave with the critical
  -- sections of a dispatch: once no dispatch is active and no observation is pending, the graph
  -- rate is the last one observed, and a stream that does not run has observed none and shows 0.
  -- No repetition of an observation is needed for that.
  pub graph_rate_settles :
      c.active ≡ []
      → c.stream.has_pending_graph_rate ≡ false
      → (c.stream.graph_rate ≡ c.stream.observed_graph_rate)
        × (c.stream.running ≡ false → c.stream.graph_rate ≡ 0)
  graph_rate_settles a h =
      let v = subst (Inv (view c.stream)) a reached-Inv in ground (arith, v.settled h, v.idle)

  -- A dispatch that took its observation before a newer one, a stop or a restart does not touch
  -- the stream when it comes to the graph rate, and one that took the last shows it.
  pub stale_dispatch :
      (taken : Snapshot V) (rest : List (Snapshot V))
      → c.active ≡ taken ∷ rest
      → taken.has_graph_rate ≡ true
      → let after = publish_graph_rate quiet taken c.stream in
        ((taken.graph_rate_revision < c.stream.graph_rate_revision) × (after ≡ c.stream))
        ⊎ ((taken.graph_rate_revision ≡ c.stream.graph_rate_revision)
            × (after.graph_rate ≡ c.stream.observed_graph_rate))
  unfolding publish_graph_rate emit
  stale_dispatch taken rest a t =
      let v = subst (Inv (view c.stream)) a reached-Inv in
      elim (dec_lt taken.graph_rate_revision c.stream.graph_rate_revision) [
        | yes p ↦ inl (p, ground arith)
        | no p ↦ inr (ground (arith, v.fresh), ground (arith, v.fresh))
      ]
