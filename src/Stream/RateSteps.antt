-- ===== src/Stream/RateSteps.antt =====
-- The graph rate of a stream on two threads: the steps, and what each of them keeps.
use Prim.Native.Nat.{◌≤◌}
use pipewire_gobject.Prelude.{
  ℕ, suc, ◌<◌, ◌≡◌, refl, sym, ap, ◌∙◌, Bool, true, false, List, [], ◌∷◌, ◌⊎◌, inl, inr, arith,
  Bool-cases,
}
use pipewire_gobject.Double.{Double}
use pipewire_gobject.Stream.State.{Stream, quiet, emit}
use pipewire_gobject.Stream.Queue.{queue_graph_rate}
use pipewire_gobject.Stream.Dispatch.{Snapshot, snapshot, take_pending, publish_graph_rate}
use pipewire_gobject.Stream.Control.{Keys, Answers, start, stop}
use pipewire_gobject.Stream.Starting.{start-Started, start_running}

-- The fields that the graph rate depends on.
pub record RateView : Type 0 where
  pub running : Bool
  pub graph_rate : ℕ
  pub observed_graph_rate : ℕ
  pub pending_graph_rate : ℕ
  pub has_pending_graph_rate : Bool
  pub graph_rate_revision : ℕ

abbrev pub view : {V : Type 0} → Stream V → RateView
view self = record {
  running = self.running;
  graph_rate = self.graph_rate;
  observed_graph_rate = self.observed_graph_rate;
  pending_graph_rate = self.pending_graph_rate;
  has_pending_graph_rate = self.has_pending_graph_rate;
  graph_rate_revision = self.graph_rate_revision;
}

-- A stream, and the dispatches that have taken what was pending and have not come to the graph
-- rate yet, innermost first.
pub record Config (V : Type 0) : Type 0 where
  pub stream : Stream V
  pub active : List (Snapshot V)

abbrev max_revision : ℕ
max_revision = 18446744073709551616

module _ {V : Type 0} (D : Double V) where
  -- Observations come from PipeWire's thread, which runs while the stream does. `other` is every
  -- step that leaves the view alone: what happens to peaks, formats, blocks and properties. Revisions
  -- are counted up to the range of a uint64_t.
  pub data Step (c d : Config V) : Type 0 where
    observe :
        (rate : ℕ)
        → c.stream.running ≡ true
        → suc c.stream.graph_rate_revision < max_revision
        → d.stream ≡ queue_graph_rate c.stream rate
        → d.active ≡ c.active
        → Step c d
    halt :
        suc c.stream.graph_rate_revision < max_revision
        → d.stream ≡ stop D quiet c.stream
        → d.active ≡ c.active
        → Step c d
    begin : d.stream ≡ take_pending D c.stream → d.active ≡ snapshot c.stream ∷ c.active → Step c d
    publish :
        (taken : Snapshot V)
        → c.active ≡ taken ∷ d.active
        → d.stream ≡ publish_graph_rate quiet taken c.stream
        → Step c d
    launch :
        (keys : Keys) (answers : Answers)
        → suc c.stream.graph_rate_revision < max_revision
        → d.stream ≡ (start D quiet keys answers c.stream).1
        → d.active ≡ c.active
        → Step c d
    other : view d.stream ≡ view c.stream → d.active ≡ c.active → Step c d

  pub data Reach (c : Config V) : Config V → Type 0 where
    here : Reach c c
    next : {d e : Config V} → Reach c d → Step d e → Reach c e

-- A dispatch that is up to date will publish the last observation.
abbrev Fresh : {V : Type 0} → RateView → List (Snapshot V) → Type 0
Fresh v [] = Unit {0}
Fresh v (taken ∷ rest) =
    (taken.graph_rate_revision ≤ v.graph_rate_revision)
    × (taken.graph_rate_revision ≡ v.graph_rate_revision
        → taken.has_graph_rate ≡ true
        → (v.running ≡ true) × (taken.graph_rate ≡ v.observed_graph_rate))
    × Fresh v rest

abbrev Covered : {V : Type 0} → RateView → List (Snapshot V) → Type 0
Covered v [] = ⊥
Covered v (taken ∷ rest) =
    ((taken.graph_rate_revision ≡ v.graph_rate_revision) × (taken.has_graph_rate ≡ true))
    ⊎ Covered v rest

pub record Inv {V : Type 0} (v : RateView) (active : List (Snapshot V)) : Type 0 where
  pub idle : v.running ≡ false → (v.observed_graph_rate ≡ 0) × (v.graph_rate ≡ 0)
  pub pending_last : v.has_pending_graph_rate ≡ true → v.pending_graph_rate ≡ v.observed_graph_rate
  pub pending_runs : v.has_pending_graph_rate ≡ true → v.running ≡ true
  pub fresh : Fresh v active
  pub settled :
      v.has_pending_graph_rate ≡ false → (v.graph_rate ≡ v.observed_graph_rate) ⊎ Covered v active

module _ {V : Type 0} where
  -- A newer revision makes every active dispatch stale.
  Fresh-newer :
      (v w : RateView) (active : List (Snapshot V))
      → v.graph_rate_revision < w.graph_rate_revision
      → Fresh v active
      → Fresh w active
  Fresh-newer v w [] h f = tt
  Fresh-newer v w (taken ∷ rest) h f =
      (omega arith, λ e. absurd (omega arith), Fresh-newer v w rest h f.2)

  Fresh-same :
      (v w : RateView) (active : List (Snapshot V))
      → w.graph_rate_revision ≡ v.graph_rate_revision
      → w.running ≡ v.running
      → w.observed_graph_rate ≡ v.observed_graph_rate
      → Fresh v active
      → Fresh w active
  Fresh-same v w [] e r o f = tt
  Fresh-same v w (taken ∷ rest) e r o f = (
    omega arith,
    λ p h. (r ∙ (f.1 (p ∙ e) h).0, (f.1 (p ∙ e) h).1 ∙ sym o),
    Fresh-same v w rest e r o f.2,
  )

  Fresh-launch :
      (v : RateView) (active : List (Snapshot V))
      → Fresh v active
      → Fresh (record v { running = true }) active
  Fresh-launch v [] f = tt
  Fresh-launch v (taken ∷ rest) f = (f.0, λ p h. (refl, (f.1 p h).1), Fresh-launch v rest f.2)

  Covered-same :
      (v w : RateView) (active : List (Snapshot V))
      → w.graph_rate_revision ≡ v.graph_rate_revision
      → Covered v active
      → Covered w active
  Covered-same v w [] e h = h
  Covered-same v w (taken ∷ rest) e (inl (p, h)) = inl (p ∙ sym e, h)
  Covered-same v w (taken ∷ rest) e (inr h) = inr (Covered-same v w rest e h)

  pub Inv-observe :
      (self : Stream V) (rate : ℕ) (active : List (Snapshot V))
      → self.running ≡ true
      → suc self.graph_rate_revision < max_revision
      → Inv (view self) active
      → Inv (view (queue_graph_rate self rate)) active
  unfolding queue_graph_rate
  Inv-observe self rate active r b v =
      ground (arith, Fresh-newer (view self) (view (queue_graph_rate self rate)) active)

  pub Inv-halt :
      (D : Double V) (self : Stream V) (active : List (Snapshot V))
      → suc self.graph_rate_revision < max_revision
      → Inv (view self) active
      → Inv (view (stop D quiet self)) active
  unfolding stop
  Inv-halt D self active b v =
      ground (arith, Fresh-newer (view self) (view (stop D quiet self)) active)

  pub Inv-begin :
      (D : Double V) (self : Stream V) (active : List (Snapshot V))
      → Inv (view self) active
      → Inv (view (take_pending D self)) (snapshot self ∷ active)
  unfolding take_pending snapshot
  Inv-begin D self active v = ground arith

  pub Inv-publish :
      (taken : Snapshot V) (self : Stream V) (active : List (Snapshot V))
      → Inv (view self) (taken ∷ active)
      → Inv (view (publish_graph_rate quiet taken self)) active
  unfolding publish_graph_rate
  Inv-publish taken self active v =
      let after = view (publish_graph_rate quiet taken self) in
      ground (
        arith,
        Fresh-same (view self) after active,
        Covered-same (view self) after active,
        v.fresh.2,
      )

  start-view :
      (D : Double V) (keys : Keys) (answers : Answers) (self : Stream V)
      → (view (start D quiet keys answers self).1 ≡ view self)
        ⊎ (view (start D quiet keys answers self).1 ≡ record (view self) { running = true })
        ⊎ ((start D quiet keys answers self).1 ≡ stop D quiet self)
  unfolding emit
  start-view D keys answers self = elim (Bool-cases self.running) [
    | inl e ↦ inl (ap (λ r. view r.1) (start_running D quiet keys answers self e))
    | inr e ↦ elim (start-Started D quiet keys answers self e) [
      | inl (_, s) ↦ inr (inl (ap view s))
      | inr (_, _, inl s) ↦ inl (ap view s)
      | inr (_, _, inr (inl s)) ↦ inl (ap view s)
      | inr (_, _, inr (inr s)) ↦ inr (inr s)
    ]
  ]

  Inv-launch :
      (v : RateView) (active : List (Snapshot V))
      → Inv v active
      → Inv (record v { running = true }) active
  Inv-launch v active i =
      ground (arith, Fresh-launch v active, Covered-same v (record v { running = true }) active)

  pub Inv-start :
      (D : Double V) (keys : Keys) (answers : Answers) (self : Stream V)
      (active : List (Snapshot V))
      → suc self.graph_rate_revision < max_revision
      → Inv (view self) active
      → Inv (view (start D quiet keys answers self).1) active
  Inv-start D keys answers self active b v = elim (start-view D keys answers self) [
    | inl e ↦ rw e v
    | inr (inl e) ↦ rw e (Inv-launch (view self) active v)
    | inr (inr e) ↦ rw e (Inv-halt D self active b v)
  ]
