-- ===== src/Stream/Invariant.antt =====
-- What holds of a stream between any two operations.
use pipewire_gobject.Prelude.{
  ℕ, ◌≤◌, ◌≡◌, ◌≢◌, true, false, String, Option, none, some, List, [], ◌∷◌, length, arith, ◌==◌,
  not, ◌&&◌, Option-cases, Bool-cases, inl, inr, ◌++◌, if◌then◌else◌,
}
use pipewire_gobject.Double.{Double}
use pipewire_gobject.Stream.State.{
  Stream, Handlers, Signal, emit, max_pending_blocks, PendingBlock, audio_block,
}
use pipewire_gobject.Stream.Queue.{queue_peak, queue_format, queue_graph_rate, queue_audio_block}
use pipewire_gobject.Stream.Backlog.{length-drop_oldest}
use pipewire_gobject.Stream.Dispatch.{
  take_pending, snapshot, publish_format, publish_graph_rate, publish_peak, publish_blocks,
  make_block, Snapshot, emit_peak, emit_audio_block, dispatch_pending,
}

module _ {V : Type 0} where
  -- At most 64 blocks wait. One dispatch source is attached while a dispatch is pending, and none
  -- otherwise. Whatever waits has a dispatch pending, so it is not forgotten. A stream that does
  -- not run shows no graph rate.
  pub record IsWellFormed (self : Stream V) : Type 0 where
    pub bounded : length self.pending_blocks ≤ max_pending_blocks
    pub scheduled : self.sources ≡ (if self.dispatch_pending then 1 else 0)
    pub peak_wakes : self.has_pending_peak ≡ true → self.dispatch_pending ≡ true
    pub format_wakes : self.has_pending_format ≡ true → self.dispatch_pending ≡ true
    pub rate_wakes : self.has_pending_graph_rate ≡ true → self.dispatch_pending ≡ true
    pub blocks_wake : self.pending_blocks ≢ [] → self.dispatch_pending ≡ true
    pub silent : self.running ≡ false → self.graph_rate ≡ 0

  pub queue_format-IsWellFormed :
      (self : Stream V) (sample_format : Option String) (rate channels bytes_per_sample : ℕ)
      → IsWellFormed self
      → IsWellFormed (queue_format self sample_format rate channels bytes_per_sample)
  unfolding queue_format
  queue_format-IsWellFormed self sample_format rate channels bytes_per_sample w = ground arith

  pub queue_graph_rate-IsWellFormed :
      (self : Stream V) (rate : ℕ) → IsWellFormed self → IsWellFormed (queue_graph_rate self rate)
  unfolding queue_graph_rate
  queue_graph_rate-IsWellFormed self rate w = ground arith

  pub queue_audio_block-IsWellFormed :
      (self : Stream V) (bytes : Option (List ℕ)) (sample_format : Option String)
      (rate channels bytes_per_sample n_frames : ℕ) (peak : V)
      → IsWellFormed self
      → IsWellFormed
          (queue_audio_block self bytes sample_format rate channels bytes_per_sample n_frames peak)
  unfolding queue_audio_block
  queue_audio_block-IsWellFormed self none f r c b n p w = w
  queue_audio_block-IsWellFormed self (some []) f r c b n p w = w
  queue_audio_block-IsWellFormed self (some (x ∷ xs)) f r c b n p w = ground (
    arith,
    length-drop_oldest (
        self.pending_blocks
        ++ record {
          bytes = x ∷ xs;
          sample_format = f;
          rate = r;
          channels = c;
          bytes_per_sample = b;
          n_frames = n;
          sequence = self.next_sequence;
          peak = p;
        }
          ∷ []),
  )

module _ {V : Type 0} (D : Double V) where
  pub queue_peak-IsWellFormed :
      (self : Stream V) (peak : V) → IsWellFormed self → IsWellFormed (queue_peak D self peak)
  unfolding queue_peak
  queue_peak-IsWellFormed self peak w = ground arith

  pub take_pending-IsWellFormed :
      (self : Stream V)
      → self.dispatch_pending ≡ true
      → IsWellFormed self
      → IsWellFormed (take_pending D self)
  unfolding take_pending
  take_pending-IsWellFormed self d w = ground arith

-- The handlers keep a predicate: they go through functions that keep it.
pub record Respect {V : Type 0} (P : Stream V → Type 0) (on : Handlers V) : Type 0 where
  pub at : (sig : Signal V) (self : Stream V) → P self → P (on sig self)

module _ {V : Type 0} {on : Handlers V} (respect : Respect IsWellFormed on) where
  pub emit-IsWellFormed :
      (sig : Signal V) (self : Stream V) → IsWellFormed self → IsWellFormed (emit on sig self)
  unfolding emit
  emit-IsWellFormed sig self w =
      respect.at sig (record self { emitted = self.emitted ++ sig ∷ [] }) (ground arith)

  emit_audio_block-IsWellFormed :
      (block : PendingBlock V) (self : Stream V)
      → IsWellFormed self
      → IsWellFormed (emit_audio_block on block self)
  unfolding emit_audio_block
  emit_audio_block-IsWellFormed block self w = elim (Option-cases (make_block block)) [
    | inl e ↦ rw (e, emit_audio_block) w
    | inr (b, e) ↦ rw (e, emit_audio_block) (emit-IsWellFormed (audio_block b) self w)
  ]

  publish_blocks-IsWellFormed :
      (blocks : List (PendingBlock V)) (self : Stream V)
      → IsWellFormed self
      → IsWellFormed (publish_blocks on blocks self)
  unfolding publish_blocks
  publish_blocks-IsWellFormed [] self w = w
  publish_blocks-IsWellFormed (block ∷ blocks) self w =
      publish_blocks-IsWellFormed blocks _
        (ground (arith, emit_audio_block-IsWellFormed block self w))

  publish_peak-IsWellFormed :
      (taken : Snapshot V) (self : Stream V)
      → IsWellFormed self
      → IsWellFormed (publish_peak on taken self)
  unfolding publish_peak emit_peak
  publish_peak-IsWellFormed taken self w = elim (Bool-cases (taken.has_peak && self.running)) [
    | inl e ↦ rw e (
        emit-IsWellFormed _ _
          (emit-IsWellFormed _ (record self { peak = taken.peak }) (ground arith)))
    | inr e ↦ rw e w
  ]

  publish_format-IsWellFormed :
      (taken : Snapshot V) (self : Stream V)
      → IsWellFormed self
      → IsWellFormed (publish_format on taken self)
  unfolding publish_format
  publish_format-IsWellFormed taken self w = elim (Bool-cases taken.has_format) [
    | inl e ↦
        rw e (emit-IsWellFormed _ _ (emit-IsWellFormed _ _ (emit-IsWellFormed _ _ (ground arith))))
    | inr e ↦ rw e w
  ]

  publish_graph_rate-IsWellFormed :
      (taken : Snapshot V) (self : Stream V)
      → IsWellFormed self
      → IsWellFormed (publish_graph_rate on taken self)
  unfolding publish_graph_rate
  publish_graph_rate-IsWellFormed taken self w =
      elim (Bool-cases (
        taken.has_graph_rate
        && self.running
        && taken.graph_rate_revision == self.graph_rate_revision
        && not (self.graph_rate == taken.graph_rate))) [
          | inl e ↦ rw e (emit-IsWellFormed _ _ (ground arith))
          | inr e ↦ rw e w
        ]

  -- Running the dispatch source keeps the stream well formed, whatever the handlers do that
  -- itself keeps it so.
  pub dispatch_pending-IsWellFormed :
      (D : Double V) (self : Stream V)
      → self.dispatch_pending ≡ true
      → IsWellFormed self
      → IsWellFormed (dispatch_pending D on self)
  unfolding dispatch_pending
  dispatch_pending-IsWellFormed D self d w = publish_blocks-IsWellFormed (snapshot self).blocks _ (
      publish_peak-IsWellFormed (snapshot self) _ (
        publish_graph_rate-IsWellFormed (snapshot self) _
          (publish_format-IsWellFormed (snapshot self) _ (take_pending-IsWellFormed D self d w))))
