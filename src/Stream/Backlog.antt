-- ===== src/Stream/Backlog.antt =====
-- The queue of blocks that wait for the main context: bounded, and the newest are kept.
use pipewire_gobject.Prelude.{
  suc, ◌-◌, ◌≤◌, ◌≡◌, refl, List, [], ◌∷◌, ◌++◌, length, take_last, ltb, inl, inr, Bool-cases,
  arith, length-append,
}
use pipewire_gobject.Stream.State.{PendingBlock, max_pending_blocks}
use pipewire_gobject.Stream.Queue.{drop_oldest}

module _ {V : Type 0} where
  -- The loop that drops blocks from the head keeps the newest 64, in order.
  pub drop_oldest-eq-take_last :
      (blocks : List (PendingBlock V)) → drop_oldest blocks ≡ take_last max_pending_blocks blocks
  unfolding drop_oldest
  drop_oldest-eq-take_last [] = refl
  drop_oldest-eq-take_last (block ∷ rest) =
      elim (Bool-cases (ltb max_pending_blocks (length (block ∷ rest)))) [
        | inl more ↦
            let e : suc (length rest) - 64 ≡ suc (length rest - 64) = ground arith in
            rw (more, e) (drop_oldest-eq-take_last rest)
        | inr few ↦ let e : suc (length rest) - 64 ≡ 0 = ground arith in rw (few, e)
      ]

  pub length-drop_oldest :
      (blocks : List (PendingBlock V)) → length (drop_oldest blocks) ≤ max_pending_blocks
  unfolding drop_oldest
  length-drop_oldest [] = omega arith
  length-drop_oldest (block ∷ rest) = ground (arith, length-drop_oldest rest)

  -- Dropping along the way drops the same blocks as dropping once at the end.
  pub drop_oldest-append :
      (xs ys : List (PendingBlock V)) → drop_oldest (drop_oldest xs ++ ys) ≡ drop_oldest (xs ++ ys)
  unfolding drop_oldest
  drop_oldest-append [] ys = refl
  drop_oldest-append (x ∷ xs) ys = ground (arith, drop_oldest-append xs ys, length-append xs ys)
