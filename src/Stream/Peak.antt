-- ===== src/Stream/Peak.antt =====
-- The peak of a buffer: the loop of pwg_stream_handle_f32_audio over its samples.
use pipewire_gobject.Prelude.{
  ◌≡◌, refl, ap, ◌⊎◌, inl, inr, false, List, [], ◌∷◌, ◌++◌, All, Bool-cases,
}
use pipewire_gobject.Double.{Double, IsOrdered, max}
use pipewire_gobject.Stream.Process.{peak_of}

module _ {V : Type 0} (D : Double V) {IsNumber : V → Type 0} (ord : IsOrdered D IsNumber) where
  irreflexive : (a : V) → D.gt a a ≡ false
  irreflexive a = elim (Bool-cases (D.gt a a)) [ inl e ↦ ord.asym a a e | inr e ↦ e ]

  -- Neither of two values is greater than their MAX, which is one of them.
  max_bounds :
      (a b : V)
      → IsNumber a
      → IsNumber b
      → (D.gt a (max D a b) ≡ false) × (D.gt b (max D a b) ≡ false) × IsNumber (max D a b)
  max_bounds a b na nb = elim (Bool-cases (D.gt a b)) [
    | inl e ↦ rw e (irreflexive a, ord.asym a b e, na)
    | inr e ↦ rw e (e, irreflexive b, nb)
  ]

  peak_of-bounds :
      (peak : V) (xs : List V)
      → IsNumber peak
      → All IsNumber xs
      → (D.gt peak (peak_of D peak xs) ≡ false)
        × All (λ x. D.gt (D.fabs x) (peak_of D peak xs) ≡ false) xs
  unfolding peak_of
  peak_of-bounds peak [] n all = (irreflexive peak, tt)
  peak_of-bounds peak (x ∷ xs) n all =
      let (above, level, number) = max_bounds peak (D.fabs x) n (ord.fabs_number x all.0) in
      let (low, rest) = peak_of-bounds (max D peak (D.fabs x)) xs number all.1 in
      let end = peak_of D (max D peak (D.fabs x)) xs in
      (
        ord.trans peak (max D peak (D.fabs x)) end number above low,
        (ord.trans (D.fabs x) (max D peak (D.fabs x)) end number level low, rest),
      )

  -- Of samples that are numbers, none is louder than the peak, which is not below 0.
  pub peak_bounds :
      (xs : List V)
      → All IsNumber xs
      → (D.gt D.zero_val (peak_of D D.zero_val xs) ≡ false)
        × All (λ x. D.gt (D.fabs x) (peak_of D D.zero_val xs) ≡ false) xs
  peak_bounds xs all = peak_of-bounds D.zero_val xs ord.zero_number all

module _ {V : Type 0} (D : Double V) where
  abbrev pub Attained : V → List V → V → Type 0
  Attained peak [] r = r ≡ peak
  Attained peak (x ∷ xs) r = (r ≡ D.fabs x) ⊎ Attained peak xs r

  -- A peak of a run that starts from `q` is `q`, or one of a run that starts from anything.
  Attained-start :
      (p : V) (q : V) (xs : List V) {r : V} → Attained q xs r → (r ≡ q) ⊎ Attained p xs r
  Attained-start p q [] a = inl a
  Attained-start p q (x ∷ xs) (inl a) = inr (inl a)
  Attained-start p q (x ∷ xs) (inr a) = elim (Attained-start p q xs a) [
    | inl e ↦ inl e
    | inr later ↦ inr (inr later)
  ]

  -- The peak is the size of a sample, or the value that it started from.
  pub peak_of-Attained : (peak : V) (xs : List V) → Attained peak xs (peak_of D peak xs)
  unfolding peak_of
  peak_of-Attained peak [] = refl
  peak_of-Attained peak (x ∷ xs) = elim (Bool-cases (D.gt peak (D.fabs x))) [
    | inl e ↦ rw e (inr (peak_of-Attained peak xs))
    | inr e ↦ rw e (Attained-start peak (D.fabs x) xs (peak_of-Attained (D.fabs x) xs))
  ]

  only :
      (peak : V) (nan : V) (y : V)
      → ((a : V) → D.gt a (D.fabs nan) ≡ false)
      → ((a : V) → D.gt (D.fabs nan) a ≡ false)
      → max D (max D peak (D.fabs nan)) (D.fabs y) ≡ D.fabs y
  only peak nan y l r = rw (l peak, r (D.fabs y)) refl

  -- A NaN, which compares with nothing, wipes out the peak of all samples before it: the loop
  -- goes on from the sample after it.
  pub nan_resets_peak :
      (peak : V) (nan : V) (y : V) (xs : List V) (ys : List V)
      → ((a : V) → D.gt a (D.fabs nan) ≡ false)
      → ((a : V) → D.gt (D.fabs nan) a ≡ false)
      → peak_of D peak (xs ++ nan ∷ y ∷ ys) ≡ peak_of D (D.fabs y) ys
  unfolding peak_of
  nan_resets_peak peak nan y [] ys l r = ap (λ p. peak_of D p ys) (only peak nan y l r)
  nan_resets_peak peak nan y (x ∷ xs) ys l r =
      nan_resets_peak (max D peak (D.fabs x)) nan y xs ys l r
