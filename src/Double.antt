-- ===== src/Double.antt =====
-- The C type `double`, which the model takes as a parameter: the operations that the stream uses.
use pipewire_gobject.Prelude.{ℕ, ◌≡◌, Bool, true, false, if◌then◌else◌}

-- `of_bytes` reads the four bytes of a `float` and widens them, `gt` is `>`.
pub record Double (V : Type 0) : Type 0 where
  pub zero_val : V
  pub fabs : V → V
  pub gt : V → V → Bool
  pub of_bytes : ℕ → ℕ → ℕ → ℕ → V

module _ {V : Type 0} (D : Double V) where
  -- GLib's `MAX (a, b)` is `(((a) > (b)) ? (a) : (b))`.
  abbrev pub max : V → V → V
  max a b = if D.gt a b then a else b

  -- What IEEE 754 says of the values that are no NaN: `>` is asymmetric, and "not greater" is
  -- transitive; 0 is such a value, and `fabs` keeps to them.
  pub record IsOrdered (IsNumber : V → Type 0) : Type 0 where
    pub zero_number : IsNumber D.zero_val
    pub fabs_number : (a : V) → IsNumber a → IsNumber (D.fabs a)
    pub asym : (a b : V) → D.gt a b ≡ true → D.gt b a ≡ false
    pub trans : (a b c : V) → IsNumber b → D.gt a b ≡ false → D.gt b c ≡ false → D.gt a c ≡ false
