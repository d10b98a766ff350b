-- ===== src/Prelude/Word.antt =====
-- Machine words: `unsigned int` and `uint32_t` have 32 bits, `uint64_t` has 64.
use Prim.Native.Nat.{ℕ, ◌%◌}

abbrev pub max_uint : ℕ
max_uint = 4294967295

abbrev pub u32 : ℕ → ℕ
u32 n = n % 4294967296

abbrev pub u64 : ℕ → ℕ
u64 n = n % 18446744073709551616
