-- ===== src/Metadata/Decimal.antt =====
-- The conversion `%u` of g_strdup_printf, as src/pwg-metadata.c uses it, and how to read it back.
use Prim.Native.Char.{Char, code}
use Prim.Native.String.{String}
use pipewire_gobject.Prelude.{
  ℕ, zero, suc, ◌+◌, ◌-◌, ◌*◌, ◌/◌, ◌%◌, ◌≤◌, ◌<◌, ◌≡◌, ap, ◌∙◌, Bool, true, ◌&&◌, leb, ltb, arith,
  if◌then◌else◌, if-cases,
}

-- The digit of a number below 10.
unfoldable pub digit : ℕ → Char
digit zero = "0"
digit (suc zero) = "1"
digit (suc (suc zero)) = "2"
digit (suc (suc (suc zero))) = "3"
digit (suc (suc (suc (suc zero)))) = "4"
digit (suc (suc (suc (suc (suc zero))))) = "5"
digit (suc (suc (suc (suc (suc (suc zero)))))) = "6"
digit (suc (suc (suc (suc (suc (suc (suc zero))))))) = "7"
digit (suc (suc (suc (suc (suc (suc (suc (suc zero)))))))) = "8"
digit (suc (suc (suc (suc (suc (suc (suc (suc (suc n))))))))) = "9"

-- The digits of `n` before `rest`; a number has fewer digits than it counts, plus one.
unfoldable pub digits : ℕ → ℕ → String → String
unfolding digit
digits zero n rest = rest
digits (suc fuel) n rest =
    let more = digits fuel (n / 10) (String.◌∷◌ (digit (n % 10)) rest) in
    if ltb n 10 then String.◌∷◌ (digit n) rest else more

-- `%u` of `n`, followed by `rest`
unfoldable pub decimal : ℕ → String → String
unfolding digits
decimal n rest = digits (suc n) n rest

abbrev pub is_digit : Char → Bool
is_digit c = leb 48 (code c) && leb (code c) 57

-- Reading a number: the value of the digits in front, and the text behind them.
unfoldable pub read : ℕ → String → ℕ × String
read value String.[] = (value, String.[])
read value (String.◌∷◌ c s) =
    let more = read (value * 10 + (code c - 48)) s in
    if is_digit c then more else (value, String.◌∷◌ c s)

digit-code : (n : ℕ) → n < 10 → code (digit n) ≡ 48 + n
unfolding digit
digit-code zero h = omega arith
digit-code (suc zero) h = omega arith
digit-code (suc (suc zero)) h = omega arith
digit-code (suc (suc (suc zero))) h = omega arith
digit-code (suc (suc (suc (suc zero)))) h = omega arith
digit-code (suc (suc (suc (suc (suc zero))))) h = omega arith
digit-code (suc (suc (suc (suc (suc (suc zero)))))) h = omega arith
digit-code (suc (suc (suc (suc (suc (suc (suc zero))))))) h = omega arith
digit-code (suc (suc (suc (suc (suc (suc (suc (suc zero)))))))) h = omega arith
digit-code (suc (suc (suc (suc (suc (suc (suc (suc (suc zero))))))))) h = omega arith
digit-code (suc (suc (suc (suc (suc (suc (suc (suc (suc (suc n)))))))))) h =
    absurd (omega (arith, h))

read-digit :
    (value : ℕ) (n : ℕ) (rest : String)
    → n < 10
    → read value (String.◌∷◌ (digit n) rest) ≡ read (value * 10 + n) rest
unfolding read
read-digit value n rest h =
    let c = digit-code n h in
    let shown : is_digit (digit n) ≡ true = ground (arith, c, h) in
    let worth : code (digit n) - 48 ≡ n = omega (arith, c) in
    if-cases (λ r. r ≡ read (value * 10 + n) rest) (is_digit (digit n))
      (λ _. ap (λ d. read (value * 10 + d) rest) worth) (λ e. absurd (ground (arith, shown, e)))

read-digits :
    (fuel : ℕ) (n : ℕ) (rest : String) → n < fuel → read 0 (digits fuel n rest) ≡ read n rest
unfolding digits
read-digits zero n rest h = absurd (omega (arith, h))
read-digits (suc fuel) n rest h =
    if-cases (λ text. read 0 text ≡ read n rest) (ltb n 10)
      (λ e. read-digit 0 n rest (ground (arith, e)) ∙ ap (λ v. read v rest) (omega arith))
      (λ e.
        let large : 10 ≤ n = ground (arith, e) in
        read-digits fuel (n / 10) (String.◌∷◌ (digit (n % 10)) rest) (omega (arith, h, large))
        ∙ read-digit (n / 10) (n % 10) rest (omega arith)
        ∙ ap (λ v. read v rest) (omega arith))

-- Reading back what was printed.
pub read-decimal : (n : ℕ) (rest : String) → read 0 (decimal n rest) ≡ read n rest
unfolding decimal
read-decimal n rest = read-digits (suc n) n rest (omega arith)
