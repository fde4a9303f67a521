-- ===== src/Text/Decimal.antt =====
-- `%d` of a number that is not negative.
use openbackup.Prelude.{
  ℕ, zero, suc, ◌+◌, ◌-◌, ◌*◌, ◌/◌, ◌%◌, ◌<◌, ◌^◌, ◌≡◌, refl, ◌∙◌, Bool, true, false, Bytes, [],
  ◌∷◌, ◌++◌, arith, ltb, ◌==◌, if◌then◌else◌, if_cases, ltb-false→le, length, length-append, All,
  All-append,
}
use native.Mathlib.Nat.{pow-suc}
use openbackup.Text.{is_digit}

decimal_loop : ℕ → ℕ → Bytes
decimal_loop zero n = []
decimal_loop (suc fuel) n =
    let front = decimal_loop fuel (n / 10) in
    if ltb n 10 then (b'0' + n) ∷ [] else front ++ (b'0' + n % 10) ∷ []

-- Twenty digits hold every number below 2 ^ 64.
unfoldable pub decimal : ℕ → Bytes
unfolding decimal_loop
decimal n = decimal_loop 20 n

abbrev IsDigit : ℕ → Type 0
IsDigit c = is_digit c ≡ true

decimal_loop-IsDigit : (fuel n : ℕ) → All IsDigit (decimal_loop fuel n)
unfolding decimal_loop
decimal_loop-IsDigit zero n = tt
decimal_loop-IsDigit (suc fuel) n =
    if_cases (All IsDigit) (ltb n 10) _ _ (λ h. (ground arith, tt))
      (λ h.
        All-append IsDigit (decimal_loop fuel (n / 10)) _ (decimal_loop-IsDigit fuel (n / 10))
          (ground arith, tt))

pub decimal-IsDigit : (n : ℕ) → All (λ c. is_digit c ≡ true) (decimal n)
unfolding decimal
decimal-IsDigit n = decimal_loop-IsDigit 20 n

-- What the digits stand for.
abbrev pub value_from : ℕ → Bytes → ℕ
value_from n [] = n
value_from n (c ∷ s) = value_from (n * 10 + (c - b'0')) s

unfoldable pub value : Bytes → ℕ
value s = value_from 0 s

value_from-append :
    (s : Bytes) (n c : ℕ) → value_from n (s ++ c ∷ []) ≡ value_from n s * 10 + (c - b'0')
value_from-append [] n c = refl
value_from-append (d ∷ s) n c = value_from-append s (n * 10 + (d - b'0')) c

value-decimal_loop : (fuel n : ℕ) → n < 10 ^ fuel → value_from 0 (decimal_loop fuel n) ≡ n
unfolding decimal_loop
value-decimal_loop zero n h = omega arith
value-decimal_loop (suc fuel) n h =
    if_cases (λ s. value_from 0 s ≡ n) (ltb n 10) _ _ (λ h. omega arith)
      (λ h'.
        rw (value_from-append (decimal_loop fuel (n / 10)) 0 (b'0' + n % 10))
          (omega (arith, value-decimal_loop fuel (n / 10) (omega (arith, pow-suc 10 fuel)))))

abbrev pub starts_with_zero : Bytes → Bool
starts_with_zero [] = false
starts_with_zero (c ∷ s) = c == b'0'

starts_with_zero-append :
    (s t : Bytes) → 0 < length s → starts_with_zero (s ++ t) ≡ starts_with_zero s
starts_with_zero-append [] t h = elim h [ ]
starts_with_zero-append (c ∷ s) t h = refl

decimal_loop-pos : (fuel n : ℕ) → 0 < length (decimal_loop (suc fuel) n)
unfolding decimal_loop
decimal_loop-pos fuel n =
    ground (arith, length-append (decimal_loop fuel (n / 10)) ((b'0' + n % 10) ∷ []))

-- Only 0 is printed with a zero in front.
decimal_loop-starts :
    (fuel n : ℕ) → n < 10 ^ fuel → 0 < n → starts_with_zero (decimal_loop fuel n) ≡ false
unfolding decimal_loop
decimal_loop-starts zero n h k = absurd (omega arith)
decimal_loop-starts (suc zero) n h k =
    let small : ltb n 10 ≡ true = ground arith in rw small (ground arith)
decimal_loop-starts (suc (suc fuel)) n h k =
    if_cases (λ s. starts_with_zero s ≡ false) (ltb n 10) ((b'0' + n) ∷ [])
      (decimal_loop (suc fuel) (n / 10) ++ (b'0' + n % 10) ∷ []) (λ small. ground arith)
      (λ big.
        starts_with_zero-append (decimal_loop (suc fuel) (n / 10)) ((b'0' + n % 10) ∷ [])
          (decimal_loop-pos fuel (n / 10))
        ∙ decimal_loop-starts (suc fuel) (n / 10) (omega (arith, pow-suc 10 (suc fuel)))
            (omega (arith, ltb-false→le n 10 big)))

pub decimal-starts : (n : ℕ) → n < 10 ^ 20 → 0 < n → starts_with_zero (decimal n) ≡ false
unfolding decimal
decimal-starts n h k = decimal_loop-starts 20 n h k

pub decimal-pos : (n : ℕ) → 0 < length (decimal n)
unfolding decimal
decimal-pos n = decimal_loop-pos 19 n

-- Printing loses nothing.
pub value-decimal : (n : ℕ) → n < 10 ^ 20 → value (decimal n) ≡ n
unfolding value decimal
value-decimal n h = value-decimal_loop 20 n h

pub decimal-zero : decimal 0 ≡ b'0' ∷ []
unfolding decimal
decimal-zero = refl
