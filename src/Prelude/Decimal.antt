-- ===== src/Prelude/Decimal.antt =====
-- `str(n)` of a number that is not negative, and `int(s)` of a text in ASCII. The bound of CPython
-- on the number of digits (4300) is not modelled.
use Prim.Native.Nat.{ℕ, zero, suc, ◌+◌, ◌-◌, ◌*◌, ◌/◌, ◌%◌, ◌<◌}
use mathlib.Core.Path.{◌≡◌, sym, ap, ◌∙◌}
use mathlib.Core.Logic.{inl, inr}
use mathlib.Core.Bool.{Bool, true, false, ◌&&◌}
use mathlib.Core.Option.{Option, none, some}
use mathlib.Core.List.{[], ◌∷◌, ◌++◌, append_assoc, append-nil}
use native.Mathlib.Omega.{arith}
use samfscon.Prelude.Tests.{ltb, ◌==◌, if◌then◌else◌, Bool-cases}
use samfscon.Prelude.Lists.{All, All-append}
use samfscon.Prelude.Strip.{strip_plain}
use samfscon.Prelude.Text.{Text, is_digit, is_space, strip}

digits_of : ℕ → ℕ → Text
digits_of zero n = []
digits_of (suc fuel) n =
    let rest = digits_of fuel (n / 10) in
    if ltb n 10 then (48 + n) ∷ [] else rest ++ (48 + n % 10) ∷ []

-- `str(n)`; a number has at most as many digits as it counts, and one.
pub to_decimal : ℕ → Text
unfolding digits_of
to_decimal n = digits_of (suc n) n

-- What one character does to the number read so far; the flag says whether the last character was
-- a digit, as an underscore may stand only between two digits.
int_step : ℕ → Bool → ℕ → Option (ℕ × Bool)
int_step acc after_digit c =
    if is_digit c
    then some (acc * 10 + (c - 48), true)
    else if c == b'_' && after_digit
    then some (acc, false)
    else none

int_digits : ℕ → Bool → Text → Option ℕ
int_digits acc after_digit [] = if after_digit then some acc else none
int_digits acc after_digit (c ∷ s) = elim (int_step acc after_digit c) [
  | none ↦ none
  | some (acc', flag) ↦ int_digits acc' flag s
]

-- The sign and the digits: `some (negative, magnitude)`, or `none` for a `ValueError`.
int_signed : Text → Option (Bool × ℕ)
int_signed [] = none
int_signed (c ∷ s) =
    if c == b'-'
    then elim (int_digits 0 false s) [ none ↦ none | some n ↦ some (true, n) ]
    else if c == b'+'
    then elim (int_digits 0 false s) [ none ↦ none | some n ↦ some (false, n) ]
    else elim (int_digits 0 false (c ∷ s)) [ none ↦ none | some n ↦ some (false, n) ]

-- `int(s)`
pub int_of : Text → Option (Bool × ℕ)
unfolding int_step int_digits int_signed
int_of s = int_signed (strip s)

digit_char : (d : ℕ) → d < 10 → is_digit (48 + d) ≡ true
unfolding is_digit
digit_char d h = ground arith

digit_not_space : (c : ℕ) → is_digit c ≡ true → is_space c ≡ false
unfolding is_digit is_space
digit_not_space c h = ground arith

digits_of-is_digit : (fuel n : ℕ) → All (λ c. is_digit c ≡ true) (digits_of fuel n)
unfolding digits_of
digits_of-is_digit zero n = tt
digits_of-is_digit (suc fuel) n = elim (Bool-cases (ltb n 10)) [
  | inl small ↦ rw small (digit_char n (ground arith), tt)
  | inr large ↦ rw large (
      All-append (λ c. is_digit c ≡ true) (digits_of fuel (n / 10)) ((48 + n % 10) ∷ [])
        (digits_of-is_digit fuel (n / 10)) (digit_char (n % 10) (omega arith), tt))
]

int_step_digit :
    (acc d : ℕ) (after_digit : Bool)
    → d < 10
    → int_step acc after_digit (48 + d) ≡ some (acc * 10 + d, true)
unfolding int_step
int_step_digit acc d after_digit h = ground (arith, digit_char d h)

digit_step :
    (acc d : ℕ) (after_digit : Bool) (t : Text)
    → d < 10
    → int_digits acc after_digit ((48 + d) ∷ t) ≡ int_digits (acc * 10 + d) true t
unfolding int_digits
digit_step acc d after_digit t h = rw (int_step_digit acc d after_digit h, int_digits)

int_digits_append :
    (fuel n : ℕ) (after_digit : Bool) (t : Text)
    → n < fuel
    → int_digits 0 after_digit (digits_of fuel n ++ t) ≡ int_digits n true t
unfolding digits_of
int_digits_append zero n after_digit t h = elim h [ ]
int_digits_append (suc fuel) n after_digit t h = elim (Bool-cases (ltb n 10)) [
  | inl small ↦
      rw small
        (digit_step 0 n after_digit t (ground arith) ∙ ap (λ k. int_digits k true t) (omega arith))
  | inr large ↦ rw large (
      rw append_assoc (
        int_digits_append fuel (n / 10) after_digit ((48 + n % 10) ∷ t) (ground arith)
        ∙ digit_step (n / 10) (n % 10) true t (omega arith)
        ∙ ap (λ k. int_digits k true t) (omega arith)))
]

int_signed_digits :
    (s : Text) (n : ℕ)
    → All (λ c. is_digit c ≡ true) s
    → int_digits 0 false s ≡ some n
    → int_signed s ≡ some (false, n)
unfolding int_signed is_digit
int_signed_digits [] n h e = unfold int_digits in cc e
int_signed_digits (c ∷ s) n h e = ground (arith, h.0)

pub to_decimal-is_digit : (n : ℕ) → All (λ c. is_digit c ≡ true) (to_decimal n)
unfolding to_decimal
to_decimal-is_digit n = digits_of-is_digit (suc n) n

plain_digits : (s : Text) → All (λ c. is_digit c ≡ true) s → All (λ c. is_space c ≡ false) s
plain_digits [] h = tt
plain_digits (c ∷ s) h = (digit_not_space c h.0, plain_digits s h.1)

pub strip-to_decimal : (n : ℕ) → strip (to_decimal n) ≡ to_decimal n
strip-to_decimal n =
    strip_plain (to_decimal n) (plain_digits (to_decimal n) (to_decimal-is_digit n))

-- `int(str(n))` is `n`.
pub int_of-to_decimal : (n : ℕ) → int_of (to_decimal n) ≡ some (false, n)
unfolding int_of
int_of-to_decimal n =
    ap int_signed (strip-to_decimal n)
    ∙ int_signed_digits (to_decimal n) n (to_decimal-is_digit n) (
        ap (int_digits 0 false) (sym (append-nil (to_decimal n)))
        ∙ unfold to_decimal in int_digits_append (suc n) n false [] (omega arith))
