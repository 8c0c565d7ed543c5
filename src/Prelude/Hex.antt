-- ===== src/Prelude/Hex.antt =====
-- `f"0x{n:08x}"`, and `int(s, 16)` of a text that starts with `0X`.
use Prim.Native.Nat.{ℕ, zero, suc, ◌+◌, ◌-◌, ◌*◌, ◌/◌, ◌%◌, ◌<◌}
use mathlib.Core.Path.{◌≡◌, refl, sym, ap, ◌∙◌}
use mathlib.Core.Logic.{inl, inr}
use mathlib.Core.Bool.{Bool, true, false, ◌&&◌}
use mathlib.Core.Option.{Option, none, some}
use mathlib.Core.List.{[], ◌∷◌, ◌++◌, map, append_assoc, append-nil, map-append}
use native.Mathlib.Omega.{arith}
use samfscon.Prelude.Tests.{ltb, leb, ◌==◌, if◌then◌else◌, Bool-cases}
use samfscon.Prelude.Lists.{All, All-append, length}
use samfscon.Prelude.Text.{Text, is_digit, upper, to_upper}

unfoldable pub hex_char : ℕ → ℕ
hex_char d = if ltb d 10 then 48 + d else 87 + d

hex_of : ℕ → ℕ → Text
unfolding hex_char
hex_of zero n = []
hex_of (suc fuel) n =
    let rest = hex_of fuel (n / 16) in
    if ltb n 16 then hex_char n ∷ [] else rest ++ hex_char (n % 16) ∷ []

zeros : ℕ → Text
zeros zero = []
zeros (suc n) = b'0' ∷ zeros n

-- `f"{n:08x}"`
pub to_hex8 : ℕ → Text
unfolding hex_of zeros
to_hex8 n = let ds = hex_of (suc n) n in zeros (8 - length ds) ++ ds

hex_value : ℕ → Option ℕ
unfolding is_digit
hex_value c =
    if is_digit c
    then some (c - 48)
    else if leb b'A' c && leb c b'F'
    then some (c - 55)
    else if leb b'a' c && leb c b'f'
    then some (c - 87)
    else none

hex_step : ℕ → Bool → ℕ → Option (ℕ × Bool)
hex_step acc after_digit c = elim (hex_value c) [
  | some d ↦ some (acc * 16 + d, true)
  | none ↦ if c == b'_' && after_digit then some (acc, false) else none
]

hex_digits : ℕ → Bool → Text → Option ℕ
hex_digits acc after_digit [] = if after_digit then some acc else none
hex_digits acc after_digit (c ∷ s) = elim (hex_step acc after_digit c) [
  | none ↦ none
  | some (acc', flag) ↦ hex_digits acc' flag s
]

-- `int("0X" + s, 16)`: an underscore may also stand right after the prefix.
pub int_of_hex : Text → Option ℕ
unfolding hex_value hex_step hex_digits
int_of_hex [] = none
int_of_hex (c ∷ s) = hex_digits 0 true (c ∷ s)

hex_value-char : (d : ℕ) → d < 16 → hex_value (to_upper (hex_char d)) ≡ some d
unfolding hex_value hex_char to_upper
hex_value-char d h = ground arith

hex_step-char :
    (acc d : ℕ) (after_digit : Bool)
    → d < 16
    → hex_step acc after_digit (to_upper (hex_char d)) ≡ some (acc * 16 + d, true)
unfolding hex_step
hex_step-char acc d after_digit h = rw (hex_value-char d h, hex_step)

hex_digits-char :
    (acc d : ℕ) (after_digit : Bool) (t : Text)
    → d < 16
    → hex_digits acc after_digit (to_upper (hex_char d) ∷ t) ≡ hex_digits (acc * 16 + d) true t
unfolding hex_digits
hex_digits-char acc d after_digit t h = rw (hex_step-char acc d after_digit h, hex_digits)

hex_digits_append :
    (fuel n : ℕ) (t : Text)
    → n < fuel
    → hex_digits 0 true (upper (hex_of fuel n) ++ t) ≡ hex_digits n true t
unfolding hex_of upper
hex_digits_append zero n t h = elim h [ ]
hex_digits_append (suc fuel) n t h = elim (Bool-cases (ltb n 16)) [
  | inl small ↦
      rw small
        (hex_digits-char 0 n true t (ground arith) ∙ ap (λ k. hex_digits k true t) (omega arith))
  | inr large ↦ rw large (
      ap (hex_digits 0 true) (split_last fuel n t)
      ∙ hex_digits_append fuel (n / 16) (to_upper (hex_char (n % 16)) ∷ t) (ground arith)
      ∙ hex_digits-char (n / 16) (n % 16) true t (omega arith)
      ∙ ap (λ k. hex_digits k true t) (omega arith))
]
  where
    split_last :
        (f m : ℕ) (s : Text)
        → map to_upper (hex_of f (m / 16) ++ hex_char (m % 16) ∷ []) ++ s
          ≡ map to_upper (hex_of f (m / 16)) ++ (to_upper (hex_char (m % 16)) ∷ s)
    split_last f m s = simp (map-append, append_assoc)

hex_digits-zeros :
    (k : ℕ) (t : Text) → hex_digits 0 true (upper (zeros k) ++ t) ≡ hex_digits 0 true t
unfolding zeros upper hex_char
hex_digits-zeros zero t = refl
hex_digits-zeros (suc k) t =
    hex_digits-char 0 0 true (upper (zeros k) ++ t) (omega arith) ∙ hex_digits-zeros k t

hex_of_last : (n : ℕ) → (s : Text) × (x : ℕ) × (hex_of (suc n) n ≡ s ++ x ∷ [])
unfolding hex_of
hex_of_last n = elim (Bool-cases (ltb n 16)) [
  | inl small ↦ ([], hex_char n, rw small refl)
  | inr large ↦ (hex_of n (n / 16), hex_char (n % 16), rw large refl)
]

int_of_hex_snoc : (s : Text) (x : ℕ) → int_of_hex (s ++ x ∷ []) ≡ hex_digits 0 true (s ++ x ∷ [])
unfolding int_of_hex
int_of_hex_snoc [] x = refl
int_of_hex_snoc (c ∷ s) x = refl

int_of_hex_padded : (k n : ℕ) → int_of_hex (upper (zeros k ++ hex_of (suc n) n)) ≡ some n
unfolding upper hex_digits
int_of_hex_padded k n =
    let (s, x, eq) = hex_of_last n in
    ap (λ t. int_of_hex (upper (zeros k ++ t))) eq
    ∙ ap int_of_hex (last_out s x)
    ∙ int_of_hex_snoc (upper (zeros k) ++ upper s) (to_upper x)
    ∙ ap (hex_digits 0 true) (sym (last_out s x))
    ∙ ap (λ t. hex_digits 0 true (upper (zeros k ++ t))) (sym eq)
    ∙ ap (hex_digits 0 true) (two_parts (hex_of (suc n) n))
    ∙ hex_digits-zeros k (upper (hex_of (suc n) n) ++ [])
    ∙ hex_digits_append (suc n) n [] (omega arith)
  where
    last_out :
        (s : Text) (x : ℕ)
        → upper (zeros k ++ (s ++ x ∷ [])) ≡ (upper (zeros k) ++ upper s) ++ to_upper x ∷ []
    last_out s x = simp (map-append, append_assoc)

    two_parts : (t : Text) → upper (zeros k ++ t) ≡ upper (zeros k) ++ (upper t ++ [])
    two_parts t = simp (map-append, append-nil)

-- `int(f"0x{n:08x}".upper(), 16)` is `n`.
pub int_of_hex-to_hex8 : (n : ℕ) → int_of_hex (upper (to_hex8 n)) ≡ some n
unfolding to_hex8
int_of_hex-to_hex8 n = int_of_hex_padded (8 - length (hex_of (suc n) n)) n

module _ (P : ℕ → Type 0) (of_digit : (d : ℕ) → d < 16 → P (hex_char d)) (of_zero : P b'0') where
  zeros-All : (k : ℕ) → All P (zeros k)
  unfolding zeros
  zeros-All zero = tt
  zeros-All (suc k) = (of_zero, zeros-All k)

  hex_of-All : (fuel n : ℕ) → All P (hex_of fuel n)
  unfolding hex_of
  hex_of-All zero n = tt
  hex_of-All (suc fuel) n = elim (Bool-cases (ltb n 16)) [
    | inl small ↦ rw small (of_digit n (ground arith), tt)
    | inr large ↦ rw large (
        All-append P (hex_of fuel (n / 16)) (hex_char (n % 16) ∷ []) (hex_of-All fuel (n / 16))
          (of_digit (n % 16) (omega arith), tt))
  ]

  pub to_hex8-All : (n : ℕ) → All P (to_hex8 n)
  unfolding to_hex8
  to_hex8-All n =
      All-append P (zeros (8 - length (hex_of (suc n) n))) (hex_of (suc n) n)
        (zeros-All (8 - length (hex_of (suc n) n))) (hex_of-All (suc n) n)
