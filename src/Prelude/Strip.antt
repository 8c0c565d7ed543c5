-- ===== src/Prelude/Strip.antt =====
-- Laws of `str.strip`.
use Prim.Native.Nat.{ℕ}
use mathlib.Core.Path.{◌≡◌, refl, ap, ◌∙◌}
use mathlib.Core.Logic.{inl, inr}
use mathlib.Core.Bool.{Bool, false}
use mathlib.Core.List.{[], ◌∷◌}
use samfscon.Prelude.Tests.{if◌then◌else◌, Bool-cases}
use samfscon.Prelude.Lists.{All}
use samfscon.Prelude.Text.{Text, lstrip_if, rstrip_if, strip, is_space}

-- The last step of `rstrip_if`: a character before what is left of the rest.
abbrev rstrip_step : (ℕ → Bool) → ℕ → Text → Text
rstrip_step p c [] = if p c then [] else c ∷ []
rstrip_step p c (d ∷ r) = c ∷ d ∷ r

module _ (p : ℕ → Bool) where
  rstrip_if-cons : (c : ℕ) (s : Text) → rstrip_if p (c ∷ s) ≡ rstrip_step p c (rstrip_if p s)
  unfolding rstrip_if
  rstrip_if-cons c s = step (rstrip_if p s)
    where
      step :
          (r : Text)
          → (elim r [ [] ↦ if p c then [] else c ∷ [] | d ∷ r' ↦ c ∷ d ∷ r' ]) ≡ rstrip_step p c r
      step [] = refl
      step (d ∷ r) = refl

  rstrip_if-keep : (c : ℕ) (s : Text) → p c ≡ false → rstrip_if p (c ∷ s) ≡ c ∷ rstrip_if p s
  rstrip_if-keep c s h = rstrip_if-cons c s ∙ step (rstrip_if p s)
    where
      step : (r : Text) → rstrip_step p c r ≡ c ∷ r
      step [] = rw h
      step (d ∷ r) = refl

  pub rstrip_if_idem : (s : Text) → rstrip_if p (rstrip_if p s) ≡ rstrip_if p s
  rstrip_if_idem [] = unfold rstrip_if in refl
  rstrip_if_idem (c ∷ s) = rw (rstrip_if-cons c s) (step (rstrip_if p s) (rstrip_if_idem s))
    where
      step : (r : Text) → rstrip_if p r ≡ r → rstrip_if p (rstrip_step p c r) ≡ rstrip_step p c r
      step [] e = elim (Bool-cases (p c)) [
        | inl yes_ ↦ rw yes_ (unfold rstrip_if in refl)
        | inr no_ ↦ rw no_ (rstrip_if-keep c [] no_ ∙ unfold rstrip_if in refl)
      ]
      step (d ∷ r) e = rstrip_if-cons c (d ∷ r) ∙ rw e

  -- A text that starts with no character to strip still does after `rstrip_if`.
  lstrip-rstrip :
      (s : Text) → lstrip_if p (rstrip_if p (lstrip_if p s)) ≡ rstrip_if p (lstrip_if p s)
  unfolding lstrip_if
  lstrip-rstrip [] = unfold rstrip_if in refl
  lstrip-rstrip (c ∷ s) = elim (Bool-cases (p c)) [
    | inl skip ↦ rw skip (lstrip-rstrip s)
    | inr keep_ ↦ rw keep_ (rw (rstrip_if-keep c s keep_) (rw keep_))
  ]

-- Stripping a second time changes nothing.
pub strip_idem : (s : Text) → strip (strip s) ≡ strip s
unfolding strip
strip_idem s =
    ap (rstrip_if is_space) (lstrip-rstrip is_space s)
    ∙ rstrip_if_idem is_space (lstrip_if is_space s)

lstrip_plain : (s : Text) → All (λ c. is_space c ≡ false) s → lstrip_if is_space s ≡ s
unfolding lstrip_if
lstrip_plain [] h = refl
lstrip_plain (c ∷ s) h = rw h.0

rstrip_plain : (s : Text) → All (λ c. is_space c ≡ false) s → rstrip_if is_space s ≡ s
rstrip_plain [] h = unfold rstrip_if in refl
rstrip_plain (c ∷ s) h = rstrip_if-keep is_space c s h.0 ∙ ap (λ r. c ∷ r) (rstrip_plain s h.1)

-- A text without white space is stripped already.
pub strip_plain : (s : Text) → All (λ c. is_space c ≡ false) s → strip s ≡ s
unfolding strip
strip_plain s h = rw (lstrip_plain s h) (rstrip_plain s h)
