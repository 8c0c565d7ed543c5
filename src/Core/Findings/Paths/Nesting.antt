-- ===== src/Core/Findings/Paths/Nesting.antt =====
-- The order of the paths: of two shares at most one lies within the other.
use samfscon.Prelude.{
  suc, true, false, Option, none, some, [], ◌∷◌, ◌++◌, ◌≡◌, ◌⊎◌, ◌≤◌, refl, inl, inr, arith, length,
  length-append, Bool-cases, if◌then◌else◌, ap, sym, ◌∙◌,
}
use samfscon.Prelude.Text.{Text, eq_text, eq_text_iff, starts_with, rstrip_if, is_empty}
use samfscon.Prelude.Strip.{rstrip_if_idem}
use samfscon.Core.Findings.Paths.{slash, is_slash, normal_path, is_nested}

starts_with-length : (p s : Text) → starts_with p s ≡ true → length p ≤ length s
unfolding starts_with
starts_with-length [] s h = omega arith
starts_with-length (c ∷ p) [] h = ground arith
starts_with-length (c ∷ p) (d ∷ s) h = ground (arith, starts_with-length p s)

-- A path that has no slash at its end, or that is the root.
abbrev IsNormal : Text → Type 0
IsNormal p = (rstrip_if is_slash p ≡ p) ⊎ (p ≡ slash)

normal_path-IsNormal : (raw : Option Text) → IsNormal (normal_path raw)
unfolding normal_path is_empty
normal_path-IsNormal none = inl (unfold rstrip_if in refl)
normal_path-IsNormal (some []) = inl (unfold rstrip_if in refl)
normal_path-IsNormal (some (c ∷ s)) =
    step (rstrip_if is_slash (c ∷ s)) (rstrip_if_idem is_slash (c ∷ s))
  where
    step : (t : Text) → rstrip_if is_slash t ≡ t → IsNormal (if is_empty t then slash else t)
    step [] e = inr refl
    step (d ∷ t) e = inl e

nested-length :
    (p q : Text)
    → is_nested p q ≡ true
    → (suc (length (rstrip_if is_slash q)) ≤ length p) × (eq_text q p ≡ false)
unfolding is_nested
nested-length p q h = (
  ground (
    arith,
    starts_with-length (rstrip_if is_slash q ++ slash) p,
    length-append (rstrip_if is_slash q) slash,
  ),
  ground arith,
)

root-length : length (rstrip_if is_slash slash) ≡ 0
unfolding rstrip_if is_slash
root-length = refl

apart : (p q : Text) → IsNormal p → IsNormal q → is_nested p q ≡ true → is_nested q p ≡ true → ⊥
apart p q (inl e) (inl f) h k =
    omega (arith, nested-length p q h, nested-length q p k, ap length e, ap length f)
apart p q (inl e) (inr f) h k =
    omega (arith, (nested-length p q h).0, (nested-length q p k).0, ap length e, ap length f)
apart p q (inr e) (inl f) h k =
    omega (arith, (nested-length p q h).0, (nested-length q p k).0, ap length e, ap length f)
apart p q (inr e) (inr f) h k =
    let same = (eq_text_iff q p).1 (f ∙ sym e) in
    let other = (nested-length p q h).1 in ground arith

-- For two paths as `_normalise` leaves them, at most one lies within the other.
pub is_nested-normal_path :
    (r s : Option Text)
    → is_nested (normal_path r) (normal_path s) ≡ true
    → is_nested (normal_path s) (normal_path r) ≡ false
is_nested-normal_path r s h = elim (Bool-cases (is_nested (normal_path s) (normal_path r))) [
  | inl both ↦ absurd (apart _ _ (normal_path-IsNormal r) (normal_path-IsNormal s) h both)
  | inr out ↦ out
]
