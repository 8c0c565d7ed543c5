-- ===== src/Prelude/Dict.antt =====
-- Python's `dict` with text keys, in insertion order: `put` overwrites in place or appends.
use Prim.Native.Nat.{◌+◌, ◌≤◌}
use mathlib.Core.Path.{◌≡◌, refl}
use mathlib.Core.Bool.{Bool, false, ◌||◌}
use mathlib.Core.Option.{Option, none, some}
use mathlib.Core.List.{List, [], ◌∷◌}
use native.Mathlib.Omega.{arith}
use mathlib.Core.Logic.{inl, inr}
use samfscon.Prelude.Tests.{if◌then◌else◌, Bool-cases}
use samfscon.Prelude.Lists.{length, keep, All}
use samfscon.Prelude.Text.{Text, eq_text, eq_text_iff}

abbrev pub Dict {ℓ} : Type ℓ → Type ℓ
Dict V = List (Text × V)

module _ {ℓ} {V : Type ℓ} where
  unfoldable pub get : Dict V → Text → Option V
  get [] k = none
  get ((j, v) ∷ m) k = if eq_text j k then some v else get m k

  unfoldable pub put : Dict V → Text → V → Dict V
  put [] k v = (k, v) ∷ []
  put ((j, w) ∷ m) k v = if eq_text j k then (j, v) ∷ m else (j, w) ∷ put m k v

  -- `dict.pop(key, None)`
  unfoldable pub remove : Dict V → Text → Dict V
  remove [] k = []
  remove ((j, w) ∷ m) k = if eq_text j k then remove m k else (j, w) ∷ remove m k

  unfoldable pub has : Dict V → Text → Bool
  has [] k = false
  has ((j, w) ∷ m) k = eq_text j k || has m k

  pub get-put :
      (m : Dict V) (k j : Text) (v : V)
      → get (put m k v) j ≡ (if eq_text k j then some v else get m j)
  unfolding get put
  get-put [] k j v = refl
  get-put ((i, w) ∷ m) k j v =
      ground (arith, get-put m k j v, eq_text_iff i k, eq_text_iff i j, eq_text_iff k j)

  pub get-remove :
      (m : Dict V) (k j : Text) → get (remove m k) j ≡ (if eq_text k j then none else get m j)
  unfolding get remove
  get-remove [] k j = ground arith
  get-remove ((i, w) ∷ m) k j =
      ground (arith, get-remove m k j, eq_text_iff i k, eq_text_iff i j, eq_text_iff k j)

  pub length-put : (m : Dict V) (k : Text) (v : V) → length (put m k v) ≤ length m + 1
  unfolding put
  length-put [] k v = omega arith
  length-put ((i, w) ∷ m) k v = ground (arith, length-put m k v)

  pub length-remove : (m : Dict V) (k : Text) → length (remove m k) ≤ length m
  unfolding remove
  length-remove [] k = omega arith
  length-remove ((i, w) ∷ m) k = ground (arith, length-remove m k)

-- No key stands twice, as in every `dict`.
module _ {ℓ} {V : Type ℓ} where
  abbrev pub IsDict : Dict V → Type ℓ
  IsDict [] = Unit
  IsDict ((j, v) ∷ m) = (get m j ≡ none) × IsDict m

  pub put-IsDict : (m : Dict V) (k : Text) (v : V) → IsDict m → IsDict (put m k v)
  unfolding get put
  put-IsDict [] k v h = (refl, tt)
  put-IsDict ((i, w) ∷ m) k v h = elim (Bool-cases (eq_text i k)) [
    | inl same ↦ rw same h
    | inr other ↦
        rw other
          (rw get-put (ground (arith, h.0, eq_text_iff i k, eq_text_iff k i)), put-IsDict m k v h.1)
  ]

  get-remove-none : (m : Dict V) (k j : Text) → get m j ≡ none → get (remove m k) j ≡ none
  get-remove-none m k j h = rw get-remove (ground arith)

  pub remove-IsDict : (m : Dict V) (k : Text) → IsDict m → IsDict (remove m k)
  unfolding remove
  remove-IsDict [] k h = tt
  remove-IsDict ((i, w) ∷ m) k h = elim (Bool-cases (eq_text i k)) [
    | inl same ↦ rw same (remove-IsDict m k h.1)
    | inr other ↦ rw other (get-remove-none m k i h.0, remove-IsDict m k h.1)
  ]

  -- The entry under a key, if a test on entries accepts it.
  abbrev pub accepted : (Text × V → Bool) → Text → Option V → Option V
  accepted p k none = none
  accepted p k (some v) = if p (k, v) then some v else none

  get-keep-none :
      (p : Text × V → Bool) (m : Dict V) (k : Text) → get m k ≡ none → get (keep p m) k ≡ none
  unfolding get
  get-keep-none p [] k h = refl
  get-keep-none p ((i, w) ∷ m) k h = ground (arith, get-keep-none p m k)

  pub get-keep :
      (p : Text × V → Bool) (m : Dict V) (k : Text)
      → IsDict m
      → get (keep p m) k ≡ accepted p k (get m k)
  unfolding get
  get-keep p [] k h = refl
  get-keep p ((i, w) ∷ m) k h = elim (Bool-cases (eq_text i k)) [
    | inl same ↦
        let e = (eq_text_iff i k).0 same in
        let gone = get-keep-none p m k (rw (← e) h.0) in
        rw same (rw (← e) (ground (arith, eq_text_iff i i, gone)))
    | inr other ↦ rw other (ground (arith, get-keep p m k h.1))
  ]

  pub keep-IsDict : (p : Text × V → Bool) (m : Dict V) → IsDict m → IsDict (keep p m)
  keep-IsDict p [] h = tt
  keep-IsDict p ((i, w) ∷ m) h = elim (Bool-cases (p (i, w))) [
    | inl kept ↦ rw kept (get-keep-none p m i h.0, keep-IsDict p m h.1)
    | inr gone ↦ rw gone (keep-IsDict p m h.1)
  ]

module _ {ℓ κ} {V : Type ℓ} (P : Text × V → Type κ) where
  pub put-All : (m : Dict V) (k : Text) (v : V) → All P m → P (k, v) → All P (put m k v)
  unfolding put
  put-All [] k v h s = (s, tt)
  put-All ((j, w) ∷ m) k v h s = elim (Bool-cases (eq_text j k)) [
    | inl same ↦ rw same (rw ((eq_text_iff j k).0 same) (s, h.1))
    | inr other ↦ rw other (h.0, put-All m k v h.1 s)
  ]

  pub get-All : (m : Dict V) (k : Text) (v : V) → All P m → get m k ≡ some v → P (k, v)
  unfolding get
  get-All [] k v h e = absurd (ground arith)
  get-All ((j, w) ∷ m) k v h e = elim (Bool-cases (eq_text j k)) [
    | inl same ↦
        let key : j ≡ k = (eq_text_iff j k).0 same in
        let value : w ≡ v = ground arith in rw (← key) (rw (← value) h.0)
    | inr other ↦ get-All m k v h.1 (rw other at e)
  ]

-- The entry that is stored, or else the one from before.
abbrev pub or_before {ℓ} : {V : Type ℓ} → Option V → Option V → Option V
or_before none before = before
or_before (some v) before = some v
