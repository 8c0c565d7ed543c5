-- ===== src/Prelude/Sort.antt =====
-- Python's `sorted`, which is stable, by a comparison; and the order of `str`.
use mathlib.Core.Path.{◌≡◌, refl}
use mathlib.Core.Logic.{◌⊎◌, ◌↔◌, inl, inr}
use mathlib.Core.Bool.{Bool, true, false, ◌&&◌, ◌||◌}
use mathlib.Core.List.{List, [], ◌∷◌, Perm}
use mathlib.Core.List.Perm
use mathlib.Core.List.{Memᴰ}
use mathlib.Core.List.Memᴰ
use native.Mathlib.Omega.{arith}
use samfscon.Prelude.Tests.{ltb, ◌==◌, if◌then◌else◌, Bool-cases}
use samfscon.Prelude.Lists.{All}
use samfscon.Prelude.Text.{Text}

-- `s <= t`
pub text_le : Text → Text → Bool
text_le [] t = true
text_le (x ∷ s) [] = false
text_le (x ∷ s) (y ∷ t) = ltb x y || (x == y && text_le s t)

pub text_le_total : (s t : Text) → text_le s t ≡ false → text_le t s ≡ true
unfolding text_le
text_le_total [] t h = ground arith
text_le_total (x ∷ s) [] h = refl
text_le_total (x ∷ s) (y ∷ t) h = ground (arith, text_le_total s t)

pub text_le_trans : (s t u : Text) → text_le s t ≡ true → text_le t u ≡ true → text_le s u ≡ true
unfolding text_le
text_le_trans [] t u h k = refl
text_le_trans (x ∷ s) [] u h k = ground arith
text_le_trans (x ∷ s) (y ∷ t) [] h k = ground arith
text_le_trans (x ∷ s) (y ∷ t) (z ∷ u) h k = ground (arith, text_le_trans s t u)

pub text_le_antisymm : (s t : Text) → text_le s t ≡ true → text_le t s ≡ true → s ≡ t
unfolding text_le
text_le_antisymm [] [] h k = refl
text_le_antisymm [] (y ∷ t) h k = absurd (cc k)
text_le_antisymm (x ∷ s) [] h k = absurd (cc h)
text_le_antisymm (x ∷ s) (y ∷ t) h k =
    let head : x ≡ y = ground arith in
    let rest : s ≡ t = text_le_antisymm s t (ground arith) (ground arith) in cc (head, rest)

module _ {ℓ} {A : Type ℓ} (le : A → A → Bool) where
  pub insert : A → List A → List A
  insert x [] = x ∷ []
  insert x (y ∷ ys) = if le x y then x ∷ (y ∷ ys) else y ∷ insert x ys

  pub sort : List A → List A
  unfolding insert
  sort [] = []
  sort (x ∷ xs) = insert x (sort xs)

  -- Every element comes before the later ones, or ties with them.
  abbrev pub IsSorted : List A → Type 0
  IsSorted [] = Unit
  IsSorted (x ∷ xs) = All (λ y. le x y ≡ true) xs × IsSorted xs

  insert-Perm : (x : A) (ys : List A) → Perm (insert x ys) (x ∷ ys)
  unfolding insert
  insert-Perm x [] = Perm.rfl
  insert-Perm x (y ∷ ys) = elim (Bool-cases (le x y)) [
    | inl first ↦ rw first Perm.rfl
    | inr later ↦ rw later (Perm.trans (Perm.cons y (insert-Perm x ys)) (Perm.swap x y ys))
  ]

  pub sort-Perm : (xs : List A) → Perm (sort xs) xs
  unfolding sort
  sort-Perm [] = Perm.rfl
  sort-Perm (x ∷ xs) = Perm.trans (insert-Perm x (sort xs)) (Perm.cons x (sort-Perm xs))

module _ {ℓ κ} {A : Type ℓ} (le : A → A → Bool) (P : A → Type κ) where
  pub All-insert : (x : A) (ys : List A) → P x → All P ys → All P (insert le x ys)
  unfolding insert
  All-insert x [] p h = (p, tt)
  All-insert x (y ∷ ys) p h = elim (Bool-cases (le x y)) [
    | inl first ↦ rw first (p, h)
    | inr later ↦ rw later (h.0, All-insert x ys p h.1)
  ]

  pub All-sort : (xs : List A) → All P xs → All P (sort le xs)
  unfolding sort
  All-sort [] h = tt
  All-sort (x ∷ xs) h = All-insert x (sort le xs) h.0 (All-sort xs h.1)

module _ {ℓ} {A : Type ℓ} (le : A → A → Bool) (total : (x y : A) → le x y ≡ false → le y x ≡ true)
    (trans : (x y z : A) → le x y ≡ true → le y z ≡ true → le x z ≡ true) where
  above :
      (x y : A) (ys : List A)
      → le x y ≡ true
      → All (λ z. le y z ≡ true) ys
      → All (λ z. le x z ≡ true) ys
  above x y [] h k = tt
  above x y (z ∷ ys) h k = (trans x y z h k.0, above x y ys h k.1)

  insert-IsSorted : (x : A) (ys : List A) → IsSorted le ys → IsSorted le (insert le x ys)
  unfolding insert
  insert-IsSorted x [] s = (tt, tt)
  insert-IsSorted x (y ∷ ys) s = elim (Bool-cases (le x y)) [
    | inl first ↦ rw first ((first, above x y ys first s.0), s)
    | inr later ↦
        rw later
          (All-insert le (λ z. le y z ≡ true) x ys (total x y later) s.0, insert-IsSorted x ys s.1)
  ]

  pub sort-IsSorted : (xs : List A) → IsSorted le (sort le xs)
  unfolding sort
  sort-IsSorted [] = tt
  sort-IsSorted (x ∷ xs) = insert-IsSorted x (sort le xs) (sort-IsSorted xs)

-- A sort keeps the elements.
module _ {ℓ} {A : Type ℓ} (le : A → A → Bool) where
  insert-Mem : (a x : A) (ys : List A) → Memᴰ a (insert le x ys) ↔ Memᴰ a (x ∷ ys)
  unfolding insert
  insert-Mem a x [] = (λ m. m, λ m. m)
  insert-Mem a x (y ∷ ys) = elim (Bool-cases (le x y)) [
    | inl first ↦ rw first (λ m. m, λ m. m)
    | inr later ↦ rw later (
      λ m. into (λ n. (insert-Mem a x ys).0 n) (Memᴰ.cases_cons m),
      λ m. out_of (λ n. (insert-Mem a x ys).1 n) (Memᴰ.cases_cons m),
    )
  ]
    where
      into :
          (Memᴰ a (insert le x ys) → Memᴰ a (x ∷ ys))
          → (a ≡ y) ⊎ Memᴰ a (insert le x ys)
          → Memᴰ a (x ∷ (y ∷ ys))
      into ih (inl e) = Memᴰ.tail (Memᴰ.head e)
      into ih (inr m) = swap (Memᴰ.cases_cons (ih m))
        where
          swap : (a ≡ x) ⊎ Memᴰ a ys → Memᴰ a (x ∷ (y ∷ ys))
          swap (inl e) = Memᴰ.head e
          swap (inr n) = Memᴰ.tail (Memᴰ.tail n)

      out_of :
          (Memᴰ a (x ∷ ys) → Memᴰ a (insert le x ys))
          → (a ≡ x) ⊎ Memᴰ a (y ∷ ys)
          → Memᴰ a (y ∷ insert le x ys)
      out_of ih (inl e) = Memᴰ.tail (ih (Memᴰ.head e))
      out_of ih (inr m) = keep_first (Memᴰ.cases_cons m)
        where
          keep_first : (a ≡ y) ⊎ Memᴰ a ys → Memᴰ a (y ∷ insert le x ys)
          keep_first (inl e) = Memᴰ.head e
          keep_first (inr n) = Memᴰ.tail (ih (Memᴰ.tail n))

  pub sort-Mem : (a : A) (xs : List A) → Memᴰ a (sort le xs) ↔ Memᴰ a xs
  unfolding sort
  sort-Mem a [] = (λ m. m, λ m. m)
  sort-Mem a (x ∷ xs) = (
    λ m.
        after_first (λ n. (sort-Mem a xs).0 n)
          (Memᴰ.cases_cons ((insert-Mem a x (sort le xs)).0 m)),
    λ m.
        (insert-Mem a x (sort le xs)).1
          (before_first (λ n. (sort-Mem a xs).1 n) (Memᴰ.cases_cons m)),
  )
    where
      after_first :
          (Memᴰ a (sort le xs) → Memᴰ a xs) → (a ≡ x) ⊎ Memᴰ a (sort le xs) → Memᴰ a (x ∷ xs)
      after_first ih (inl e) = Memᴰ.head e
      after_first ih (inr n) = Memᴰ.tail (ih n)

      before_first :
          (Memᴰ a xs → Memᴰ a (sort le xs)) → (a ≡ x) ⊎ Memᴰ a xs → Memᴰ a (x ∷ sort le xs)
      before_first ih (inl e) = Memᴰ.head e
      before_first ih (inr n) = Memᴰ.tail (ih n)
