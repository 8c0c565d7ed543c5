-- ===== src/Srv/Registry/Walk.antt =====
-- Which values `_enumerate_values` gives.
use samfscon.Prelude.{
  ℕ, zero, suc, ◌+◌, ◌≤◌, ◌<◌, ◌==◌, Bool, true, false, List, [], ◌∷◌, ◌≡◌, ◌⊎◌, ◌↔◌, inl, inr,
  refl, ap, sym, ◌∙◌, subst, arith, Bool-cases,
}
use mathlib.Core.List.{Memᴰ}
use mathlib.Core.List.Memᴰ
use samfscon.Prelude.Text.{Text}
use samfscon.Srv.Registry.{
  Answer, walk_end, unreadable, unnamed, value, values_from, enumerate_values,
}

-- The walk goes on behind an answer.
abbrev pub goes_on : Answer → Bool
goes_on walk_end = false
goes_on unreadable = false
goes_on unnamed = true
goes_on (value name text) = true

-- The walk goes on behind each answer below an index.
abbrev pub GoesOnTo : (ℕ → Answer) → ℕ → Type 0
GoesOnTo answers zero = Unit
GoesOnTo answers (suc k) = (goes_on (answers k) ≡ true) × GoesOnTo answers k

-- A value is the answer at an index up to 4096 that the walk comes to.
abbrev pub IsAnswer : (ℕ → Answer) → Text × Text → Type 0
IsAnswer answers e = (k : ℕ) × (k ≤ 4096) × (answers k ≡ value e.0 e.1) × GoesOnTo answers k

module _ (answers : ℕ → Answer) (e : Text × Text) where
  -- The walk goes on behind each answer from an index to another.
  abbrev Passes : ℕ → ℕ → Type 0
  Passes i k = (j : ℕ) → i ≤ j → j < k → goes_on (answers j) ≡ true

  -- An entry is the answer at an index below a bound that the walk comes to.
  abbrev Given : ℕ → ℕ → Type 0
  Given i n = (k : ℕ) × (i ≤ k) × (k < i + n) × (answers k ≡ value e.0 e.1) × Passes i k

  at_or_after : (i j : ℕ) → i ≤ j → (i ≡ j) ⊎ (i + 1 ≤ j)
  at_or_after i j le = elim (Bool-cases (i == j)) [
    | inl same ↦ inl (ground arith)
    | inr other ↦ inr (ground arith)
  ]

  widen : (i n : ℕ) → goes_on (answers i) ≡ true → Given (i + 1) n → Given i (suc n)
  widen i n here (k, above, below, found, passes) = (
    k,
    omega arith,
    omega arith,
    found,
    λ j le lt. elim (at_or_after i j le) [
      | inl same ↦ subst (λ x. goes_on (answers x) ≡ true) same here
      | inr later ↦ passes j later lt
    ],
  )

  narrow :
      (i n : ℕ)
      → Given i (suc n)
      → (answers i ≡ value e.0 e.1) ⊎ ((goes_on (answers i) ≡ true) × Given (i + 1) n)
  narrow i n (k, above, below, found, passes) = elim (at_or_after i k above) [
    | inl same ↦ inl (ap answers same ∙ found)
    | inr later ↦ inr (
      passes i (omega arith) (omega arith),
      (k, later, omega arith, found, λ j le lt. passes j (omega arith) lt),
    )
  ]

  none_below : (i : ℕ) → Given i zero → ⊥
  none_below i (k, above, below, found, passes) = omega arith

  -- What the walk lists from an answer on, given what it lists behind it.
  abbrev listed_from : Answer → List (Text × Text) → List (Text × Text)
  listed_from walk_end rest = []
  listed_from unreadable rest = []
  listed_from unnamed rest = rest
  listed_from (value name text) rest = (name, text) ∷ rest

  values_from-step :
      (n i : ℕ)
      → values_from answers (suc n) i ≡ listed_from (answers i) (values_from answers n (i + 1))
  unfolding values_from
  values_from-step n i = step (answers i)
    where
      step :
          (a : Answer)
          → elim a [
            | walk_end ↦ []
            | unreadable ↦ []
            | unnamed ↦ values_from answers n (i + 1)
            | value name text ↦ (name, text) ∷ values_from answers n (i + 1)
          ]
            ≡ listed_from a (values_from answers n (i + 1))
      step walk_end = refl
      step unreadable = refl
      step unnamed = refl
      step (value name text) = refl

  listed-Given :
      (n i : ℕ) (rest : List (Text × Text))
      → (Memᴰ e rest → Given (i + 1) n)
      → (a : Answer) → answers i ≡ a
      → Memᴰ e (listed_from a rest)
      → Given i (suc n)
  listed-Given n i rest ih walk_end h m = absurd (Memᴰ.not-nil m)
  listed-Given n i rest ih unreadable h m = absurd (Memᴰ.not-nil m)
  listed-Given n i rest ih unnamed h m = widen i n (ap goes_on h) (ih m)
  listed-Given n i rest ih (value name text) h m = elim (Memᴰ.cases_cons m) [
    | inl same ↦ (
      i,
      omega arith,
      omega arith,
      h ∙ ap (λ p. value p.0 p.1) (sym same),
      λ j le lt. absurd (omega arith),
    )
    | inr later ↦ widen i n (ap goes_on h) (ih later)
  ]

  values_from-Given : (n i : ℕ) → Memᴰ e (values_from answers n i) → Given i n
  values_from-Given zero i m =
      let nothing : Memᴰ e [] = unfold values_from in m in absurd (Memᴰ.not-nil nothing)
  values_from-Given (suc n) i m =
      listed-Given n i (values_from answers n (i + 1)) (λ k. values_from-Given n (i + 1) k)
        (answers i) refl (rw values_from-step at m)

  listed_later :
      (a : Answer) (rest : List (Text × Text))
      → goes_on a ≡ true
      → Memᴰ e rest
      → Memᴰ e (listed_from a rest)
  listed_later walk_end rest h m = absurd (cc h)
  listed_later unreadable rest h m = absurd (cc h)
  listed_later unnamed rest h m = m
  listed_later (value name text) rest h m = Memᴰ.tail m

  Given-values_from : (n i : ℕ) → Given i n → Memᴰ e (values_from answers n i)
  Given-values_from zero i g = absurd (none_below i g)
  Given-values_from (suc n) i g = rw values_from-step (elim (narrow i n g) [
    | inl here ↦ rw here (Memᴰ.head refl)
    | inr (on, later) ↦
        listed_later (answers i) (values_from answers n (i + 1)) on
          (Given-values_from n (i + 1) later)
  ])

  passes_below :
      (n k : ℕ) → k ≤ n → GoesOnTo answers n → (j : ℕ) → j < k → goes_on (answers j) ≡ true
  passes_below zero k le h j lt = absurd (omega arith)
  passes_below (suc n) k le h j lt = elim (Bool-cases (j == n)) [
    | inl same ↦
        let at_end : n ≡ j = ground arith in subst (λ x. goes_on (answers x) ≡ true) at_end h.0
    | inr other ↦ passes_below n n (omega arith) h.1 j (ground arith)
  ]

  GoesOnTo-below : (k : ℕ) → ((j : ℕ) → j < k → goes_on (answers j) ≡ true) → GoesOnTo answers k
  GoesOnTo-below zero h = tt
  GoesOnTo-below (suc k) h = (h k (omega arith), GoesOnTo-below k (λ j lt. h j (omega (arith, lt))))

  -- `_enumerate_values` gives a value exactly when it is the answer at an index up to 4096 and no
  -- answer before it ends the walk or cannot be read.
  pub enumerate_values-IsAnswer : Memᴰ e (enumerate_values answers) ↔ IsAnswer answers e
  unfolding enumerate_values
  enumerate_values-IsAnswer = (
    λ m.
        let (k, above, below, found, passes) = values_from-Given 4097 0 m in
        (k, omega arith, found, GoesOnTo-below k (λ j lt. passes j (omega arith) lt)),
    λ (k, below, found, on).
        Given-values_from 4097 0
          (k, omega arith, omega arith, found, λ j le lt. passes_below k k (omega arith) on j lt),
  )
