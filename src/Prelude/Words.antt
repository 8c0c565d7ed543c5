-- ===== src/Prelude/Words.antt =====
-- The words of a text between separators, as in `[w for w in re.split(r"[...]+", s) if w]`, and
-- `" ".join`.
use Prim.Native.Nat.{ℕ}
use mathlib.Core.Path.{◌≡◌, refl, sym, ap, ◌∙◌}
use mathlib.Core.Logic.{inl, inr}
use mathlib.Core.Bool.{Bool, true, false}
use mathlib.Core.List.{List, [], ◌∷◌, ◌++◌, append-nil}
use samfscon.Prelude.Tests.{◌==◌, if◌then◌else◌, Bool-cases}
use samfscon.Prelude.Lists.{All}
use samfscon.Prelude.Text.{Text, lstrip_if, rstrip_if}

-- `text.split(sep)`, as its first field and the others.
unfoldable pub split_on : ℕ → Text → Text × List Text
split_on sep [] = ([], [])
split_on sep (c ∷ s) =
    let (field, fields) = split_on sep s in
    if c == sep then ([], field ∷ fields) else (c ∷ field, fields)

abbrev pub cons_word : Text → List Text → List Text
cons_word [] ws = ws
cons_word (c ∷ w) ws = (c ∷ w) ∷ ws

-- The characters before the first separator, and the words after it.
pub tokens : (ℕ → Bool) → Text → Text × List Text
tokens p [] = ([], [])
tokens p (c ∷ s) = let (w, ws) = tokens p s in if p c then ([], cons_word w ws) else (c ∷ w, ws)

unfoldable pub words : (ℕ → Bool) → Text → List Text
unfolding tokens
words p s = let (w, ws) = tokens p s in cons_word w ws

unfoldable pub unwords : List Text → Text
unwords [] = []
unwords (w ∷ []) = w
unwords (w ∷ (v ∷ ws)) = w ++ (32 ∷ unwords (v ∷ ws))

-- A word: not empty, and without separators.
abbrev pub IsWord : (ℕ → Bool) → Text → Type 0
IsWord p [] = ⊥
IsWord p (c ∷ w) = All (λ d. p d ≡ false) (c ∷ w)

module _ (p q : ℕ → Bool) (sub : (c : ℕ) → q c ≡ true → p c ≡ true) where
  words-lstrip_if : (s : Text) → words p (lstrip_if q s) ≡ words p s
  unfolding words lstrip_if
  words-lstrip_if [] = refl
  words-lstrip_if (c ∷ s) = elim (Bool-cases (q c)) [
    | inl skip ↦ rw (skip, sub c skip) (words-lstrip_if s)
    | inr other ↦ rw other
  ]

  tokens-rstrip_if : (s : Text) → tokens p (rstrip_if q s) ≡ tokens p s
  unfolding tokens rstrip_if
  tokens-rstrip_if [] = refl
  tokens-rstrip_if (c ∷ s) = step (rstrip_if q s) (tokens-rstrip_if s)
    where
      step :
          (r : Text)
          → tokens p r ≡ tokens p s
          → tokens p (elim r [ [] ↦ if q c then [] else c ∷ [] | d ∷ r' ↦ c ∷ d ∷ r' ])
            ≡ tokens p (c ∷ s)
      step [] e = elim (Bool-cases (q c)) [
        | inl skip ↦ rw (skip, sub c skip) (rw (← e))
        | inr other ↦ rw other (rw (← e))
      ]
      step (d ∷ r) e = rw e

  -- White space at the ends of a text makes no word, where white space separates.
  pub words-strip : (s : Text) → words p (rstrip_if q (lstrip_if q s)) ≡ words p s
  unfolding words
  words-strip s =
      ap (λ (t : Text × List Text). cons_word t.0 t.1) (tokens-rstrip_if (lstrip_if q s))
      ∙ words-lstrip_if s

module _ (p : ℕ → Bool) where
  cons_word-IsWord :
      (w : Text) (ws : List Text)
      → All (λ d. p d ≡ false) w
      → All (IsWord p) ws
      → All (IsWord p) (cons_word w ws)
  cons_word-IsWord [] ws h k = k
  cons_word-IsWord (c ∷ w) ws h k = (h, k)

  tokens-IsWord : (s : Text) → All (λ d. p d ≡ false) (tokens p s).0 × All (IsWord p) (tokens p s).1
  unfolding tokens
  tokens-IsWord [] = (tt, tt)
  tokens-IsWord (c ∷ s) =
      let (h, k) = tokens-IsWord s in
      elim (Bool-cases (p c)) [
        | inl sep ↦ rw sep (tt, cons_word-IsWord _ _ h k)
        | inr other ↦ rw other ((other, h), k)
      ]

  -- What `words` gives are words.
  pub words-IsWord : (s : Text) → All (IsWord p) (words p s)
  unfolding words
  words-IsWord s = let (h, k) = tokens-IsWord s in cons_word-IsWord _ _ h k

  tokens-append :
      (w t : Text)
      → All (λ d. p d ≡ false) w
      → tokens p (w ++ t) ≡ (w ++ (tokens p t).0, (tokens p t).1)
  unfolding tokens
  tokens-append [] t h = refl
  tokens-append (c ∷ w) t h = rw h.0 (rw (tokens-append w t h.1))

  cons_word-word : (w : Text) (ws : List Text) → IsWord p w → cons_word w ws ≡ w ∷ ws
  cons_word-word [] ws h = absurd h
  cons_word-word (c ∷ w) ws h = refl

  All-of_word : (w : Text) → IsWord p w → All (λ d. p d ≡ false) w
  All-of_word [] h = tt
  All-of_word (c ∷ w) h = h

  -- Words that are joined by spaces are found again, where a space separates.
  pub words-unwords : (ws : List Text) → p 32 ≡ true → All (IsWord p) ws → words p (unwords ws) ≡ ws
  unfolding unwords words
  words-unwords [] sp h = refl
  words-unwords (w ∷ []) sp h = one w h.0
    where
      one : (u : Text) → IsWord p u → words p u ≡ u ∷ []
      one u k =
          ap (words p) (sym (append-nil u))
          ∙ ap (λ (t : Text × List Text). cons_word t.0 t.1) (tokens-append u [] (All-of_word u k))
          ∙ (unfold tokens in rw append-nil (cons_word-word u [] k))
  words-unwords (w ∷ (v ∷ ws)) sp h =
      let rest = unwords (v ∷ ws) in
      ap (λ (t : Text × List Text). cons_word t.0 t.1)
        (tokens-append w (32 ∷ rest) (All-of_word w h.0))
      ∙ (unfold tokens in rw sp (rw append-nil (cons_word-word w (words p rest) h.0)))
      ∙ ap (λ (l : List Text). w ∷ l) (words-unwords (v ∷ ws) sp h.1)
