-- ===== src/Srv/Acl/Parse/Marks.antt =====
-- A text without a colon holds no mark: what the searches do on the parts of a descriptor.
use samfscon.Prelude.{
  ℕ, Bool, true, false, none, some, List, [], ◌∷◌, ◌++◌, ◌==◌, ◌≡◌, refl, any, All, arith,
}
use samfscon.Prelude.Text.{Text, codes, rstrip_if, is_within, starts_with, ends_with, is_empty}
use samfscon.Srv.Acl.Parse.{before_cons, find_mark, at_end, field, field_cons, search_field}

abbrev pub NoColon : Text → Type 0
NoColon w = All (λ c. c == b':' ≡ false) w

-- The search for a mark goes on behind a text without a colon, and behind another mark.
module _ (m x : ℕ) (other : x == b':' ≡ false) (t : Text) where
  pub find_mark-skip :
      (w : Text)
      → NoColon w
      → (before after : Text) → find_mark m (x ∷ t) ≡ some (before, after)
      → find_mark m (w ++ x ∷ t) ≡ some (w ++ before, after)
  unfolding find_mark before_cons
  find_mark-skip [] h before after e = e
  find_mark-skip (c ∷ []) h before after e = rw (e, other) (ground arith)
  find_mark-skip (c ∷ (d ∷ w)) h before after e =
      rw (find_mark-skip (d ∷ w) h.1 before after e, h.1.0) (ground arith)

  pub search_field-skip :
      (marks : List ℕ) (w : Text)
      → NoColon w
      → search_field m marks (w ++ x ∷ t) ≡ search_field m marks (x ∷ t)
  unfolding search_field
  search_field-skip marks [] h = refl
  search_field-skip marks (c ∷ []) h = ground (arith, other)
  search_field-skip marks (c ∷ (d ∷ w)) h =
      let there = h.1.0 in ground (arith, search_field-skip marks (d ∷ w) h.1)

  pub within-skip :
      (w : Text)
      → NoColon w
      → is_within (codes "D:P") (w ++ x ∷ t) ≡ is_within (codes "D:P") (x ∷ t)
  unfolding is_within starts_with
  within-skip [] h = refl
  within-skip (c ∷ []) h = ground (arith, other)
  within-skip (c ∷ (d ∷ w)) h = let there = h.1.0 in ground (arith, within-skip (d ∷ w) h.1)

  pub field-end :
      (marks : List ℕ) (c : ℕ) (w : Text)
      → any (λ k. x == k) marks ≡ true
      → NoColon (c ∷ w)
      → All (λ d. d == 10 ≡ false) (c ∷ w)
      → field marks (c ∷ (w ++ x ∷ (b':' ∷ t))) ≡ some (c ∷ w)
  unfolding field at_end field_cons
  field-end marks c [] e h n = rw (n.0, e) refl
  field-end marks c (d ∷ []) e h n = rw (n.0, field-end marks d [] e h.1 n.1, other) (ground arith)
  field-end marks c (d ∷ (f ∷ w)) e h n =
      rw (n.0, field-end marks d (f ∷ w) e h.1 n.1, h.1.1.0) (ground arith)

module _ (m : ℕ) where
  pub find_mark-none : (w : Text) → NoColon w → find_mark m w ≡ none
  unfolding find_mark before_cons
  find_mark-none [] h = refl
  find_mark-none (c ∷ []) h = refl
  find_mark-none (c ∷ (d ∷ w)) h = rw (find_mark-none (d ∷ w) h.1, h.1.0) (ground arith)

  pub search_field-none : (marks : List ℕ) (w : Text) → NoColon w → search_field m marks w ≡ none
  unfolding search_field
  search_field-none marks [] h = refl
  search_field-none marks (c ∷ []) h = refl
  search_field-none marks (c ∷ (d ∷ w)) h =
      let there = h.1.0 in ground (arith, search_field-none marks (d ∷ w) h.1)

  module _ (x : ℕ) (other : x == m ≡ false) (letter : b':' == m ≡ false) where
    pub find_mark-past :
        (t before after : Text)
        → find_mark m t ≡ some (before, after)
        → find_mark m (x ∷ (b':' ∷ t)) ≡ some (x ∷ (b':' ∷ before), after)
    unfolding find_mark before_cons
    find_mark-past [] before after e = absurd (cc e)
    find_mark-past (c ∷ t) before after e = rw (e, other, letter) refl

    pub search_field-past :
        (marks : List ℕ) (t : Text) → search_field m marks (x ∷ (b':' ∷ t)) ≡ search_field m marks t
    unfolding search_field
    search_field-past marks [] = rw other refl
    search_field-past marks (c ∷ t) = rw (other, letter) refl

pub within-none : (w : Text) → NoColon w → is_within (codes "D:P") w ≡ false
unfolding is_within starts_with is_empty
within-none [] h = refl
within-none (c ∷ []) h = ground arith
within-none (c ∷ (d ∷ w)) h = let there = h.1.0 in ground (arith, within-none (d ∷ w) h.1)

pub within-past :
    (x : ℕ) (t : Text)
    → b'D' == x ≡ false
    → is_within (codes "D:P") (x ∷ (b':' ∷ t)) ≡ is_within (codes "D:P") t
unfolding is_within starts_with
within-past x t h = rw h refl

-- What `rstrip` leaves of a text that does not end in white space.
pub rstrip_if-last :
    (p : ℕ → Bool) (u : Text) (c : ℕ) → p c ≡ false → rstrip_if p (u ++ c ∷ []) ≡ u ++ c ∷ []
unfolding rstrip_if
rstrip_if-last p [] c h = rw (h, rstrip_if) refl
rstrip_if-last p (d ∷ []) c h = rw (h, rstrip_if) refl
rstrip_if-last p (d ∷ (e ∷ u)) c h = rw (rstrip_if-last p (e ∷ u) c h) refl

pub ends_with-last : (u : Text) (c e : ℕ) → ends_with e (u ++ c ∷ []) ≡ (c == e)
unfolding ends_with
ends_with-last [] c e = refl
ends_with-last (d ∷ []) c e = refl
ends_with-last (d ∷ (f ∷ u)) c e = ends_with-last (f ∷ u) c e
