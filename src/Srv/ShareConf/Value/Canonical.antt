-- ===== src/Srv/ShareConf/Value/Canonical.antt =====
-- The forms in which values are stored.
use samfscon.Prelude.{
  ℕ, ◌≡◌, refl, ◌∙◌, ap, sym, true, some, List, [], ◌∷◌, all, any, All, ◌⊎◌, length, arith,
  Bool-cases, inl, inr, Option-cases,
}
use samfscon.Prelude.Text.{Text, codes, eq_text, eq_text_iff, strip, starts_with}
use samfscon.Prelude.Strip.{strip_plain, strip_idem}
use samfscon.Prelude.Words.{words, unwords, words-IsWord, IsWord}
use samfscon.Prelude.Decimal.{to_decimal, int_of}
use samfscon.Srv.ShareConf.Types.{OptionType, bool, text, list, mode, int, choice}
use samfscon.Srv.ShareConf.Value.{
  ok, is_octal, is_mode, is_separator, find_choice, int_value, validate_text, validate_value,
}
use samfscon.Srv.ShareConf.Value.Idempotent.{
  pad_mode, normal_mode-pad, is_mode-pad, mode_all, octal_plain,
}

-- The form of a stored value of each kind.
abbrev pub IsCanonical : OptionType → List Text → Text → Type 0
IsCanonical bool choices r = (r ≡ codes "yes") ⊎ (r ≡ codes "no")
IsCanonical mode choices r =
    (all is_octal r ≡ true)
    × ((length r ≡ 4) ⊎ ((length r ≡ 5) × (starts_with (codes "0") r ≡ true)))
IsCanonical int choices r = (n : ℕ) × (r ≡ to_decimal n)
IsCanonical choice choices r = any (λ c. eq_text c r) choices ≡ true
IsCanonical list choices r = (ws : List Text) × (r ≡ unwords ws) × All (IsWord is_separator) ws
IsCanonical text choices r = strip r ≡ r

pad_mode-length :
    (s : Text)
    → is_mode s ≡ true
    → (length (pad_mode s) ≡ 4)
      ⊎ ((length (pad_mode s) ≡ 5) × (starts_with (codes "0") (pad_mode s) ≡ true))
unfolding is_mode pad_mode starts_with
pad_mode-length [] h = ground arith
pad_mode-length (a ∷ (b ∷ (c ∷ []))) h = inl refl
pad_mode-length s h = ground arith

find_choice-mem :
    (cs : List Text) (s c : Text) → find_choice cs s ≡ some c → any (λ d. eq_text d c) cs ≡ true
unfolding find_choice
find_choice-mem [] s c e = cc e
find_choice-mem (d ∷ cs) s c e = ground (arith, find_choice-mem cs s c, eq_text_iff d c)

-- Every value that `validate_value` accepts is returned in the canonical form of its kind: `yes` or
-- `no`; octal digits, four of them or five with a 0 in front; a decimal number; one of the choices
-- in its own spelling; words that are joined by single spaces; or a text without white space at its
-- ends.
pub validate_value-IsCanonical :
    (name : Text) (type : OptionType) (choices : List Text) (value r : Text)
    → validate_value name type choices value ≡ ok r
    → IsCanonical type choices r
unfolding validate_value validate_text
validate_value-IsCanonical name bool choices value r e = ground arith
validate_value-IsCanonical name mode choices value r e = elim (Bool-cases (is_mode (strip value))) [
  | inl good ↦
      let same : pad_mode (strip value) ≡ r =
        sym (normal_mode-pad (strip value) good) ∙ ground arith in
      let again = is_mode-pad (strip value) good in
      rw (← same) (mode_all (pad_mode (strip value)) again, pad_mode-length (strip value) good)
  | inr bad ↦ absurd (ground arith)
]
validate_value-IsCanonical name int choices value r e =
    unfold int_value in
    elim (Option-cases (int_of (strip value))) [
      | inl bad ↦ absurd (ground arith)
      | inr ((negative, n), good) ↦ (n, ground arith)
    ]
validate_value-IsCanonical name choice choices value r e =
    elim (Option-cases (find_choice choices (strip value))) [
      | inl bad ↦ absurd (ground arith)
      | inr (c, good) ↦ find_choice-mem choices (strip value) r (ground arith)
    ]
validate_value-IsCanonical name list choices value r e =
    let ws = words is_separator (strip value) in
    (ws, ground arith, words-IsWord is_separator (strip value))
validate_value-IsCanonical name text choices value r e =
    let same : strip value ≡ r = ground arith in ap strip (sym same) ∙ strip_idem value ∙ same

mode_kept :
    (name : Text) (choices : List Text) (s : Text)
    → is_mode s ≡ true
    → pad_mode s ≡ s
    → validate_value name mode choices s ≡ ok s
unfolding validate_value validate_text
mode_kept name choices s good fixed =
    rw (strip_plain s (octal_plain s (mode_all s good)))
      (rw good (ap ok (normal_mode-pad s good ∙ fixed)))

four_is_mode :
    (s : Text) → all is_octal s ≡ true → length s ≡ 4 → (is_mode s ≡ true) × (pad_mode s ≡ s)
unfolding is_mode pad_mode
four_is_mode (a ∷ (b ∷ (c ∷ (d ∷ [])))) h four = (ground arith, refl)
four_is_mode s h four = absurd (omega arith)

four_is_mode_0 :
    (s : Text)
    → all is_octal s ≡ true
    → length s ≡ 4
    → (is_mode (b'0' ∷ s) ≡ true) × (pad_mode (b'0' ∷ s) ≡ b'0' ∷ s)
unfolding is_mode pad_mode starts_with is_octal
four_is_mode_0 (a ∷ (b ∷ (c ∷ (d ∷ [])))) h four = (ground arith, refl)
four_is_mode_0 s h four = absurd (omega arith)

-- Each four octal digits are stored as they are, and so are the same digits with a 0 in front: the
-- two spellings of one mask are both accepted and stay different.
pub mode_two_spellings :
    (name : Text) (choices : List Text) (s : Text)
    → all is_octal s ≡ true
    → length s ≡ 4
    → (validate_value name mode choices s ≡ ok s)
      × (validate_value name mode choices (b'0' ∷ s) ≡ ok (b'0' ∷ s))
mode_two_spellings name choices s h four =
    let short = four_is_mode s h four in
    let long = four_is_mode_0 s h four in
    (mode_kept name choices s short.0 short.1, mode_kept name choices (b'0' ∷ s) long.0 long.1)
