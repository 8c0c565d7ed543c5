-- ===== src/Srv/ShareConf/Value/Idempotent.antt =====
-- A value that was normalised once is not changed by normalising it again.
use samfscon.Prelude.{
  ℕ, ◌≡◌, refl, ◌∙◌, ap, sym, true, false, some, List, [], ◌∷◌, if◌then◌else◌, all, All, arith,
  Bool-cases, inl, inr, Option-cases,
}
use samfscon.Prelude.Text.{Text, codes, eq_text, eq_text_iff, lower, strip, is_space, starts_with}
use samfscon.Prelude.Strip.{strip_idem, strip_plain}
use samfscon.Prelude.Words.{words, unwords, words-strip, words-unwords, words-IsWord}
use samfscon.Prelude.Decimal.{to_decimal, int_of, strip-to_decimal, int_of-to_decimal}
use samfscon.Srv.ShareConf.Types.{OptionType, bool, text, list, mode, int, choice}
use samfscon.Srv.ShareConf.Value.{
  ok, is_yes, is_no, is_octal, is_mode, zeros, rjust_zero, zfill, is_separator, find_choice,
  int_value, validate_text, validate_value,
}

-- The choices of an option are written without white space at their ends.
abbrev pub AreTrimmed : List Text → Type 0
AreTrimmed choices = All (λ c. strip c ≡ c) choices

find_choice-trimmed :
    (cs : List Text) (s c : Text) → AreTrimmed cs → find_choice cs s ≡ some c → strip c ≡ c
unfolding find_choice
find_choice-trimmed [] s c h e = cc e
find_choice-trimmed (d ∷ cs) s c h e = elim (Bool-cases (eq_text (lower d) (lower s))) [
  | inl hit ↦ let same : d ≡ c = ground arith in rw (← same) h.0
  | inr miss ↦ find_choice-trimmed cs s c h.1 (ground arith)
]

-- The choice that was found has the case-folded text that was looked for.
find_choice-lower : (cs : List Text) (s c : Text) → find_choice cs s ≡ some c → lower c ≡ lower s
unfolding find_choice
find_choice-lower [] s c e = cc e
find_choice-lower (d ∷ cs) s c e =
    ground (arith, eq_text_iff (lower d) (lower s), find_choice-lower cs s c)

find_choice-same :
    (cs : List Text) (s c : Text) → lower c ≡ lower s → find_choice cs c ≡ find_choice cs s
unfolding find_choice
find_choice-same [] s c e = refl
find_choice-same (d ∷ cs) s c e = rw e (rw (find_choice-same cs s c e))

separator_of_space : (c : ℕ) → is_space c ≡ true → is_separator c ≡ true
unfolding is_separator
separator_of_space c h = ground arith

words_of_strip : (s : Text) → words is_separator (strip s) ≡ words is_separator s
unfolding strip
words_of_strip s = words-strip is_separator is_space separator_of_space s

space_separates : is_separator 32 ≡ true
unfolding is_separator is_space
space_separates = refl

validate_list :
    (name : Text) (choices : List Text) (s r : Text)
    → validate_text name list choices s ≡ ok r
    → validate_text name list choices (strip r) ≡ ok r
unfolding validate_text
validate_list name choices s r e =
    let ws = words is_separator s in
    let same : unwords ws ≡ r = ground arith in
    let again : words is_separator (strip r) ≡ ws =
      words_of_strip r
      ∙ ap (words is_separator) (sym same)
      ∙ words-unwords is_separator ws space_separates (words-IsWord is_separator s) in
    ap (λ (l : List Text). ok (unwords l)) again ∙ ap ok same

validate_int :
    (name : Text) (choices : List Text) (s r : Text)
    → validate_text name int choices s ≡ ok r
    → validate_text name int choices (strip r) ≡ ok r
unfolding validate_text int_value
validate_int name choices s r e = elim (Option-cases (int_of s)) [
  | inl bad ↦ ground arith
  | inr ((negative, n), good) ↦
      let same : to_decimal n ≡ r = ground arith in
      rw (← same) (rw (strip-to_decimal n) (rw (int_of-to_decimal n)))
]

validate_choice :
    (name : Text) (choices : List Text) (s r : Text)
    → AreTrimmed choices
    → validate_text name choice choices s ≡ ok r
    → validate_text name choice choices (strip r) ≡ ok r
unfolding validate_text
validate_choice name choices s r h e = elim (Option-cases (find_choice choices s)) [
  | inl bad ↦ ground arith
  | inr (c, good) ↦
      let same : c ≡ r = ground arith in
      let found : find_choice choices (strip c) ≡ some c =
        ap (find_choice choices) (find_choice-trimmed choices s c h good)
        ∙ find_choice-same choices s c (find_choice-lower choices s c good)
        ∙ good in
      rw (← same) (rw (found, validate_text))
]

validate_bool :
    (name : Text) (choices : List Text) (s r : Text)
    → validate_text name bool choices s ≡ ok r
    → validate_text name bool choices (strip r) ≡ ok r
unfolding validate_text
validate_bool name choices s r e = elim (Bool-cases (is_yes (lower s))) [
  | inl y ↦
      let same : codes "yes" ≡ r = ground arith in
      rw (← same) (unfold strip lower is_yes eq_text in refl)
  | inr n ↦ elim (Bool-cases (is_no (lower s))) [
    | inl m ↦
        let same : codes "no" ≡ r = ground arith in
        rw (← same) (unfold strip lower is_yes is_no eq_text in refl)
    | inr bad ↦ ground arith
  ]
]

-- The digits of a mode, as `validate_value` writes them.
abbrev pub normal_mode : Text → Text
normal_mode s = if starts_with (codes "0") s then rjust_zero s 4 else zfill s 4

pub octal_plain : (s : Text) → all is_octal s ≡ true → All (λ c. is_space c ≡ false) s
unfolding is_octal is_space
octal_plain [] h = tt
octal_plain (c ∷ s) h = (ground arith, octal_plain s (ground arith))

-- A mode, with a 0 in front where it has three digits.
unfoldable pub pad_mode : Text → Text
pad_mode (a ∷ (b ∷ (c ∷ []))) = b'0' ∷ a ∷ b ∷ c ∷ []
pad_mode s = s

pub mode_all : (s : Text) → is_mode s ≡ true → all is_octal s ≡ true
unfolding is_mode
mode_all s h = ground arith

pub normal_mode-pad : (s : Text) → is_mode s ≡ true → normal_mode s ≡ pad_mode s
unfolding is_mode pad_mode rjust_zero zfill zeros is_octal starts_with
normal_mode-pad [] h = ground arith
normal_mode-pad (a ∷ []) h = ground arith
normal_mode-pad (a ∷ (b ∷ [])) h = ground arith
normal_mode-pad (a ∷ (b ∷ (c ∷ []))) h = ground arith
normal_mode-pad (a ∷ (b ∷ (c ∷ (d ∷ [])))) h = ground arith
normal_mode-pad (a ∷ (b ∷ (c ∷ (d ∷ (e ∷ []))))) h = ground arith
normal_mode-pad (a ∷ (b ∷ (c ∷ (d ∷ (e ∷ (f ∷ s)))))) h = ground arith

pub is_mode-pad : (s : Text) → is_mode s ≡ true → is_mode (pad_mode s) ≡ true
unfolding pad_mode is_mode is_octal
is_mode-pad (a ∷ (b ∷ (c ∷ []))) h = ground arith
is_mode-pad s h = h

pad_mode_idem : (s : Text) → is_mode s ≡ true → pad_mode (pad_mode s) ≡ pad_mode s
unfolding pad_mode
pad_mode_idem (a ∷ (b ∷ (c ∷ []))) h = refl
pad_mode_idem s h = refl

validate_mode :
    (name : Text) (choices : List Text) (s r : Text)
    → validate_text name mode choices s ≡ ok r
    → validate_text name mode choices (strip r) ≡ ok r
unfolding validate_text
validate_mode name choices s r e = elim (Bool-cases (is_mode s)) [
  | inl good ↦
      let same : normal_mode s ≡ r = ground arith in
      let again = is_mode-pad s good in
      let trimmed =
        strip_plain (pad_mode s) (octal_plain (pad_mode s) (mode_all (pad_mode s) again)) in
      rw (← same) (
        rw (normal_mode-pad s good)
          (rw (trimmed, again) (ap ok (normal_mode-pad (pad_mode s) again ∙ pad_mode_idem s good))))
  | inr bad ↦ ground arith
]

-- Normalising is idempotent: what `validate_value` returns for an option, it returns unchanged when
-- it is given back, for every kind of option whose choices have no white space at their ends.
pub validate_value_idem :
    (name : Text) (type : OptionType) (choices : List Text) (value r : Text)
    → AreTrimmed choices
    → validate_value name type choices value ≡ ok r
    → validate_value name type choices r ≡ ok r
unfolding validate_value
validate_value_idem name bool choices value r h e = validate_bool name choices (strip value) r e
validate_value_idem name mode choices value r h e = validate_mode name choices (strip value) r e
validate_value_idem name int choices value r h e = validate_int name choices (strip value) r e
validate_value_idem name choice choices value r h e =
    validate_choice name choices (strip value) r h e
validate_value_idem name list choices value r h e = validate_list name choices (strip value) r e
validate_value_idem name text choices value r h e =
    unfold validate_text in
    let same : strip value ≡ r = ground arith in
    ap ok (ap strip (sym same) ∙ strip_idem value ∙ same)
