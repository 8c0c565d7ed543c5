-- ===== src/Srv/Acl/Parse/Bodies.antt =====
-- The entries that `build` writes are found again by the regular expression of `_split_dacl`.
use samfscon.Prelude.{
  ℕ, true, false, none, some, List, [], ◌∷◌, ◌++◌, ◌==◌, ◌<◌, ◌%◌, ◌≡◌, refl, ap, ◌∙◌,
  if◌then◌else◌, All, All-append, arith, append-nil, append_assoc, Bool-cases, inl, inr,
}
use samfscon.Prelude.Text.{Text}
use samfscon.Prelude.Strip.{strip_plain}
use samfscon.Srv.Acl.Rights.{render_rights, render_flags}
use samfscon.Srv.Acl.Rights.RoundTrip.{
  IsPlain, All-spaceless, render_rights-IsPlain, render_flags-IsPlain,
}
use samfscon.Srv.Acl.Entry.{
  Ace, Kind, allow, deny, inherited, letter_of, rights_text_of, render_ace, render_all, parse_ace,
}
use samfscon.Srv.Acl.Entry.RoundTrip.{plain-IsField, parse_ace-render_ace}
use samfscon.Srv.Acl.Parse.{until_body, ace_texts, next_open, note_closed, parse_aces}
use samfscon.Srv.Acl.Parse.Marks.{NoColon}

-- A character that may stand within an entry.
abbrev IsInner : ℕ → Type 0
IsInner c = (c == b':' ≡ false) × (c == b'(' ≡ false) × (c == b')' ≡ false)

plain-IsInner : (s : Text) → All IsPlain s → All IsInner s
plain-IsInner [] h = tt
plain-IsInner (c ∷ s) h =
    let plain = h.0.0 in ((ground arith, ground arith, ground arith), plain-IsInner s h.1)

-- An entry that can be read back: it is understood, and its trustee has no marks and no white space.
abbrev pub IsReadable : Ace → Type 0
IsReadable a = (a.understood ≡ true) × (a.flags < 32) × All IsPlain a.trustee

-- An entry as `parse` gives it back: without the mark of an inherited one.
abbrev pub read_back : Ace → Ace
read_back a = record {
  trustee = a.trustee;
  kind = a.kind;
  mask = a.mask;
  flags = a.flags % 16;
  raw_rights = render_rights a.mask;
  understood = true;
}

-- The entries that are no inherited ones, as they are read back.
unfoldable pub read_back_all : List Ace → List Ace
read_back_all [] = []
read_back_all (a ∷ aces) =
    let rest = read_back_all aces in if inherited a then rest else read_back a ∷ rest

letter-IsInner : (k : Kind) → All IsInner (letter_of k)
unfolding letter_of
letter-IsInner allow = ((refl, refl, refl), tt)
letter-IsInner deny = ((refl, refl, refl), tt)

abbrev separated : Text → Text → Text
separated s t = s ++ b';' ∷ t

separated-IsInner : (s t : Text) → All IsInner s → All IsInner t → All IsInner (separated s t)
separated-IsInner s t h k = All-append IsInner s (b';' ∷ t) h ((refl, refl, refl), k)

render_ace-IsInner : (a : Ace) → IsReadable a → All IsInner (render_ace a)
unfolding render_ace rights_text_of
render_ace-IsInner a h = rw h.0 (
    separated-IsInner (letter_of a.kind)
      (separated (render_flags a.flags)
        (separated (render_rights a.mask) (b';' ∷ (b';' ∷ a.trustee))))
      (letter-IsInner a.kind)
      (separated-IsInner (render_flags a.flags)
        (separated (render_rights a.mask) (b';' ∷ (b';' ∷ a.trustee)))
        (plain-IsInner (render_flags a.flags) (render_flags-IsPlain a.flags))
        (separated-IsInner (render_rights a.mask) (b';' ∷ (b';' ∷ a.trustee))
          (plain-IsInner (render_rights a.mask) (render_rights-IsPlain a.mask))
          ((refl, refl, refl), ((refl, refl, refl), plain-IsInner a.trustee h.2)))))

ace_texts-open :
    (w u r : Text)
    → All IsInner w
    → ace_texts (some u) (w ++ b')' ∷ r) ≡ (u ++ w) ∷ ace_texts none r
unfolding ace_texts next_open note_closed
ace_texts-open [] u r h = rw append-nil refl
ace_texts-open (c ∷ w) u r h =
    rw (h.0.1, h.0.2)
      (ace_texts-open w (u ++ c ∷ []) r h.1
        ∙ ap (λ x. x ∷ ace_texts none r) (append_assoc u (c ∷ []) w))

parse_aces-cons :
    (text : Text) (a : Ace) (texts : List Text)
    → parse_ace text ≡ some a
    → parse_aces (text ∷ texts) ≡ a ∷ parse_aces texts
unfolding parse_aces
parse_aces-cons text a texts e = rw (e, parse_aces) refl

pub parse_aces-render_all :
    (aces : List Ace)
    → All IsReadable aces
    → parse_aces (ace_texts none (render_all aces)) ≡ read_back_all aces
unfolding render_all ace_texts next_open note_closed read_back_all
parse_aces-render_all [] h = unfold parse_aces in refl
parse_aces-render_all (a ∷ aces) h = elim (Bool-cases (inherited a)) [
  | inl left_out ↦ rw left_out (parse_aces-render_all aces h.1)
  | inr written ↦ rw written (
      ap parse_aces (ace_texts-open (render_ace a) [] (render_all aces) (render_ace-IsInner a h.0))
      ∙ parse_aces-cons (render_ace a) (read_back a) (ace_texts none (render_all aces)) (
          parse_ace-render_ace a h.0.0 h.0.1 (plain-IsField a.trustee h.0.2)
            (strip_plain a.trustee (All-spaceless a.trustee h.0.2)))
      ∙ ap (λ rest. read_back a ∷ rest) (parse_aces-render_all aces h.1))
]

pub until_body-render_all : (aces : List Ace) → until_body (render_all aces) ≡ ([], render_all aces)
unfolding render_all until_body
until_body-render_all [] = refl
until_body-render_all (a ∷ aces) = elim (Bool-cases (inherited a)) [
  | inl left_out ↦ rw left_out (until_body-render_all aces)
  | inr written ↦ rw written refl
]

IsInner-NoColon : (s : Text) → All IsInner s → NoColon s
IsInner-NoColon [] h = tt
IsInner-NoColon (c ∷ s) h = (h.0.0, IsInner-NoColon s h.1)

pub render_all-NoColon : (aces : List Ace) → All IsReadable aces → NoColon (render_all aces)
unfolding render_all
render_all-NoColon [] h = tt
render_all-NoColon (a ∷ aces) h = elim (Bool-cases (inherited a)) [
  | inl left_out ↦ rw left_out (render_all-NoColon aces h.1)
  | inr written ↦ rw written (
    refl,
    All-append (λ c. c == b':' ≡ false) (render_ace a) (b')' ∷ render_all aces)
        (IsInner-NoColon (render_ace a) (render_ace-IsInner a h.0))
        (refl, render_all-NoColon aces h.1),
  )
]
