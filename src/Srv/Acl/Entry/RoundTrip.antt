-- ===== src/Srv/Acl/Entry/RoundTrip.antt =====
-- An entry that `build` writes is read back by `_parse_ace`.
use samfscon.Prelude.{
  arith, ℕ, ◌<◌, ◌%◌, true, false, some, List, [], ◌∷◌, ◌++◌, ◌==◌, ◌≡◌, refl, ap, ◌∙◌, All,
}
use samfscon.Prelude.Text.{Text, strip, upper, starts_with}
use samfscon.Prelude.Words.{split_on}
use samfscon.Prelude.Strip.{strip_plain}
use samfscon.Srv.Acl.Rights.{render_rights, render_flags}
use samfscon.Srv.Acl.Rights.RoundTrip.{
  IsPlain, All-spaceless, render_rights-IsPlain, render_flags-IsPlain, parse_rights-render_rights,
  parse_flags-render_flags,
}
use samfscon.Srv.Acl.Entry.{
  Ace, Kind, allow, deny, kind_of, ace_of, ace_of_fields, parse_ace, letter_of, rights_text_of,
  render_ace,
}

-- A text that is one field: it has no separator in it.
abbrev pub IsField : Text → Type 0
IsField s = All (λ c. c == b';' ≡ false) s

split_on-end : (s : Text) → IsField s → split_on b';' s ≡ (s, [])
unfolding split_on
split_on-end [] h = refl
split_on-end (c ∷ s) h = rw (split_on-end s h.1, h.0) refl

split_on-field :
    (s t : Text)
    → IsField s
    → split_on b';' (s ++ b';' ∷ t) ≡ (s, (split_on b';' t).0 ∷ (split_on b';' t).1)
unfolding split_on
split_on-field [] t h = refl
split_on-field (c ∷ s) t h = rw (split_on-field s t h.1, h.0) refl

abbrev with_field : Text → Text × List Text → Text × List Text
with_field s r = (s, r.0 ∷ r.1)

-- The six fields of an entry
split_on-render :
    (a b c trustee : Text)
    → IsField a
    → IsField b
    → IsField c
    → IsField trustee
    → split_on b';' (a ++ b';' ∷ (b ++ b';' ∷ (c ++ b';' ∷ (b';' ∷ (b';' ∷ trustee)))))
      ≡ (a, b ∷ (c ∷ ([] ∷ ([] ∷ (trustee ∷ [])))))
split_on-render a b c trustee ha hb hc ht =
    split_on-field a _ ha
    ∙ ap (with_field a) (
        split_on-field b _ hb
        ∙ ap (with_field b) (
            split_on-field c _ hc
            ∙ ap (with_field c) (
                split_on-field [] (b';' ∷ trustee) tt
                ∙ ap (with_field [])
                    (split_on-field [] trustee tt ∙ ap (with_field []) (split_on-end trustee ht)))))

pub plain-IsField : (s : Text) → All IsPlain s → IsField s
plain-IsField [] h = tt
plain-IsField (c ∷ s) h = let plain = h.0.0 in (ground arith, plain-IsField s h.1)

letter_of-IsField : (k : Kind) → IsField (letter_of k)
unfolding letter_of
letter_of-IsField allow = (refl, tt)
letter_of-IsField deny = (refl, tt)

kind_of-letter_of : (k : Kind) → kind_of (letter_of k) ≡ k
unfolding kind_of letter_of strip upper starts_with
kind_of-letter_of allow = refl
kind_of-letter_of deny = refl

ace_of-render :
    (kind : Kind) (flags mask : ℕ) (trustee : Text)
    → flags < 32
    → strip trustee ≡ trustee
    → ace_of (letter_of kind) (render_flags flags) (render_rights mask) trustee ≡ record {
      trustee = trustee;
      kind = kind;
      mask = mask;
      flags = flags % 16;
      raw_rights = render_rights mask;
      understood = true;
    }
unfolding ace_of
ace_of-render kind flags mask trustee h t =
    rw
      (
        parse_rights-render_rights mask,
        kind_of-letter_of kind,
        parse_flags-render_flags flags h,
        t,
        strip_plain (render_rights mask)
            (All-spaceless (render_rights mask) (render_rights-IsPlain mask)),
      )
      refl

-- An entry that is understood, whose flags are below 32, and whose trustee has neither a `;` in it nor white space at its ends, is
-- read back as `build` writes it, with the same trustee, kind and mask, its flags of inheritance
-- without the mark of an inherited entry, and the text of its rights.
pub parse_ace-render_ace :
    (a : Ace)
    → a.understood ≡ true
    → a.flags < 32
    → IsField a.trustee
    → strip a.trustee ≡ a.trustee
    → parse_ace (render_ace a)
      ≡ some (record {
        trustee = a.trustee;
        kind = a.kind;
        mask = a.mask;
        flags = a.flags % 16;
        raw_rights = render_rights a.mask;
        understood = true;
      })
unfolding parse_ace render_ace rights_text_of ace_of_fields
parse_ace-render_ace a u h f t = rw u (
    ap ace_of_fields (
      split_on-render (letter_of a.kind) (render_flags a.flags) (render_rights a.mask) a.trustee
        (letter_of-IsField a.kind)
        (plain-IsField (render_flags a.flags) (render_flags-IsPlain a.flags))
        (plain-IsField (render_rights a.mask) (render_rights-IsPlain a.mask)) f)
    ∙ ap some (ace_of-render a.kind a.flags a.mask a.trustee h t))
