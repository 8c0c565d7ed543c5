-- ===== src/Srv/Acl/Rights/RoundTrip.antt =====
-- What is rendered is read back.
use samfscon.Prelude.{
  ℕ, zero, suc, ◌%◌, ◌<◌, Bool, true, false, some, List, [], ◌∷◌, ◌++◌, ◌≡◌, refl, sym, ap, ◌∙◌,
  ◌==◌, ◌||◌, ◌&&◌, All, All-append, arith, Bool-cases, Option-cases, inl, inr, ==_iff,
}
use samfscon.Prelude.Text.{
  Text, codes, eq_text, strip, upper, is_space, is_digit, starts_with, is_empty,
}
use samfscon.Prelude.Strip.{strip_plain}
use samfscon.Prelude.Dict
use samfscon.Prelude.Hex.{to_hex8, int_of_hex-to_hex8, to_hex8-All, hex_char}
use samfscon.Srv.Acl.Masks.{right_letters, flag_letters, inherited_ace}
use samfscon.Srv.Acl.Rights.{
  parse_rights, rights_from, after_prefix, hex_mask, parse_flags, letters_for, render_rights,
  render_flags, letters_of, has_bit,
}

-- A test that holds of every number below a bound.
below : ℕ → (ℕ → Bool) → Bool
below zero p = true
below (suc n) p = p n && below n p

below_holds : (n k : ℕ) (p : ℕ → Bool) → below n p ≡ true → k < n → p k ≡ true
unfolding below
below_holds zero k p h l = absurd (omega arith)
below_holds (suc n) k p h l = elim (Bool-cases (k == n)) [
  | inl same ↦ rw ((==_iff k n).0 same) (ground arith)
  | inr other ↦ below_holds n k p (ground arith) (ground (arith, ==_iff k n))
]

flags_table : below 32 (λ f. parse_flags (render_flags f) == f % 16) ≡ true
unfolding below parse_flags render_flags has_bit strip upper eq_text Dict.get
flags_table = refl

-- Of flags below 32, those of inheritance that `render_flags` writes are read back by `_parse_flags`; the flag that
-- marks an inherited entry is left out.
pub parse_flags-render_flags : (f : ℕ) → f < 32 → parse_flags (render_flags f) ≡ f % 16
parse_flags-render_flags f h =
    (==_iff (parse_flags (render_flags f)) (f % 16)).0
      (below_holds 32 f (λ n. parse_flags (render_flags n) == n % 16) flags_table h)

abbrev ReadsBack : Text × ℕ → Type 0
ReadsBack e = parse_rights e.0 ≡ (e.1, true)

letters_ReadBack : All ReadsBack right_letters
unfolding parse_rights strip upper eq_text Dict.get is_empty starts_with is_digit
letters_ReadBack = (
  refl,
  (refl, (refl, (refl, (refl, (refl, (refl, (refl, (refl, (refl, (refl, (refl, tt))))))))))),
)

letters_for-ReadBack :
    (table : List (Text × ℕ)) (mask : ℕ) (letters : Text)
    → All ReadsBack table
    → letters_for table mask ≡ some letters
    → parse_rights letters ≡ (mask, true)
unfolding letters_for
letters_for-ReadBack [] mask letters h e = absurd (cc e)
letters_for-ReadBack ((l, value) ∷ rest) mask letters h e = elim (Bool-cases (mask == value)) [
  | inl same ↦
      let it : l ≡ letters = ground arith in
      rw (← it) (h.0 ∙ ap (λ k. (k, true)) (sym ((==_iff mask value).0 same)))
  | inr other ↦ letters_for-ReadBack rest mask letters h.1 (rw (other, letters_for) at e)
]

-- The characters that separate the parts of a descriptor.
abbrev pub is_mark : ℕ → Bool
is_mark c = c == b';' || c == b':' || c == b'(' || c == b')'

-- A character that neither separates parts nor is white space.
abbrev pub IsPlain : ℕ → Type 0
IsPlain c = (is_mark c ≡ false) × (is_space c ≡ false)

hex_char-IsPlain : (d : ℕ) → d < 16 → IsPlain (hex_char d)
unfolding hex_char is_space
hex_char-IsPlain d h = (ground arith, ground arith)

to_hex8-IsPlain : (mask : ℕ) → All IsPlain (codes "0x" ++ to_hex8 mask)
unfolding is_space
to_hex8-IsPlain mask =
    ((refl, refl), ((refl, refl), to_hex8-All IsPlain hex_char-IsPlain (refl, refl) mask))

pub All-spaceless : (s : Text) → All IsPlain s → All (λ c. is_space c ≡ false) s
All-spaceless [] h = tt
All-spaceless (c ∷ s) h = (h.0.1, All-spaceless s h.1)

hex_ReadsBack : (mask : ℕ) → parse_rights (codes "0x" ++ to_hex8 mask) ≡ (mask, true)
unfolding parse_rights upper is_empty starts_with rights_from after_prefix is_space
hex_ReadsBack mask =
    ap (λ t. rights_from (upper t))
      (strip_plain (codes "0x" ++ to_hex8 mask)
        (All-spaceless (codes "0x" ++ to_hex8 mask) (to_hex8-IsPlain mask)))
    ∙ ap hex_mask (int_of_hex-to_hex8 mask)

-- A mask that `render_rights` writes is read back by `_parse_rights`, and is fully understood.
pub parse_rights-render_rights : (mask : ℕ) → parse_rights (render_rights mask) ≡ (mask, true)
unfolding render_rights
parse_rights-render_rights mask = elim (Option-cases (letters_for right_letters mask)) [
  | inl none_named ↦ rw (none_named, render_rights) (hex_ReadsBack mask)
  | inr (letters, named) ↦
      rw (named, render_rights)
        (letters_for-ReadBack right_letters mask letters letters_ReadBack named)
]

letters_for-IsPlain :
    (table : List (Text × ℕ)) (mask : ℕ) (letters : Text)
    → All (λ e. All IsPlain e.0) table
    → letters_for table mask ≡ some letters
    → All IsPlain letters
unfolding letters_for
letters_for-IsPlain [] mask letters h e = absurd (cc e)
letters_for-IsPlain ((l, value) ∷ rest) mask letters h e = elim (Bool-cases (mask == value)) [
  | inl same ↦ let it : l ≡ letters = ground arith in rw (← it) h.0
  | inr other ↦ letters_for-IsPlain rest mask letters h.1 (rw (other, letters_for) at e)
]

letters_IsPlain : All (λ e. All IsPlain e.0) right_letters
unfolding is_space
letters_IsPlain = (
  ((refl, refl), ((refl, refl), tt)),
  (
    ((refl, refl), ((refl, refl), tt)),
    (
      ((refl, refl), ((refl, refl), tt)),
      (
        ((refl, refl), ((refl, refl), tt)),
        (
          ((refl, refl), ((refl, refl), tt)),
          (
            ((refl, refl), ((refl, refl), tt)),
            (
              ((refl, refl), ((refl, refl), tt)),
              (
                ((refl, refl), ((refl, refl), tt)),
                (
                  ((refl, refl), ((refl, refl), tt)),
                  (
                    ((refl, refl), ((refl, refl), tt)),
                    (((refl, refl), ((refl, refl), tt)), (((refl, refl), ((refl, refl), tt)), tt)),
                  ),
                ),
              ),
            ),
          ),
        ),
      ),
    ),
  ),
)

pub render_rights-IsPlain : (mask : ℕ) → All IsPlain (render_rights mask)
unfolding render_rights
render_rights-IsPlain mask = elim (Option-cases (letters_for right_letters mask)) [
  | inl none_named ↦ rw (none_named, render_rights) (to_hex8-IsPlain mask)
  | inr (letters, named) ↦
      rw (named, render_rights)
        (letters_for-IsPlain right_letters mask letters letters_IsPlain named)
]

letters_of-IsPlain :
    (table : List (Text × ℕ)) (flags : ℕ)
    → All (λ e. All IsPlain e.0) table
    → All IsPlain (letters_of table flags)
unfolding letters_of
letters_of-IsPlain [] flags h = tt
letters_of-IsPlain ((letters, value) ∷ rest) flags h =
    let out = letters_of-IsPlain rest flags h.1 in
    elim (Bool-cases (value == inherited_ace)) [
      | inl left_out ↦ rw left_out out
      | inr written ↦ elim (Bool-cases (has_bit flags value)) [
        | inl set ↦ rw (written, set) (All-append IsPlain letters (letters_of rest flags) h.0 out)
        | inr unset ↦ rw (written, unset) out
      ]
    ]

pub render_flags-IsPlain : (flags : ℕ) → All IsPlain (render_flags flags)
unfolding render_flags is_space
render_flags-IsPlain flags = letters_of-IsPlain flag_letters flags (
  ((refl, refl), ((refl, refl), tt)),
  (
    ((refl, refl), ((refl, refl), tt)),
    (
      ((refl, refl), ((refl, refl), tt)),
      (((refl, refl), ((refl, refl), tt)), (((refl, refl), ((refl, refl), tt)), tt)),
    ),
  ),
)
