-- ===== src/Srv/GlobalConf/Live/InForce.antt =====
-- When the registry counts as read by the server, and when as ignored.
use samfscon.Prelude.{
  Bool, true, false, Option, none, some, List, ◌≡◌, ◌≢◌, refl, ◌&&◌, ◌↔◌, ◌⊎◌, Bool-cases, inl, inr,
  arith, ap, ◌∙◌, sym,
}
use mathlib.Core.Option.{some-injective}
use samfscon.Prelude.Text.{Text, codes, eq_text, is_within}
use samfscon.Prelude.Dict
use samfscon.Prelude.Dict.{Dict}
use samfscon.Srv.GlobalConf.Catalogue.{by_name}
use samfscon.Srv.GlobalConf.Live.{
  LiveValue, server_string, find_value, is_value, default_comment, compare_with, check_stored,
  in_force_check,
}
use samfscon.Srv.GlobalConf.Live.Reported.{
  IsFirst, find_value-IsFirst, IsFirst-find_value, is_value_iff, is_value_ne,
}

-- A comparison that decides: what is stored has no variable, the server reports a readable value
-- under its first row of the name, not both are `Samba`, and the answer says whether they are the same.
pub record Compared (live : List LiveValue) (value : Text) (reported : LiveValue) (answer : Bool)
    : Type 0 where
  pub no_variable : is_within (codes "%") value ≡ false
  pub is_first : IsFirst live (codes "server string") reported
  pub is_readable : reported.readable ≡ true
  pub no_default : (value ≢ codes "Samba") ⊎ (reported.value ≢ some value)
  pub answers : (answer ≡ true) ↔ (reported.value ≡ some value)

default_is : default_comment ≡ some (codes "Samba")
unfolding default_comment by_name eq_text
default_is = refl

-- Not both are the default.
telling_iff :
    (value : Text) (seen : Option Text)
    → (is_value default_comment value && is_value seen value) ≡ false
    → (value ≢ codes "Samba") ⊎ (seen ≢ some value)
telling_iff value seen e = elim (Bool-cases (is_value seen value)) [
  | inr other ↦ inr (is_value_ne seen value other)
  | inl same ↦ inl (λ q.
      is_value_ne default_comment value (ground (arith, e, same)) (default_is ∙ ap some (sym q)))
]

iff_telling :
    (value : Text) (seen : Option Text)
    → (value ≢ codes "Samba") ⊎ (seen ≢ some value)
    → (is_value default_comment value && is_value seen value) ≡ false
iff_telling value seen (inr other) = elim (Bool-cases (is_value seen value)) [
  | inl same ↦ absurd (other ((is_value_iff seen value).0 same))
  | inr differs ↦ ground (arith, differs)
]
iff_telling value seen (inl other) = elim (Bool-cases (is_value default_comment value)) [
  | inl same ↦
      absurd (
        other (some-injective _ _ (sym ((is_value_iff default_comment value).0 same) ∙ default_is)))
  | inr differs ↦ ground (arith, differs)
]

same_answer : (a b : Bool) {P : Type 0} → ((a ≡ true) ↔ P) → ((b ≡ true) ↔ P) → a ≡ b
same_answer true b h k = sym (k.1 (h.0 refl))
same_answer false true h k = h.1 (k.0 refl)
same_answer false false h k = refl

module _ (live : List LiveValue) (value : Text) (b : Bool) where
  compare_with-decided :
      (reported : Option LiveValue)
      → find_value live server_string ≡ reported
      → is_within (codes "%") value ≡ false
      → (compare_with value reported).0 ≡ some b
      → (r : LiveValue) × Compared live value r b
  unfolding compare_with
  compare_with-decided none found plain e = absurd (cc e)
  compare_with-decided (some r) found plain e = elim (Bool-cases r.readable) [
    | inr refused ↦ absurd (cc (rw refused at e))
    | inl readable ↦ elim (Bool-cases (is_value default_comment value && is_value r.value value)) [
      | inl default ↦ absurd (cc (rw (readable, default) at e))
      | inr telling ↦
          let answer : some (is_value r.value value) ≡ some b = rw (readable, telling) at e in
          let same : is_value r.value value ≡ b = some-injective _ _ answer in
          (
            r,
            record {
              no_variable = plain;
              is_first = find_value-IsFirst server_string live r found;
              is_readable = readable;
              no_default = telling_iff value r.value telling;
              answers = (
                λ q. (is_value_iff r.value value).0 (same ∙ q),
                λ q. sym same ∙ (is_value_iff r.value value).1 q,
              );
            },
          )
    ]
  ]

  decided-compare_with :
      (r : LiveValue) → Compared live value r b → (compare_with value (some r)).0 ≡ some b
  unfolding compare_with
  decided-compare_with r c =
      let same : is_value r.value value ≡ b =
        same_answer _ b (is_value_iff r.value value) c.answers in
      rw (c.is_readable, iff_telling value r.value c.no_default) (ap some same)

check_stored-decided :
    (live : List LiveValue) (stored : Option Text) (b : Bool)
    → (check_stored stored (find_value live server_string)).0 ≡ some b
    → (value : Text) × (r : LiveValue) × (stored ≡ some value) × Compared live value r b
unfolding check_stored
check_stored-decided live none b e = absurd (cc e)
check_stored-decided live (some value) b e = elim (Bool-cases (is_within (codes "%") value)) [
  | inl variable ↦ absurd (cc (rw variable at e))
  | inr plain ↦
      let (r, c) =
        compare_with-decided live value b (find_value live server_string) refl plain
          (rw plain at e) in
      (value, r, refl, c)
]

decided-check_stored :
    (live : List LiveValue) (value : Text) (r : LiveValue) (b : Bool)
    → Compared live value r b
    → (check_stored (some value) (find_value live server_string)).0 ≡ some b
unfolding check_stored
decided-check_stored live value r b c =
    rw (c.no_variable, IsFirst-find_value server_string live r c.is_first)
      (decided-compare_with live value b r c)

-- `in_force_check` decides, with an answer, exactly when a `server string` without `%` is stored, the
-- first row of that name that the server reports is readable, not both are `Samba`, and the answer
-- is whether the two are the same text.
pub in_force_check_decides :
    (stored : Dict Text) (live : List LiveValue) (b : Bool)
    → ((in_force_check stored live).0 ≡ some b) ↔ (
        (value : Text) × (r : LiveValue) × (Dict.get stored (codes "server string") ≡ some value)
        × Compared live value r b)
unfolding in_force_check
in_force_check_decides stored live b = (
  λ e. check_stored-decided live (Dict.get stored server_string) b e,
  λ (value, r, known, c). rw known (decided-check_stored live value r b c),
)
