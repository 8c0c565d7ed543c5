-- ===== src/Srv/ShareConf/Validate/Sound.antt =====
-- What the options that `validate` returns look like, and where their values come from.
use samfscon.Prelude.{
  false, Option, none, some, [], ◌∷◌, ◌≡◌, refl, arith, All, Option-cases, inl, inr, ◌⊎◌,
}
use samfscon.Prelude.Text.{Text, strip, is_empty}
use samfscon.Prelude.Strip.{strip_idem}
use samfscon.Prelude.Dict
use samfscon.Prelude.Dict.{Dict}
use samfscon.Srv.ShareConf.Types.{ShareOption}
use samfscon.Srv.ShareConf.Catalogue.{by_name, is_srvsvc_owned}
use samfscon.Srv.ShareConf.Value.{Error, Result, ok, err, validate_value}
use samfscon.Srv.ShareConf.Value.Canonical.{IsCanonical, validate_value-IsCanonical}
use samfscon.Srv.ShareConf.Validate.{
  normal_name, Checked, skipped, deletion, assigned, validate_one, check_value, check_entry,
  validate_from, validate,
}

-- A value fits what the catalogue says of its option: the canonical form of the option's kind, or
-- a text without white space at its ends where the option is not in the catalogue.
abbrev pub Fits : Option ShareOption → Text → Type 0
Fits none r = strip r ≡ r
Fits (some o) r = IsCanonical o.type o.choices r

abbrev pub FitsEntry : Text → Option Text → Type 0
FitsEntry name none = Unit
FitsEntry name (some r) = Fits (by_name name) r

abbrev pub IsSound : Text × Option Text → Type 0
IsSound e = (is_empty e.0 ≡ false) × (is_srvsvc_owned e.0 ≡ false) × FitsEntry e.0 e.1

check_value-Fits :
    (name value r : Text) → check_value name value ≡ ok (assigned r) → Fits (by_name name) r
unfolding check_value validate_one
check_value-Fits name value r e = elim (Option-cases (by_name name)) [
  | inl outside ↦
      let same : strip value ≡ r = ground arith in rw outside (rw (← same) (strip_idem value))
  | inr (o, found) ↦
      let good : validate_value o.name o.type o.choices value ≡ ok r = ground arith in
      rw found (validate_value-IsCanonical o.name o.type o.choices value r good)
]

check_entry-IsSound :
    (name : Text) (value : Option Text) (r : Text)
    → check_entry name value ≡ ok (assigned r)
    → IsSound (name, some r)
unfolding check_entry
check_entry-IsSound name none r e = absurd (ground arith)
check_entry-IsSound name (some v) r e =
    (ground arith, ground arith, check_value-Fits name v r (ground arith))

check_entry_deletion :
    (name : Text) (value : Option Text)
    → check_entry name value ≡ ok deletion
    → (is_empty name ≡ false) × (is_srvsvc_owned name ≡ false)
unfolding check_entry
check_entry_deletion name value e = ground arith

pub unequal : {x : Error} {d : Dict (Option Text)} → err x ≡ ok d → ⊥
unequal e = cc e

pub Result-cases :
    (r : Result Checked)
    → ((e : Error) × (r ≡ err e))
      ⊎ (((r ≡ ok skipped) ⊎ (r ≡ ok deletion)) ⊎ ((v : Text) × (r ≡ ok (assigned v))))
Result-cases (err e) = inl (e, refl)
Result-cases (ok skipped) = inr (inl (inl refl))
Result-cases (ok deletion) = inr (inl (inr refl))
Result-cases (ok (assigned v)) = inr (inr (v, refl))

module _ (checked : Dict (Option Text)) (raw : Text) (value : Option Text)
    (rest : Dict (Option Text)) where
  pub validate_from-err :
      {e : Error}
      → check_entry (normal_name raw) value ≡ err e
      → validate_from checked ((raw, value) ∷ rest) ≡ err e
  unfolding validate_from
  validate_from-err q = rw (q, validate_from)

  pub validate_from-skipped :
      check_entry (normal_name raw) value ≡ ok skipped
      → validate_from checked ((raw, value) ∷ rest) ≡ validate_from checked rest
  unfolding validate_from
  validate_from-skipped q = rw (q, validate_from)

  pub validate_from-deletion :
      check_entry (normal_name raw) value ≡ ok deletion
      → validate_from checked ((raw, value) ∷ rest)
        ≡ validate_from (Dict.put checked (normal_name raw) none) rest
  unfolding validate_from
  validate_from-deletion q = rw (q, validate_from)

  pub validate_from-assigned :
      {v : Text}
      → check_entry (normal_name raw) value ≡ ok (assigned v)
      → validate_from checked ((raw, value) ∷ rest)
        ≡ validate_from (Dict.put checked (normal_name raw) (some v)) rest
  unfolding validate_from
  validate_from-assigned q = rw (q, validate_from)

validate_from-IsSound :
    (options checked d : Dict (Option Text))
    → All IsSound checked
    → validate_from checked options ≡ ok d
    → All IsSound d
validate_from-IsSound [] checked d h e =
    unfold validate_from in let same : checked ≡ d = ground arith in rw (← same) h
validate_from-IsSound ((raw, value) ∷ rest) checked d h e =
    elim (Result-cases (check_entry (normal_name raw) value)) [
      | inl (x, q) ↦ absurd (unequal (rw (validate_from-err checked raw value rest q) at e))
      | inr (inl (inl q)) ↦
          validate_from-IsSound rest checked d h
            (rw (validate_from-skipped checked raw value rest q) at e)
      | inr (inl (inr q)) ↦
          let (a, b) = check_entry_deletion (normal_name raw) value q in
          validate_from-IsSound rest _ d
            (Dict.put-All IsSound checked (normal_name raw) none h (a, b, tt))
            (rw (validate_from-deletion checked raw value rest q) at e)
      | inr (inr (v, q)) ↦
          validate_from-IsSound rest _ d
            (Dict.put-All IsSound checked (normal_name raw) (some v) h
              (check_entry-IsSound (normal_name raw) value v q))
            (rw (validate_from-assigned checked raw value rest q) at e)
    ]

-- Of the options that `validate` returns, none is `path` or `comment`, none has an empty name, and
-- every value has the canonical form of its kind, or for an option outside the catalogue no white
-- space at its ends.
pub validate-IsSound : (options d : Dict (Option Text)) → validate options ≡ ok d → All IsSound d
unfolding validate
validate-IsSound options d e = validate_from-IsSound options [] d tt e
