-- ===== src/Srv/ShareConf/Validate/Latest.antt =====
-- Which entry of the form a returned option comes from.
use samfscon.Prelude.{
  false, true, Option, none, some, [], ◌∷◌, ◌≡◌, refl, sym, subst, ap, if◌then◌else◌, ◌==◌, arith,
  inl, inr, map, Bool-cases, Option-cases,
}
use samfscon.Prelude.Text.{Text, eq_text, eq_text_iff, eq_text_ne, is_empty, strip, lower}
use samfscon.Prelude.Dict
use samfscon.Prelude.Dict.{Dict, or_before}
use samfscon.Srv.ShareConf.Types.{ShareOption}
use samfscon.Srv.ShareConf.Catalogue.{by_name}
use samfscon.Srv.ShareConf.Value.{ok, validate_value}
use samfscon.Srv.ShareConf.Validate.{
  spaces_for_underscores, normal_name, skipped, deletion, assigned, validate_one, check_value,
  check_entry, validate_from, validate,
}
use samfscon.Srv.ShareConf.Validate.Sound.{
  Result-cases, unequal, validate_from-err, validate_from-skipped, validate_from-deletion,
  validate_from-assigned,
}

-- The name of an option as Samba writes it.
abbrev pub as_name : Text → Text
as_name raw = map (λ c. if c == b'_' then b' ' else c) (lower (strip raw))

-- What the last entry with a name asks for, if there is one: a value, or a deletion.
abbrev pub last_asked : Text → Dict (Option Text) → Option (Option Text)
last_asked name [] = none
last_asked name ((raw, value) ∷ options) =
    or_before (last_asked name options) (if eq_text (as_name raw) name then some value else none)

-- A text is the normal form of a value: by the kind of its option, or without the white space at its
-- ends for an option outside the catalogue.
abbrev pub IsNormal : Option ShareOption → Text → Text → Type 0
IsNormal none v w = w ≡ strip v
IsNormal (some o) v w = validate_value o.name o.type o.choices v ≡ ok w

-- What is returned under a name does as asked; where nothing is asked, it is what was there before.
abbrev pub DoesAsAsked :
    Text → Option (Option Text) → Option (Option Text) → Option (Option Text) → Type 0
DoesAsAsked name before none returned = returned ≡ before
DoesAsAsked name before (some none) returned = returned ≡ some none
DoesAsAsked name before (some (some v)) returned =
    (w : Text) × (returned ≡ some (some w)) × IsNormal (by_name name) v w

module _ (name : Text) (before mid : Option (Option Text)) where
  and_then :
      (later here returned : Option (Option Text))
      → DoesAsAsked name mid later returned
      → DoesAsAsked name before here mid
      → DoesAsAsked name before (or_before later here) returned
  and_then none here returned h k = subst (DoesAsAsked name before here) (sym h) k
  and_then (some none) here returned h k = h
  and_then (some (some v)) here returned h k = h

check_entry_skipped :
    (name : Text) (value : Option Text) → check_entry name value ≡ ok skipped → is_empty name ≡ true
unfolding check_entry check_value
check_entry_skipped name none e = ground arith
check_entry_skipped name (some v) e = ground arith

check_entry_deleted :
    (name : Text) (value : Option Text) → check_entry name value ≡ ok deletion → value ≡ none
unfolding check_entry check_value
check_entry_deleted name none e = refl
check_entry_deleted name (some v) e = ground arith

check_value-IsNormal :
    (name v w : Text) → check_value name v ≡ ok (assigned w) → IsNormal (by_name name) v w
unfolding check_value validate_one
check_value-IsNormal name v w e = elim (Option-cases (by_name name)) [
  | inl outside ↦ rw outside (ground arith)
  | inr (o, found) ↦ rw found (ground arith)
]

check_entry_assigned :
    (name w : Text) (value : Option Text)
    → check_entry name value ≡ ok (assigned w)
    → (v : Text) × (value ≡ some v) × IsNormal (by_name name) v w
unfolding check_entry
check_entry_assigned name w none e = absurd (ground arith)
check_entry_assigned name w (some v) e = (v, refl, check_value-IsNormal name v w (ground arith))

normal_name-as_name : (raw : Text) → normal_name raw ≡ as_name raw
unfolding normal_name spaces_for_underscores
normal_name-as_name raw = refl

-- One entry whose name is known.
module _ (name n : Text) (value : Option Text) (checked : Dict (Option Text)) where
  abbrev here : Option (Option Text)
  here = if eq_text n name then some value else none

  skip-DoesAsAsked :
      is_empty name ≡ false
      → check_entry n value ≡ ok skipped
      → DoesAsAsked name (Dict.get checked name) here (Dict.get checked name)
  skip-DoesAsAsked full e =
      let other : eq_text n name ≡ false =
        eq_text_ne n name (λ same. cc (full, ap is_empty same, check_entry_skipped n value e)) in
      rw other refl

  put-DoesAsAsked :
      (given : Option Text)
      → (n ≡ name → DoesAsAsked name (Dict.get checked name) (some value) (some given))
      → DoesAsAsked name (Dict.get checked name) here (Dict.get (Dict.put checked n given) name)
  put-DoesAsAsked given h = elim (Bool-cases (eq_text n name)) [
    | inl same ↦ rw same (rw Dict.get-put (rw same (h ((eq_text_iff n name).0 same))))
    | inr other ↦ rw other (rw Dict.get-put (rw other refl))
  ]

  delete-DoesAsAsked :
      check_entry n value ≡ ok deletion
      → DoesAsAsked name (Dict.get checked name) here (Dict.get (Dict.put checked n none) name)
  delete-DoesAsAsked e = put-DoesAsAsked none (λ same. rw (check_entry_deleted n value e) refl)

  assign-DoesAsAsked :
      (w : Text)
      → check_entry n value ≡ ok (assigned w)
      → DoesAsAsked name (Dict.get checked name) here (Dict.get (Dict.put checked n (some w)) name)
  assign-DoesAsAsked w e = put-DoesAsAsked (some w) (λ same.
      let (v, given, normal) = check_entry_assigned n w value e in
      rw given (w, refl, subst (λ x. IsNormal (by_name x) v w) same normal))

validate_from-latest :
    (name : Text)
    → is_empty name ≡ false
    → (options checked d : Dict (Option Text)) → validate_from checked options ≡ ok d
    → DoesAsAsked name (Dict.get checked name) (last_asked name options) (Dict.get d name)
validate_from-latest name full [] checked d e =
    unfold validate_from in let same : checked ≡ d = ground arith in rw (← same) refl
validate_from-latest name full ((raw, value) ∷ rest) checked d e =
    elim (Result-cases (check_entry (normal_name raw) value)) [
      | inl (x, q) ↦ absurd (unequal (rw (validate_from-err checked raw value rest q) at e))
      | inr (inl (inl q)) ↦
          and_then name _ (Dict.get checked name) (last_asked name rest) _ (Dict.get d name)
            (validate_from-latest name full rest checked d
              (rw (validate_from-skipped checked raw value rest q) at e))
            (rw (← normal_name-as_name raw)
              (skip-DoesAsAsked name (normal_name raw) value checked full q))
      | inr (inl (inr q)) ↦
          let next = Dict.put checked (normal_name raw) none in
          and_then name _ (Dict.get next name) (last_asked name rest) _ (Dict.get d name)
            (validate_from-latest name full rest next d
              (rw (validate_from-deletion checked raw value rest q) at e))
            (rw (← normal_name-as_name raw)
              (delete-DoesAsAsked name (normal_name raw) value checked q))
      | inr (inr (v, q)) ↦
          let next = Dict.put checked (normal_name raw) (some v) in
          and_then name _ (Dict.get next name) (last_asked name rest) _ (Dict.get d name)
            (validate_from-latest name full rest next d
              (rw (validate_from-assigned checked raw value rest q) at e))
            (rw (← normal_name-as_name raw)
              (assign-DoesAsAsked name (normal_name raw) value checked v q))
    ]

-- When `validate` succeeds, it returns under each name that is not empty what the last entry of the
-- form with that name asks for, names being compared without white space at their ends, in small
-- letters and with spaces for underscores: a deletion where the entry has no value, the normal form
-- of its value otherwise, and nothing where no entry has the name.
pub validate-latest :
    (options d : Dict (Option Text)) (name : Text)
    → is_empty name ≡ false
    → validate options ≡ ok d
    → DoesAsAsked name none (last_asked name options) (Dict.get d name)
unfolding validate
validate-latest options d name full e =
    unfold Dict.get in validate_from-latest name full options [] d e
