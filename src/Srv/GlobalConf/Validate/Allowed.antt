-- ===== src/Srv/GlobalConf/Validate/Allowed.antt =====
-- What `validate` of the global options lets through.
use samfscon.Prelude.{
  true, false, Option, none, some, List, [], ◌∷◌, ◌≡◌, refl, ◌∙◌, ap, sym, if◌then◌else◌, arith,
  All, Bool-cases, Option-cases, inl, inr, ◌⊎◌,
}
use samfscon.Prelude.Text.{Text, eq_text, eq_text_iff, lower, strip}
use samfscon.Prelude.Dict
use samfscon.Prelude.Dict.{Dict}
use samfscon.Srv.ShareConf.Value.Canonical.{IsCanonical, validate_value-IsCanonical}
use samfscon.Srv.GlobalConf.Types.{GlobalOption, Safety, safe, risky, read_only}
use samfscon.Srv.GlobalConf.Catalogue.{find_option, by_name, catalogue}
use samfscon.Srv.GlobalConf.Dialect.{is_window_empty}
use samfscon.Srv.GlobalConf.Validate.{
  safety_for, applies_in, not_writable_prefixes, prefix_reason, Refusal, dialect_window_empty,
  Outcome, accept, refuse, is_confirmed, validate_one, check_safety, check_option, check_entry,
  validate_from, validate,
}

-- An option may stand so: it is not read only, and to set a risky one it is confirmed.
abbrev pub Standing : List Text → Text → Option Text → Safety → Type 0
Standing confirm name v read_only = ⊥
Standing confirm name v safe = Unit
Standing confirm name none risky = Unit
Standing confirm name (some r) risky = is_confirmed confirm name ≡ true

abbrev pub FitsOption : GlobalOption → Option Text → Type 0
FitsOption o none = Unit
FitsOption o (some r) = IsCanonical o.type o.choices r

abbrev pub IsAllowed : Text → List Text → Text × Option Text → Type 0
IsAllowed mode confirm e =
    (o : GlobalOption) × (by_name e.0 ≡ some o)
    × (applies_in o mode ≡ true)
    × Standing confirm e.0 e.1 (safety_for o mode).0
    × FitsOption o e.1

pub find_option-name :
    (os : List GlobalOption) (name : Text) (o : GlobalOption)
    → find_option os name ≡ some o
    → o.name ≡ name
unfolding find_option
find_option-name [] name o e = cc e
find_option-name (p ∷ os) name o e = elim (Bool-cases (eq_text p.name name)) [
  | inl same ↦ let it : p ≡ o = ground arith in rw (← it) ((eq_text_iff p.name name).0 same)
  | inr other ↦ find_option-name os name o (rw other at e)
]

validate_one-Fits :
    (o : GlobalOption) (value : Text) (v : Option Text)
    → validate_one o value ≡ accept v
    → FitsOption o v
unfolding validate_one
validate_one-Fits o value none e = tt
validate_one-Fits o value (some r) e =
    validate_value-IsCanonical o.name o.type o.choices value r (ground arith)

check_safety-Standing :
    (confirm : List Text) (o : GlobalOption) (value v : Option Text) (s : Safety)
    (reason : Option Text)
    → check_safety confirm o value (s, reason) ≡ accept v
    → Standing confirm o.name v s × FitsOption o v
unfolding check_safety
check_safety-Standing confirm o value v read_only reason e = absurd (cc e)
check_safety-Standing confirm o none none safe reason e = (tt, tt)
check_safety-Standing confirm o none none risky reason e = (tt, tt)
check_safety-Standing confirm o none (some r) safe reason e = absurd (ground arith)
check_safety-Standing confirm o none (some r) risky reason e = absurd (ground arith)
check_safety-Standing confirm o (some x) v safe reason e = (tt, validate_one-Fits o x v e)
check_safety-Standing confirm o (some x) none risky reason e = (tt, tt)
check_safety-Standing confirm o (some x) (some r) risky reason e =
    (ground arith, validate_one-Fits o x (some r) (ground arith))

pub by_name-name : (name : Text) (o : GlobalOption) → by_name name ≡ some o → o.name ≡ name
unfolding by_name
by_name-name name o e = find_option-name catalogue name o e

Outcome-cases {ℓ} :
    {A : Type ℓ} (r : Outcome A) → ((x : Refusal) × (r ≡ refuse x)) ⊎ ((a : A) × (r ≡ accept a))
Outcome-cases (refuse x) = inl (x, refl)
Outcome-cases (accept a) = inr (a, refl)

check_option-Standing :
    (mode : Text) (confirm : List Text) (o : GlobalOption) (value v : Option Text)
    → check_option mode confirm o value ≡ accept v
    → (applies_in o mode ≡ true) × Standing confirm o.name v (safety_for o mode).0 × FitsOption o v
unfolding check_option
check_option-Standing mode confirm o value v e = elim (Bool-cases (applies_in o mode)) [
  | inl here ↦
      let (standing, fits) =
        check_safety-Standing confirm o value v (safety_for o mode).0 (safety_for o mode).1
          (rw here at e) in
      (here, standing, fits)
  | inr elsewhere ↦ absurd (ground arith)
]

abbrev SameOutcome : Text × Option Text → Text × Option Text → Type 0
SameOutcome a b = accept a ≡ accept b

check_entry-IsAllowed :
    (mode : Text) (confirm : List Text) (raw name : Text) (value v : Option Text)
    → check_entry mode confirm raw value ≡ accept (name, v)
    → IsAllowed mode confirm (name, v)
unfolding check_entry
check_entry-IsAllowed mode confirm raw name value v e =
    elim (Option-cases (prefix_reason not_writable_prefixes (lower (strip raw)))) [
      | inr (reason, q) ↦ absurd (cc (rw (q, check_entry) at e))
      | inl q ↦ elim (Option-cases (by_name (lower (strip raw)))) [
        | inl unknown ↦ absurd (cc (rw (q, check_entry, unknown) at e))
        | inr (o, found) ↦ elim (Outcome-cases (check_option mode confirm o value)) [
          | inl (r, refused) ↦ absurd (cc (rw (q, check_entry, found, refused) at e))
          | inr (w, good) ↦
              let named : (o.name ≡ name) × (w ≡ v) =
                unpack (rw (q, check_entry, found, good) at e) in
              let key : lower (strip raw) ≡ name = sym (by_name-name _ o found) ∙ named.0 in
              let (here, standing, fits) =
                check_option-Standing mode confirm o value v (good ∙ ap accept named.1) in
              (o, rw (← key) found, here, rw (← named.0) standing, fits)
        ]
      ]
    ]
  where
    unpack : {a b : Text} {w x : Option Text} → SameOutcome (a, w) (b, x) → (a ≡ b) × (w ≡ x)
    unpack q = (cc q, cc q)

validate_from-IsAllowed :
    (mode : Text) (confirm : List Text) (options checked d : Dict (Option Text))
    → All (IsAllowed mode confirm) checked
    → validate_from mode confirm checked options ≡ accept d
    → All (IsAllowed mode confirm) d
unfolding validate_from
validate_from-IsAllowed mode confirm [] checked d h e =
    let same : checked ≡ d = cc e in rw (← same) h
validate_from-IsAllowed mode confirm ((raw, value) ∷ options) checked d h e =
    elim (Outcome-cases (check_entry mode confirm raw value)) [
      | inl (r, refused) ↦ absurd (cc (rw (refused, validate_from) at e))
      | inr ((name, v), good) ↦
          validate_from-IsAllowed mode confirm options (Dict.put checked name v) d
            (Dict.put-All (IsAllowed mode confirm) checked name v h
              (check_entry-IsAllowed mode confirm raw name value v good))
            (rw (good, validate_from) at e)
    ]

pub validate-accept :
    (mode : Text) (confirm : List Text) (options d : Dict (Option Text))
    → validate mode confirm options ≡ accept d
    → (validate_from mode confirm [] options ≡ accept d) × (is_window_empty d ≡ false)
unfolding validate
validate-accept mode confirm options d e =
    elim (Outcome-cases (validate_from mode confirm [] options)) [
      | inl (r, refused) ↦ absurd (cc (rw (refused, validate) at e))
      | inr (c, good) ↦ after c good (Bool-cases (is_window_empty c)) (rw (good, validate) at e)
    ]
  where
    after :
        (c : Dict (Option Text))
        → validate_from mode confirm [] options ≡ accept c
        → (is_window_empty c ≡ true) ⊎ (is_window_empty c ≡ false)
        → (if is_window_empty c then refuse dialect_window_empty else accept c) ≡ accept d
        → (validate_from mode confirm [] options ≡ accept d) × (is_window_empty d ≡ false)
    after c good (inl empty) q = absurd (cc (rw empty at q))
    after c good (inr fine) q = let same : c ≡ d = cc (rw fine at q) in rw (← same) (good, fine)

-- Every option that `validate` returns is in the catalogue and applies to this kind of server; it is
-- not read only there; a risky one that is set is confirmed; and a value has the canonical form of
-- its kind.
pub validate-IsAllowed :
    (mode : Text) (confirm : List Text) (options d : Dict (Option Text))
    → validate mode confirm options ≡ accept d
    → All (IsAllowed mode confirm) d
validate-IsAllowed mode confirm options d e =
    validate_from-IsAllowed mode confirm options [] d tt
      (validate-accept mode confirm options d e).0
