-- ===== src/Srv/Acl/Meaning/Presets.antt =====
-- The levels of permission, by name and by mask.
use samfscon.Prelude.{
  ℕ, none, some, [], ◌∷◌, ◌==◌, ◌≡◌, ◌↔◌, refl, sym, ap, arith, Bool-cases, inl, inr, ==_iff,
}
use samfscon.Prelude.Text.{Text, eq_text, eq_text_iff}
use samfscon.Prelude.Dict
use samfscon.Prelude.Dict.{Dict, IsDict}
use samfscon.Srv.Acl.Masks.{presets}
use samfscon.Srv.Acl.Meaning.{preset_mask, find_preset, preset_of}

-- No two names have one mask.
HaveDistinctMasks : Dict ℕ → Type 0
HaveDistinctMasks [] = Unit
HaveDistinctMasks ((name, value) ∷ rest) = (find_preset rest value ≡ none) × HaveDistinctMasks rest

find_preset-get :
    (table : Dict ℕ) (name : Text) (mask : ℕ)
    → IsDict table
    → HaveDistinctMasks table
    → (Dict.get table name ≡ some mask) ↔ (find_preset table mask ≡ some name)
unfolding HaveDistinctMasks find_preset Dict.get
find_preset-get [] name mask d u = (λ e. absurd (cc e), λ e. absurd (cc e))
find_preset-get ((n, v) ∷ rest) name mask d u =
    let name_iff = eq_text_iff n name in
    let mask_iff = ==_iff mask v in
    let (there, back) = find_preset-get rest name mask d.1 u.1 in
    elim (Bool-cases (eq_text n name)) [
      | inl same ↦ elim (Bool-cases (mask == v)) [
        | inl equal ↦ (
          λ h. rw equal (ap some (name_iff.0 same)),
          λ h. rw same (ap some (sym (mask_iff.0 equal))),
        )
        | inr differs ↦ (
          λ h. ground arith,
          λ h. let absent : Dict.get rest name ≡ none = rw (← name_iff.0 same) d.0 in ground arith,
        )
      ]
      | inr other ↦ elim (Bool-cases (mask == v)) [
        | inl equal ↦ (
          λ h.
              let absent : find_preset rest mask ≡ none = rw (mask_iff.0 equal) u.0 in ground arith,
          λ h. ground arith,
        )
        | inr differs ↦ rw (other, differs) (there, back)
      ]
    ]

-- A level of permission that is asked for by name is shown under that name, and the name that is
-- shown for a mask stands for that mask.
pub preset_of-preset_mask :
    (name : Text) (mask : ℕ) → (preset_mask name ≡ some mask) ↔ (preset_of mask ≡ some name)
unfolding preset_mask preset_of HaveDistinctMasks find_preset Dict.get eq_text
preset_of-preset_mask name mask =
    find_preset-get presets name mask (refl, (refl, (refl, (refl, (refl, tt)))))
      (refl, (refl, (refl, (refl, (refl, tt)))))
