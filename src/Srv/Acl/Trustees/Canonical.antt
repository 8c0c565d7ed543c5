-- ===== src/Srv/Acl/Trustees/Canonical.antt =====
-- What `canonical_sid` answers.
use samfscon.Prelude.{
  true, Option, none, some, ◌≡◌, refl, arith, All, Bool-cases, Option-cases, inl, inr,
}
use samfscon.Prelude.Text.{Text, codes, strip, upper, starts_with}
use samfscon.Prelude.Dict
use samfscon.Srv.Acl.Trustees.{sddl_aliases, sid_of, canonical_sid}

abbrev IsSid : Text → Type 0
IsSid s = starts_with (codes "S-") (upper s) ≡ true

abbrev AliasIsSid : Text × Option Text → Type 0
AliasIsSid (alias, none) = Unit
AliasIsSid (alias, some sid) = IsSid sid

sddl_aliases-IsSid : All AliasIsSid sddl_aliases
unfolding upper starts_with
sddl_aliases-IsSid = (
  refl,
  (
    refl,
    (
      refl,
      (
        refl,
        (
          refl,
          (
            refl,
            (
              refl,
              (
                refl,
                (
                  refl,
                  (refl, (refl, (refl, (refl, (refl, (refl, (refl, (tt, (tt, (tt, tt)))))))))),
                ),
              ),
            ),
          ),
        ),
      ),
    ),
  ),
)

-- What `canonical_sid` answers is the text of a SID, never an alias: it starts with `S-`, in either
-- case.
pub canonical_sid-IsSid :
    (trustee sid : Text)
    → canonical_sid trustee ≡ some sid
    → starts_with (codes "S-") (upper sid) ≡ true
unfolding canonical_sid
canonical_sid-IsSid trustee sid e =
    elim (Bool-cases (starts_with (codes "S-") (upper (strip trustee)))) [
      | inl yes_it_is ↦ let it : strip trustee ≡ sid = ground arith in rw (← it) yes_it_is
      | inr other ↦ elim (Option-cases (Dict.get sddl_aliases (upper (strip trustee)))) [
        | inl unknown ↦ absurd (cc (rw (other, canonical_sid, unknown, sid_of) at e))
        | inr (none, found) ↦ absurd (cc (rw (other, canonical_sid, found, sid_of) at e))
        | inr (some s, found) ↦
            let it : s ≡ sid = cc (rw (other, canonical_sid, found, sid_of) at e) in
            rw (← it) (
              Dict.get-All AliasIsSid sddl_aliases (upper (strip trustee)) (some s)
                sddl_aliases-IsSid found)
      ]
    ]
