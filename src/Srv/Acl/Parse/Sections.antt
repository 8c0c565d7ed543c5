-- ===== src/Srv/Acl/Parse/Sections.antt =====
-- What `parse` finds of the owner, the group and the controls in a text that `build` writes.
use samfscon.Prelude.{
  Bool, true, false, Option, none, some, [], ◌∷◌, ◌++◌, ◌==◌, ◌≡◌, refl, ap, ◌∙◌, if◌then◌else◌,
  All, arith, append-nil, append_assoc, sym,
}
use samfscon.Prelude.Text.{
  Text, codes, is_space, is_empty, is_within, ends_with, rstrip_if, starts_with,
}
use samfscon.Srv.Acl.Rights.RoundTrip.{IsPlain}
use samfscon.Srv.Acl.Entry.{section_for}
use samfscon.Srv.Acl.Parse.{
  find_mark, search_field, first_found, owner_of, group_of, after_owner, after_group, is_protected,
}
use samfscon.Srv.Acl.Parse.Marks.{
  NoColon, find_mark-skip, search_field-skip, within-skip, field-end, search_field-none,
  find_mark-past, search_field-past, within-past, rstrip_if-last, ends_with-last,
}

-- An owner or a group: absent, or a text without marks and white space.
abbrev pub IsNamed : Option Text → Type 0
IsNamed none = Unit
IsNamed (some []) = ⊥
IsNamed (some (c ∷ s)) = All IsPlain (c ∷ s)

pub plain-NoColon : (s : Text) → All IsPlain s → NoColon s
plain-NoColon [] h = tt
plain-NoColon (c ∷ s) h = let plain = h.0.0 in (ground arith, plain-NoColon s h.1)

plain_one_line : (s : Text) → All IsPlain s → All (λ d. d == 10 ≡ false) s
unfolding is_space
plain_one_line [] h = tt
plain_one_line (c ∷ s) h = let plain = h.0.1 in (ground arith, plain_one_line s h.1)

abbrev owner_section : Option Text → Text
owner_section o = section_for (codes "O:") o

abbrev group_section : Option Text → Text
group_section g = section_for (codes "G:") g

module _ (z : Text) (hz : NoColon z) where
  no_owner_after :
      (g : Option Text)
      → IsNamed g
      → search_field b'O' after_owner (group_section g ++ (codes "D:" ++ z)) ≡ none
  unfolding section_for is_empty
  no_owner_after none h = search_field-past b'O' b'D' refl refl _ z ∙ search_field-none b'O' _ z hz
  no_owner_after (some []) h = absurd h
  no_owner_after (some (c ∷ s)) h =
      search_field-past b'O' b'G' refl refl _ ((c ∷ s) ++ (codes "D:" ++ z))
      ∙ search_field-skip b'O' b'D' refl (b':' ∷ z) _ (c ∷ s) (plain-NoColon (c ∷ s) h)
      ∙ search_field-past b'O' b'D' refl refl _ z
      ∙ search_field-none b'O' _ z hz

  pub owner_of-sections :
      (o g : Option Text)
      → IsNamed o
      → IsNamed g
      → owner_of (owner_section o ++ (group_section g ++ (codes "D:" ++ z))) ≡ o
  unfolding section_for is_empty owner_of search_field first_found
  owner_of-sections none g ho hg = no_owner_after g hg
  owner_of-sections (some []) g ho hg = absurd ho
  owner_of-sections (some (c ∷ s)) none ho hg =
      rw
        (field-end b'O' b'D' refl z after_owner c s refl (plain-NoColon (c ∷ s) ho)
          (plain_one_line (c ∷ s) ho))
        refl
  owner_of-sections (some (c ∷ s)) (some []) ho hg = absurd hg
  owner_of-sections (some (c ∷ s)) (some (d ∷ t)) ho hg =
      rw
        (field-end b'O' b'G' refl ((d ∷ t) ++ (codes "D:" ++ z)) after_owner c s refl
          (plain-NoColon (c ∷ s) ho) (plain_one_line (c ∷ s) ho))
        refl

  group_after :
      (g : Option Text)
      → IsNamed g
      → search_field b'G' after_group (group_section g ++ (codes "D:" ++ z)) ≡ g
  unfolding section_for is_empty search_field first_found
  group_after none h =
      search_field-past b'G' b'D' refl refl after_group z ∙ search_field-none b'G' after_group z hz
  group_after (some []) h = absurd h
  group_after (some (c ∷ s)) h =
      rw
        (field-end b'G' b'D' refl z after_group c s refl (plain-NoColon (c ∷ s) h)
          (plain_one_line (c ∷ s) h))
        refl

  pub group_of-sections :
      (o g : Option Text)
      → IsNamed o
      → IsNamed g
      → group_of (owner_section o ++ (group_section g ++ (codes "D:" ++ z))) ≡ g
  unfolding section_for is_empty group_of
  group_of-sections none g ho hg = group_after g hg
  group_of-sections (some []) g ho hg = absurd ho
  group_of-sections (some (c ∷ s)) none ho hg =
      search_field-past b'G' b'O' refl refl after_group ((c ∷ s) ++ (codes "D:" ++ z))
      ∙ search_field-skip b'G' b'D' refl (b':' ∷ z) after_group (c ∷ s) (plain-NoColon (c ∷ s) ho)
      ∙ group_after none hg
  group_of-sections (some (c ∷ s)) (some []) ho hg = absurd hg
  group_of-sections (some (c ∷ s)) (some (d ∷ t)) ho hg =
      let rest = (d ∷ t) ++ (codes "D:" ++ z) in
      search_field-past b'G' b'O' refl refl after_group ((c ∷ s) ++ (codes "G:" ++ rest))
      ∙ search_field-skip b'G' b'G' refl (b':' ∷ rest) after_group (c ∷ s)
          (plain-NoColon (c ∷ s) ho)
      ∙ group_after (some (d ∷ t)) hg

  find_after :
      (g : Option Text)
      → IsNamed g
      → find_mark b'D' (group_section g ++ (codes "D:" ++ z)) ≡ some (group_section g, z)
  unfolding section_for is_empty find_mark
  find_after none h = refl
  find_after (some []) h = absurd h
  find_after (some (d ∷ t)) h =
      find_mark-past b'D' b'G' refl refl ((d ∷ t) ++ (codes "D:" ++ z)) ((d ∷ t) ++ []) z
        (find_mark-skip b'D' b'D' refl (b':' ∷ z) (d ∷ t) (plain-NoColon (d ∷ t) h) [] z refl)
      ∙ ap (λ w. some (b'G' ∷ (b':' ∷ w), z)) (append-nil (d ∷ t))

  pub find_mark-sections :
      (o g : Option Text)
      → IsNamed o
      → IsNamed g
      → find_mark b'D' (owner_section o ++ (group_section g ++ (codes "D:" ++ z)))
        ≡ some (owner_section o ++ group_section g, z)
  unfolding section_for is_empty find_mark
  find_mark-sections none g ho hg = find_after g hg
  find_mark-sections (some []) g ho hg = absurd ho
  find_mark-sections (some (c ∷ s)) none ho hg =
      find_mark-past b'D' b'O' refl refl ((c ∷ s) ++ (codes "D:" ++ z)) ((c ∷ s) ++ []) z (
        find_mark-skip b'D' b'D' refl (b':' ∷ z) (c ∷ s) (plain-NoColon (c ∷ s) ho) [] z
          (find_after none hg))
  find_mark-sections (some (c ∷ s)) (some []) ho hg = absurd hg
  find_mark-sections (some (c ∷ s)) (some (d ∷ t)) ho hg =
      let rest = (d ∷ t) ++ (codes "D:" ++ z) in
      find_mark-past b'D' b'O' refl refl ((c ∷ s) ++ (codes "G:" ++ rest))
        ((c ∷ s) ++ (codes "G:" ++ (d ∷ t))) z
        (find_mark-skip b'D' b'G' refl (b':' ∷ rest) (c ∷ s) (plain-NoColon (c ∷ s) ho)
          (codes "G:" ++ (d ∷ t)) z (find_after (some (d ∷ t)) hg))

-- The controls behind `D:`
abbrev pub controls : Bool → Text
controls protected = if protected then codes "P" else []

module _ (t : Text) where
  within_group :
      (g : Option Text)
      → IsNamed g
      → is_within (codes "D:P") (group_section g ++ (b'D' ∷ t)) ≡ is_within (codes "D:P") (b'D' ∷ t)
  unfolding section_for is_empty
  within_group none h = refl
  within_group (some []) h = absurd h
  within_group (some (c ∷ s)) h =
      within-past b'G' ((c ∷ s) ++ (b'D' ∷ t)) refl
      ∙ within-skip b'D' b'D' refl t (c ∷ s) (plain-NoColon (c ∷ s) h)

  within_sections :
      (o g : Option Text)
      → IsNamed o
      → IsNamed g
      → is_within (codes "D:P") (owner_section o ++ (group_section g ++ (b'D' ∷ t)))
        ≡ is_within (codes "D:P") (b'D' ∷ t)
  unfolding section_for is_empty
  within_sections none g ho hg = within_group g hg
  within_sections (some []) g ho hg = absurd ho
  within_sections (some (c ∷ s)) none ho hg =
      within-past b'O' ((c ∷ s) ++ (b'D' ∷ t)) refl
      ∙ within-skip b'D' b'D' refl t (c ∷ s) (plain-NoColon (c ∷ s) ho)
  within_sections (some (c ∷ s)) (some []) ho hg = absurd hg
  within_sections (some (c ∷ s)) (some (d ∷ v)) ho hg =
      let rest = (d ∷ v) ++ (b'D' ∷ t) in
      within-past b'O' ((c ∷ s) ++ (codes "G:" ++ rest)) refl
      ∙ within-skip b'D' b'G' refl (b':' ∷ rest) (c ∷ s) (plain-NoColon (c ∷ s) ho)
      ∙ within_group (some (d ∷ v)) hg

pub is_protected-sections :
    (o g : Option Text) (protected : Bool)
    → IsNamed o
    → IsNamed g
    → is_protected ((owner_section o ++ group_section g) ++ (codes "D:" ++ controls protected))
      ≡ protected
unfolding is_protected is_within starts_with is_space
is_protected-sections o g true ho hg =
    rw (append_assoc (owner_section o) (group_section g) (codes "D:P"))
      (rw (within_sections (codes ":P") o g ho hg) refl)
is_protected-sections o g false ho hg =
    rw (no_mark (owner_section o) (group_section g) (within_sections (codes ":") o g ho hg))
      (rw (no_letter (owner_section o ++ group_section g)) refl)
  where
    no_mark :
        (v w : Text)
        → is_within (codes "D:P") (v ++ (w ++ codes "D:")) ≡ false
        → is_within (codes "D:P") ((v ++ w) ++ codes "D:") ≡ false
    no_mark v w h = ap (is_within (codes "D:P")) (append_assoc v w (codes "D:")) ∙ h

    no_letter : (w : Text) → ends_with b'P' (rstrip_if is_space (w ++ codes "D:")) ≡ false
    no_letter w =
        ap (λ u. ends_with b'P' (rstrip_if is_space u))
          (sym (append_assoc w (codes "D") (codes ":")))
        ∙ ap (ends_with b'P') (rstrip_if-last is_space (w ++ codes "D") b':' refl)
        ∙ ends_with-last (w ++ codes "D") b':' b'P'
