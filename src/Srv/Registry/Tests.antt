-- ===== src/Srv/Registry/Tests.antt =====
-- A key that is a dictionary, whose walk leaves out what is behind a value that cannot be read.
use samfscon.Prelude.{
  ℕ, zero, suc, Bool, true, false, Option, none, some, [], ◌∷◌, ◌⊎◌, ◌↔◌, inl, inr, ◌≡◌, refl, ap,
  sym, ◌∙◌, if◌then◌else◌, Bool-cases,
}
use mathlib.Core.List.{Memᴰ}
use samfscon.Prelude.Text.{Text, codes, eq_text, eq_text_iff, strip, lower, is_space, to_lower}
use samfscon.Prelude.Dict
use samfscon.Prelude.Dict.{Dict}
use samfscon.Srv.ShareConf.Validate.{spaces_for_underscores}
use samfscon.Srv.Registry.{
  Answer, walk_end, unreadable, value, Key, Change, applied, values_from, enumerate_values,
  dict_after, current_values, write_options, write_from, act, acted_of, normalise_option,
}
use samfscon.Srv.Registry.Walk.{IsAnswer}
use samfscon.Srv.Registry.Changes.{assign_all, reached}
use samfscon.Srv.Registry.Refinement.{write_options-refines}

-- The answer to a call that succeeds
abbrev stored : Dict Text → Text ⊎ Dict Text
stored s = inr s

abbrev is_text : Option Text → Text → Bool
is_text none text = false
is_text (some held) text = eq_text held text

abbrev entry_at : Dict Text → ℕ → Option (Text × Text)
entry_at [] i = none
entry_at (e ∷ m) zero = some e
entry_at (e ∷ m) (suc i) = entry_at m i

-- An entry that is not in small letters, or that is not what is looked up, cannot be read.
abbrev answer_of : Dict Text → Option (Text × Text) → Answer
answer_of s none = walk_end
answer_of s (some (name, text)) =
    if is_text (Dict.get s (lower name)) text then value name text else unreadable

name_of : Answer → Text × Text
name_of (value name text) = (name, text)
name_of _ = ([], [])

is_text-some : (held : Option Text) (text : Text) → is_text held text ≡ true → held ≡ some text
is_text-some none text e = absurd (cc e)
is_text-some (some held) text e = ap some ((eq_text_iff held text).0 e)

answer_of-held :
    (s : Dict Text) (e : Option (Text × Text)) (name text : Text)
    → answer_of s e ≡ value name text
    → Dict.get s (lower name) ≡ some text
unfolding name_of
answer_of-held s none name text h = absurd (cc h)
answer_of-held s (some (n, t)) name text h = elim (Bool-cases (is_text (Dict.get s (lower n)) t)) [
  | inl held ↦
      let same : value n t ≡ value name text = rw held at h in
      let names : n ≡ name = ap (λ a. (name_of a).0) same in
      let texts : t ≡ text = ap (λ a. (name_of a).1) same in
      rw (← names) (rw (← texts) (is_text-some (Dict.get s (lower n)) t held))
  | inr other ↦ absurd (cc (rw other at h))
]

put_is :
    (s t : Dict Text) (name text : Text)
    → stored (Dict.put s name text) ≡ inr t
    → t ≡ Dict.put s name text
put_is s t name text h = sym (cc h)

remove_is :
    (s t : Dict Text) (name : Text) → stored (Dict.remove s name) ≡ inr t → t ≡ Dict.remove s name
remove_is s t name h = sym (cc h)

abbrev dictionary : Key (Dict Text) Text
dictionary = record {
  values = Dict.get;
  enum_value = λ s i. answer_of s (entry_at s i);
  set_value = λ s name text. inr (Dict.put s (lower name) text);
  delete_value = λ s name. inr (Dict.remove s (lower name));
  enum_value_lem = λ s i name text h. answer_of-held s (entry_at s i) name text h;
  set_value_lem = λ s t name text h k.
      ap (λ m. Dict.get m k) (put_is s t (lower name) text h) ∙ Dict.get-put s (lower name) k text;
  delete_value_lem = λ s t name h k.
      ap (λ m. Dict.get m k) (remove_is s t (lower name) h) ∙ Dict.get-remove s (lower name) k;
}

-- The second entry cannot be looked up, so that the walk stops there.
abbrev before : Dict Text
before =
    (codes "comment", codes "old")
    ∷ (codes "Guest OK", codes "no")
    ∷ (codes "browseable", codes "no")
    ∷ []

abbrev changes : Dict (Option Text)
changes = (codes "Browseable", none) ∷ (codes "comment", some (codes "new")) ∷ []

-- The deletion is passed over.
abbrev after : Dict Text
after =
    (codes "comment", codes "new")
    ∷ (codes "Guest OK", codes "no")
    ∷ (codes "browseable", codes "no")
    ∷ []

abbrev report : Dict Change
report = (codes "comment", record { old = some (codes "old"); new = some (codes "new") }) ∷ []

writes : write_options dictionary before changes ≡ applied after report
unfolding write_options write_from current_values enumerate_values values_from dict_after act
    acted_of normalise_option spaces_for_underscores Dict.get Dict.put Dict.remove eq_text strip
    lower to_lower is_space
writes = refl

abbrev comment : Text × Text
comment = (codes "comment", codes "old")

write_options-refines_example :
    (Dict.get after
      ≡ assign_all
          (Dict.get before)
          (reached (enumerate_values (dictionary.enum_value before)) changes))
    × (Memᴰ comment (enumerate_values (dictionary.enum_value before))
        ↔ IsAnswer (dictionary.enum_value before) comment)
unfolding normalise_option eq_text strip lower to_lower is_space spaces_for_underscores
write_options-refines_example =
    write_options-refines dictionary before after report changes comment ((refl, tt), (tt, tt))
      writes
