-- ===== src/Srv/GlobalConf/Live/Reported.antt =====
-- What the list of live values reports under a name: its first row with that name.
use samfscon.Prelude.{
  true, false, Option, none, some, List, [], ◌∷◌, ◌≡◌, ◌≢◌, ◌⊎◌, ◌↔◌, inl, inr, refl, ap, ◌∙◌,
  Bool-cases,
}
use mathlib.Core.Option.{some-injective}
use samfscon.Prelude.Text.{Text, eq_text, eq_text_iff, texts_differ}
use samfscon.Srv.GlobalConf.Live.{LiveValue, find_value, is_value}

-- A row is the first one with a name.
abbrev pub IsFirst : List LiveValue → Text → LiveValue → Type 0
IsFirst [] name r = ⊥
IsFirst (v ∷ live) name r =
    ((v.option ≡ name) × (v ≡ r)) ⊎ ((v.option ≢ name) × IsFirst live name r)

-- No row has a name, or the first one that has it could not be read.
abbrev pub IsUnread : List LiveValue → Text → Type 0
IsUnread [] name = Unit
IsUnread (v ∷ live) name =
    ((v.option ≡ name) × (v.readable ≡ false)) ⊎ ((v.option ≢ name) × IsUnread live name)

module _ (name : Text) where
  find_value-here :
      (v : LiveValue) (live : List LiveValue)
      → v.option ≡ name
      → find_value (v ∷ live) name ≡ some v
  unfolding find_value
  find_value-here v live e = rw ((eq_text_iff v.option name).1 e) refl

  find_value-later :
      (v : LiveValue) (live : List LiveValue)
      → eq_text v.option name ≡ false
      → find_value (v ∷ live) name ≡ find_value live name
  unfolding find_value
  find_value-later v live e = rw e refl

  pub find_value-IsFirst :
      (live : List LiveValue) (r : LiveValue) → find_value live name ≡ some r → IsFirst live name r
  find_value-IsFirst [] r e = unfold find_value in absurd (cc e)
  find_value-IsFirst (v ∷ live) r e = elim (Bool-cases (eq_text v.option name)) [
    | inl same ↦
        let named = (eq_text_iff v.option name).0 same in
        inl (named, some-injective _ _ (rw (find_value-here v live named) at e))
    | inr other ↦ inr (
      texts_differ v.option name other,
      find_value-IsFirst live r (rw (find_value-later v live other) at e),
    )
  ]

  pub IsFirst-find_value :
      (live : List LiveValue) (r : LiveValue) → IsFirst live name r → find_value live name ≡ some r
  IsFirst-find_value [] r h = absurd h
  IsFirst-find_value (v ∷ live) r (inl (named, same)) = rw (← same) (find_value-here v live named)
  IsFirst-find_value (v ∷ live) r (inr (other, h)) = elim (Bool-cases (eq_text v.option name)) [
    | inl same ↦ absurd (other ((eq_text_iff v.option name).0 same))
    | inr differs ↦ rw (find_value-later v live differs) (IsFirst-find_value live r h)
  ]

  pub IsUnread-none : (live : List LiveValue) → find_value live name ≡ none → IsUnread live name
  IsUnread-none [] e = tt
  IsUnread-none (v ∷ live) e = elim (Bool-cases (eq_text v.option name)) [
    | inl same ↦ absurd (cc (e, find_value-here v live ((eq_text_iff v.option name).0 same)))
    | inr other ↦ inr (
      texts_differ v.option name other,
      IsUnread-none live (rw (find_value-later v live other) at e),
    )
  ]

  pub IsUnread-first :
      (live : List LiveValue) (r : LiveValue)
      → IsFirst live name r
      → r.readable ≡ false
      → IsUnread live name
  IsUnread-first [] r h e = absurd h
  IsUnread-first (v ∷ live) r (inl (named, same)) e = inl (named, ap (λ x. x.readable) same ∙ e)
  IsUnread-first (v ∷ live) r (inr (other, h)) e = inr (other, IsUnread-first live r h e)

pub is_value_iff :
    (seen : Option Text) (value : Text) → (is_value seen value ≡ true) ↔ (seen ≡ some value)
unfolding is_value
is_value_iff none value = (λ e. absurd (cc e), λ e. absurd (cc e))
is_value_iff (some v) value =
    (λ e. ap some ((eq_text_iff v value).0 e), λ e. (eq_text_iff v value).1 (some-injective _ _ e))

pub is_value_ne :
    (seen : Option Text) (value : Text) → is_value seen value ≡ false → seen ≢ some value
is_value_ne seen value e same = cc (e, (is_value_iff seen value).1 same)
