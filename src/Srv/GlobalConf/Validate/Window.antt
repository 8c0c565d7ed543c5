-- ===== src/Srv/GlobalConf/Validate/Window.antt =====
-- The window of dialects that `validate` lets through.
use samfscon.Prelude.{
  ℕ, ◌≤◌, true, false, Option, none, some, List, [], ◌∷◌, ◌≡◌, refl, ap, sym, any, Bool-cases, inl,
  inr, ltb→le, All,
}
use samfscon.Prelude.Text.{Text, eq_text, eq_text_iff, upper, strip}
use samfscon.Prelude.Dict
use samfscon.Prelude.Dict.{Dict}
use samfscon.Srv.ShareConf.Types.{OptionType, choice}
use samfscon.Srv.GlobalConf.Types.{GlobalOption, dialects}
use samfscon.Srv.GlobalConf.Catalogue.{by_name}
use samfscon.Srv.GlobalConf.Dialect.{
  dialect_index, is_before, is_window_empty, min_protocol, max_protocol, given,
}
use samfscon.Srv.GlobalConf.Validate.{accept, validate}
use samfscon.Srv.GlobalConf.Validate.Allowed.{IsAllowed, validate-IsAllowed, validate-accept}

abbrev pub HasIndex : Text → Type 0
HasIndex r = (i : ℕ) × (dialect_index r ≡ some i)

dialects-HasIndex : All HasIndex dialects
unfolding dialect_index eq_text upper strip
dialects-HasIndex = ((0, refl), ((1, refl), ((2, refl), ((3, refl), ((4, refl), ((5, refl), tt))))))

any-All :
    (P : Text → Type 0) (cs : List Text) (r : Text)
    → All P cs
    → any (λ c. eq_text c r) cs ≡ true
    → P r
any-All P [] r h e = absurd (cc e)
any-All P (c ∷ cs) r h e = elim (Bool-cases (eq_text c r)) [
  | inl same ↦ rw (← (eq_text_iff c r).0 same) h.0
  | inr other ↦ any-All P cs r h.1 (rw other at e)
]

abbrev pub TakesDialects : Text → Type 0
TakesDialects name =
    (o : GlobalOption) → by_name name ≡ some o → (o.type ≡ choice) × (o.choices ≡ dialects)

abbrev type_of : Option GlobalOption → OptionType
type_of none = choice
type_of (some o) = o.type

abbrev choices_of : Option GlobalOption → List Text
choices_of none = []
choices_of (some o) = o.choices

min_protocol-TakesDialects : TakesDialects min_protocol
unfolding by_name eq_text
min_protocol-TakesDialects o found = (sym (ap type_of found), sym (ap choices_of found))

pub max_protocol-TakesDialects : TakesDialects max_protocol
unfolding by_name eq_text
max_protocol-TakesDialects o found = (sym (ap type_of found), sym (ap choices_of found))

-- A value of an option that takes dialects has a place in their order.
pub allowed-HasIndex :
    (mode : Text) (confirm : List Text) (name r : Text)
    → TakesDialects name
    → IsAllowed mode confirm (name, some r)
    → HasIndex r
allowed-HasIndex mode confirm name r takes (o, found, here, standing, fits) =
    let (type, choices) = takes o found in
    any-All HasIndex dialects r dialects-HasIndex (rw (type, choices) at fits)

window_open :
    (d : Dict (Option Text)) (low high : Text) (i j : ℕ)
    → is_window_empty d ≡ false
    → Dict.get d min_protocol ≡ some (some low)
    → Dict.get d max_protocol ≡ some (some high)
    → dialect_index low ≡ some i
    → dialect_index high ≡ some j
    → i ≤ j
unfolding is_window_empty given is_before
window_open d low high i j h a b p q =
    let before : is_before (dialect_index high) (dialect_index low) ≡ false =
      rw (is_window_empty, a, given, b, given) at h in
    ltb→le j i (rw (p, q) at before)

-- If `validate` returns both a minimum and a maximum protocol, both are dialects with a place in the
-- order, and the minimum does not come after the maximum.
pub validate-window :
    (mode : Text) (confirm : List Text) (options d : Dict (Option Text)) (low high : Text)
    → validate mode confirm options ≡ accept d
    → Dict.get d min_protocol ≡ some (some low)
    → Dict.get d max_protocol ≡ some (some high)
    → (i : ℕ) × (j : ℕ) × (dialect_index low ≡ some i) × (dialect_index high ≡ some j) × (i ≤ j)
validate-window mode confirm options d low high e a b =
    let allowed = validate-IsAllowed mode confirm options d e in
    let (i, p) =
      allowed-HasIndex mode confirm min_protocol low min_protocol-TakesDialects
        (Dict.get-All (IsAllowed mode confirm) d min_protocol (some low) allowed a) in
    let (j, q) =
      allowed-HasIndex mode confirm max_protocol high max_protocol-TakesDialects
        (Dict.get-All (IsAllowed mode confirm) d max_protocol (some high) allowed b) in
    (i, j, p, q, window_open d low high i j (validate-accept mode confirm options d e).1 a b p q)
