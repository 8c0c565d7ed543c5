-- ===== src/Srv/GlobalConf/Dialect.antt =====
-- The dialects of SMB in backend/samfscon/srv/globalconf.py: `dialect_index`, the check of the
-- window and the floor of the console.
use samfscon.Prelude.{
  ℕ, zero, suc, Bool, false, Option, none, some, List, [], ◌∷◌, ltb, if◌then◌else◌,
}
use samfscon.Prelude.Text.{Text, codes, eq_text, strip, upper}
use samfscon.Prelude.Dict
use samfscon.Prelude.Dict.{Dict}
use samfscon.Srv.GlobalConf.Types.{dialects, dialect_aliases}

-- `values.index(name)`
pub index_of : List Text → Text → Option ℕ
index_of [] name = none
index_of (d ∷ ds) name =
    let rest = index_of ds name in
    if eq_text d name then some zero else elim rest [ none ↦ none | some i ↦ some (suc i) ]

-- `DIALECT_ALIASES.get(name, name)`
pub resolve_alias : Text → Text
unfolding Dict.get
resolve_alias name = elim (Dict.get dialect_aliases name) [ none ↦ name | some d ↦ d ]

unfoldable pub dialect_index : Text → Option ℕ
unfolding resolve_alias index_of
dialect_index value = index_of dialects (resolve_alias (upper (strip value)))

-- Whether the first of two places comes before the second; `false` if either is not known.
unfoldable pub is_before : Option ℕ → Option ℕ → Bool
is_before (some i) (some j) = ltb i j
is_before _ _ = false

abbrev pub min_protocol : Text
min_protocol = codes "server min protocol"

abbrev pub max_protocol : Text
max_protocol = codes "server max protocol"

-- The text of a setting, if it is there and is not a deletion.
unfoldable pub given : Option (Option Text) → Option Text
given none = none
given (some value) = value

-- Whether `_check_dialect_window` refuses: both are given, both are known, and the maximum comes
-- before the minimum.
unfoldable pub is_window_empty : Dict (Option Text) → Bool
unfolding given is_before dialect_index
is_window_empty checked = elim (given (Dict.get checked min_protocol)) [
  | none ↦ false
  | some low ↦ elim (given (Dict.get checked max_protocol)) [
    | none ↦ false
    | some high ↦ is_before (dialect_index high) (dialect_index low)
  ]
]

-- Whether `check_console_floor` refuses.
unfoldable pub is_below_floor : Text → Text → Bool
unfolding is_before dialect_index
is_below_floor value console_min = is_before (dialect_index value) (dialect_index console_min)
