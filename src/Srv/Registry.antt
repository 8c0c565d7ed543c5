-- ===== src/Srv/Registry.antt =====
-- `write_options`, `_enumerate_values` and `normalise_option` of backend/samfscon/srv/registry.py. The
-- key of a section is a parameter, with the calls that enumerate, set and delete its values; a value
-- comes decoded, and the build has a buffer for names.
pub mod Walk
pub mod Changes
pub mod Refinement
mod Tests
use samfscon.Prelude.{
  ℕ, zero, suc, ◌+◌, Bool, true, false, Option, none, some, List, [], ◌∷◌, ◌⊎◌, inl, inr, ◌≡◌,
  if◌then◌else◌,
}
use samfscon.Prelude.Text.{Text, codes, eq_text, strip, lower}
use samfscon.Prelude.Dict
use samfscon.Prelude.Dict.{Dict}
use samfscon.Srv.ShareConf.Validate.{spaces_for_underscores}

-- `normalise_option`
pub normalise_option : Text → Text
normalise_option name = spaces_for_underscores (lower (strip name))

-- One value of a map of options replaced: set, or removed.
abbrev pub assign : (Text → Option Text) → Text → Option Text → Text → Option Text
assign f name asked k = if eq_text name k then asked else f k

-- What one call of `EnumValue` comes to, in the form that the build accepts: the end of the walk,
-- another exception, a value without a name, or a value.
pub data Answer : Type 0 where
  walk_end unreadable unnamed : Answer
  value : Text → Text → Answer

-- The loop of `_enumerate_values` from an index, for a number of indices.
pub values_from : (ℕ → Answer) → ℕ → ℕ → List (Text × Text)
values_from answers zero index = []
values_from answers (suc n) index = elim (answers index) [
  | walk_end ↦ []
  | unreadable ↦ []
  | unnamed ↦ values_from answers n (index + 1)
  | value name text ↦ (name, text) ∷ values_from answers n (index + 1)
]

-- `_enumerate_values`: the indices from 0 to 4096.
pub enumerate_values : (ℕ → Answer) → List (Text × Text)
unfolding values_from
enumerate_values answers = values_from answers 4097 0

-- `dict(...)` of a list of entries, after some entries: of two with one name the later counts.
pub dict_after : Dict Text → List (Text × Text) → Dict Text
dict_after m [] = m
dict_after m ((name, text) ∷ entries) = dict_after (Dict.put m name text) entries

-- A key of the registry: the values that it holds, under their names in small letters, the answers of
-- the walk over them, and the two calls that change it, which may fail. What the calls do, and
-- nothing else, is in the laws: the registry does not tell names apart by case, and a value that the
-- walk gives is one that the key holds. The walk need not give them all.
pub record Key (S E : Type 0) : Type 0 where
  pub values : S → Text → Option Text
  pub enum_value : S → ℕ → Answer
  pub set_value : S → Text → Text → E ⊎ S
  pub delete_value : S → Text → E ⊎ S
  pub enum_value_lem :
      (s : S) (i : ℕ) (name text : Text)
      → enum_value s i ≡ value name text
      → values s (lower name) ≡ some text
  pub set_value_lem :
      (s t : S) (name text : Text)
      → set_value s name text ≡ inr t
      → (k : Text) → values t k ≡ assign (values s) (lower name) (some text) k
  pub delete_value_lem :
      (s t : S) (name : Text)
      → delete_value s name ≡ inr t
      → (k : Text) → values t k ≡ assign (values s) (lower name) none k

-- An entry of what was applied
pub record Change : Type 0 where
  pub old : Option Text
  pub new : Option Text

-- What becomes of one option: it is left alone, it is changed, or the call fails.
pub data Acted (S E : Type 0) : Type 0 where
  left : Acted S E
  changed : S → Acted S E
  broken : E → Acted S E

pub acted_of : {S E : Type 0} → E ⊎ S → Acted S E
acted_of (inl e) = broken e
acted_of (inr s) = changed s

-- `write_options` returns what it applied, or raises and leaves what it had changed before.
pub data Written (S E : Type 0) : Type 0 where
  applied : S → Dict Change → Written S E
  failed : S → E → Written S E

module _ {S E : Type 0} (key : Key S E) where
  -- One turn of the loop, for the value that was read before it.
  pub act : S → Text → Option Text → Option Text → Acted S E
  unfolding acted_of
  act s option none none = left
  act s option (some old) none = acted_of (key.delete_value s option)
  act s option none (some text) = acted_of (key.set_value s option text)
  act s option (some old) (some text) =
      if eq_text old text then left else acted_of (key.set_value s option text)

  pub write_from : Dict Text → S → Dict Change → Dict (Option Text) → Written S E
  unfolding act normalise_option
  write_from current s changes [] = applied s changes
  write_from current s changes ((name, asked) ∷ options) =
      let option = normalise_option name in
      elim (act s option (Dict.get current option) asked) [
        | left ↦ write_from current s changes options
        | changed t ↦
            write_from current t
              (Dict.put changes option (record { old = Dict.get current option; new = asked }))
              options
        | broken e ↦ failed s e
      ]

  -- `dict(_enumerate_values(pipe, key))`
  pub current_values : S → Dict Text
  unfolding enumerate_values dict_after
  current_values s = dict_after [] (enumerate_values (key.enum_value s))

  -- `write_options`, once the key is open
  pub write_options : S → Dict (Option Text) → Written S E
  unfolding write_from current_values
  write_options s options = write_from (current_values s) s [] options
