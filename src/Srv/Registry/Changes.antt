-- ===== src/Srv/Registry/Changes.antt =====
-- Maps of options and the changes that are asked of them.
use samfscon.Prelude.{
  ℕ, Bool, true, false, Option, none, some, List, [], ◌∷◌, inl, inr, ◌≡◌, refl, sym, ap, ◌∙◌,
  fun_ext, All, any, Bool-cases, if◌then◌else◌, ◌==◌, ◌||◌, arith,
}
use samfscon.Prelude.Text.{Text, eq_text, eq_text_iff, lower, to_lower, strip}
use samfscon.Prelude.Dict
use samfscon.Prelude.Dict.{Dict}
use samfscon.Srv.ShareConf.Validate.{spaces_for_underscores}
use samfscon.Srv.Registry.{normalise_option, assign, dict_after}

-- The map after a list of changes, by the normal names of the options.
abbrev pub assign_all : (Text → Option Text) → Dict (Option Text) → Text → Option Text
assign_all f [] = f
assign_all f ((name, asked) ∷ options) = assign_all (assign f (normalise_option name) asked) options

-- The walk over the values gave one with this name.
abbrev pub is_listed : List (Text × Text) → Text → Bool
is_listed entries name = any (λ (e : Text × Text). eq_text e.0 name) entries

-- The changes without the deletions of options that the walk did not give.
abbrev pub reached : List (Text × Text) → Dict (Option Text) → Dict (Option Text)
reached listing [] = []
reached listing ((name, some text) ∷ options) = (name, some text) ∷ reached listing options
reached listing ((name, none) ∷ options) =
    if is_listed listing (normalise_option name)
    then (name, none) ∷ reached listing options
    else reached listing options

-- No two of the names are the same option.
abbrev pub AreDistinct : Dict (Option Text) → Type 0
AreDistinct [] = Unit
AreDistinct ((name, asked) ∷ options) =
    All (λ (o : Text × Option Text). eq_text (normalise_option name) (normalise_option o.0) ≡ false)
      options
    × AreDistinct options

-- Replacing a value by itself
pub assign_same :
    (f : Text → Option Text) (name : Text) (asked : Option Text)
    → f name ≡ asked
    → assign f name asked ≡ f
assign_same f name asked e = fun_ext (λ k. elim (Bool-cases (eq_text name k)) [
  | inl same ↦ rw same (sym e ∙ ap f ((eq_text_iff name k).0 same))
  | inr other ↦ rw other refl
])

lower-letter :
    (c : ℕ)
    → to_lower (if to_lower c == b'_' then 32 else to_lower c)
      ≡ (if to_lower c == b'_' then 32 else to_lower c)
unfolding to_lower
lower-letter c = ground arith

lower-spaces :
    (s : Text) → lower (spaces_for_underscores (lower s)) ≡ spaces_for_underscores (lower s)
unfolding lower spaces_for_underscores
lower-spaces [] = refl
lower-spaces (c ∷ s) = cc (lower-letter c, lower-spaces s)

-- The name of an option is in small letters.
pub lower-normalise_option : (name : Text) → lower (normalise_option name) ≡ normalise_option name
unfolding normalise_option
lower-normalise_option name = lower-spaces (strip name)

-- What a change does to the values, given what the walk gave for its option.
abbrev pub effect : (Text → Option Text) → Option Text → Text → Option Text → Text → Option Text
effect f none name none = f
effect f none name (some text) = assign f name (some text)
effect f (some old) name none = assign f name none
effect f (some old) name (some text) = assign f name (some text)

abbrev pub is_there : Option Text → Bool
is_there none = false
is_there (some old) = true

pub is_there-dict_after :
    (m : Dict Text) (entries : List (Text × Text)) (k : Text)
    → is_there (Dict.get (dict_after m entries) k)
      ≡ (is_there (Dict.get m k) || is_listed entries k)
unfolding dict_after
is_there-dict_after m [] k = ground arith
is_there-dict_after m ((name, text) ∷ entries) k =
    is_there-dict_after (Dict.put m name text) entries k ∙ rw Dict.get-put (ground arith)

pub assign_all-reached :
    (f : Text → Option Text) (listing : List (Text × Text)) (old : Option Text) (name : Text)
    (asked : Option Text) (options : Dict (Option Text))
    → is_there old ≡ is_listed listing (normalise_option name)
    → assign_all f (reached listing ((name, asked) ∷ options))
      ≡ assign_all (effect f old (normalise_option name) asked) (reached listing options)
assign_all-reached f listing none name none options e = rw (← e) refl
assign_all-reached f listing (some old) name none options e = rw (← e) refl
assign_all-reached f listing none name (some text) options e = refl
assign_all-reached f listing (some old) name (some text) options e = refl
