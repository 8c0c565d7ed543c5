-- ===== src/Srv/Registry/Refinement.antt =====
-- What `write_options` promises: the options of the key as a map, each one that is asked for replaced.
use samfscon.Prelude.{
  ℕ, zero, suc, ◌+◌, false, Option, none, some, List, [], ◌∷◌, ◌⊎◌, ◌↔◌, inl, inr, ◌≡◌, refl, sym,
  ap, ◌∙◌, subst, fun_ext, All, Bool-cases,
}
use mathlib.Core.List.{Memᴰ}
use samfscon.Prelude.Text.{Text, eq_text, eq_text_iff, lower}
use samfscon.Prelude.Dict
use samfscon.Prelude.Dict.{Dict}
use samfscon.Srv.Registry.{
  normalise_option, assign, Answer, walk_end, unreadable, unnamed, value, values_from,
  enumerate_values, dict_after, Key, Change, Acted, left, changed, broken, acted_of, applied,
  failed, act, write_from, current_values, write_options,
}
use samfscon.Srv.Registry.Changes.{
  assign_all, lower-normalise_option, effect, is_there, is_there-dict_after, assign_all-reached,
  assign_same, is_listed, reached, AreDistinct,
}
use samfscon.Srv.Registry.Walk.{IsAnswer, enumerate_values-IsAnswer}

module _ {S E : Type 0} (key : Key S E) where
  -- What an action leaves of the values.
  abbrev Follows : S → Option Text → Text → Option Text → Acted S E → Type 0
  Follows s old option asked left = effect (key.values s) old option asked ≡ key.values s
  Follows s old option asked (changed t) = key.values t ≡ effect (key.values s) old option asked
  Follows s old option asked (broken e) = Unit

  set-changes :
      (s t : S) (option text : Text)
      → lower option ≡ option
      → key.set_value s option text ≡ inr t
      → key.values t ≡ assign (key.values s) option (some text)
  set-changes s t option text small h =
      fun_ext (key.set_value_lem s t option text h)
      ∙ ap (λ n. assign (key.values s) n (some text)) small

  delete-changes :
      (s t : S) (option : Text)
      → lower option ≡ option
      → key.delete_value s option ≡ inr t
      → key.values t ≡ assign (key.values s) option none
  delete-changes s t option small h =
      fun_ext (key.delete_value_lem s t option h) ∙ ap (λ n. assign (key.values s) n none) small

  -- What was read of an option is what the key holds.
  abbrev Holds : Option Text → Option Text → Type 0
  Holds none held = Unit
  Holds (some old) held = held ≡ some old

  act-Follows :
      (s : S) (option : Text) (old asked : Option Text)
      → lower option ≡ option
      → Holds old (key.values s option)
      → Follows s old option asked (act key s option old asked)
  unfolding act acted_of
  act-Follows s option none none small h = refl
  act-Follows s option (some old) none small h = step (key.delete_value s option) refl
    where
      step :
          (r : E ⊎ S)
          → key.delete_value s option ≡ r
          → Follows s (some old) option none (acted_of r)
      step (inl e) q = tt
      step (inr t) q = delete-changes s t option small q
  act-Follows s option none (some text) small h = step (key.set_value s option text) refl
    where
      step :
          (r : E ⊎ S)
          → key.set_value s option text ≡ r
          → Follows s none option (some text) (acted_of r)
      step (inl e) q = tt
      step (inr t) q = set-changes s t option text small q
  act-Follows s option (some old) (some text) small h = elim (Bool-cases (eq_text old text)) [
    | inl same ↦ rw same (
        assign_same (key.values s) option (some text) (h ∙ ap some ((eq_text_iff old text).0 same)))
    | inr other ↦ rw other (step (key.set_value s option text) refl)
  ]
    where
      step :
          (r : E ⊎ S)
          → key.set_value s option text ≡ r
          → Follows s (some old) option (some text) (acted_of r)
      step (inl e) q = tt
      step (inr t) q = set-changes s t option text small q

  -- The values that were read at the start are still those of the options to come.
  abbrev IsFresh : Dict Text → S → Dict (Option Text) → Type 0
  IsFresh current s options =
      All
        (λ (o : Text × Option Text).
          Holds (Dict.get current (normalise_option o.0)) (key.values s (normalise_option o.0)))
        options

  effect_elsewhere :
      (f : Text → Option Text) (old asked : Option Text) (option k : Text)
      → eq_text option k ≡ false
      → effect f old option asked k ≡ f k
  effect_elsewhere f none none option k e = refl
  effect_elsewhere f none (some text) option k e = rw e refl
  effect_elsewhere f (some old) none option k e = rw e refl
  effect_elsewhere f (some old) (some text) option k e = rw e refl

  IsFresh-effect :
      (current : Dict Text) (s t : S) (option : Text) (old asked : Option Text)
      (options : Dict (Option Text))
      → key.values t ≡ effect (key.values s) old option asked
      → All (λ (o : Text × Option Text). eq_text option (normalise_option o.0) ≡ false) options
      → IsFresh current s options
      → IsFresh current t options
  IsFresh-effect current s t option old asked [] e d h = tt
  IsFresh-effect current s t option old asked (o ∷ options) e d h = (
    subst (Holds (Dict.get current (normalise_option o.0)))
        (sym (
          ap (λ f. f (normalise_option o.0)) e
          ∙ effect_elsewhere (key.values s) old asked option (normalise_option o.0) d.0))
        h.0,
    IsFresh-effect current s t option old asked options e d.1 h.1,
  )

  module _ (listing : List (Text × Text)) where
    abbrev read : Dict Text
    read = dict_after [] listing

    read-is_there : (k : Text) → is_there (Dict.get read k) ≡ is_listed listing k
    read-is_there k = is_there-dict_after [] listing k ∙ (unfold Dict.get in refl)

    write_from-refines :
        (s t : S) (before after : Dict Change) (options : Dict (Option Text))
        → AreDistinct options
        → IsFresh read s options
        → write_from key read s before options ≡ applied t after
        → key.values t ≡ assign_all (key.values s) (reached listing options)
    unfolding write_from
    write_from-refines s t before after [] d h e =
        let same : s ≡ t = cc e in ap key.values (sym same)
    write_from-refines s t before after ((name, asked) ∷ options) d h e =
        step (λ u b fresh k. write_from-refines u t b after options d.1 fresh k)
          (act key s option (Dict.get read option) asked)
          (act-Follows s option (Dict.get read option) asked (lower-normalise_option name) h.0) e
        ∙ sym (
            assign_all-reached (key.values s) listing (Dict.get read option) name asked options
              (read-is_there option))
      where
        option : Text
        option = normalise_option name

        step :
            ((u : S) (b : Dict Change)
              → IsFresh read u options
              → write_from key read u b options ≡ applied t after
              → key.values t ≡ assign_all (key.values u) (reached listing options))
            → (a : Acted S E) → Follows s (Dict.get read option) option asked a
            → elim a [
              | left ↦ write_from key read s before options
              | changed u ↦
                  write_from key read u
                    (Dict.put before option (record { old = Dict.get read option; new = asked }))
                    options
              | broken x ↦ failed s x
            ]
              ≡ applied t after
            → key.values t
              ≡ assign_all
                  (effect (key.values s) (Dict.get read option) option asked)
                  (reached listing options)
        step rest left f k =
            rest s before h.1 k ∙ ap (λ g. assign_all g (reached listing options)) (sym f)
        step rest (changed u) f k =
            rest u _ (IsFresh-effect read s u option (Dict.get read option) asked options f d.0 h.1)
              k
            ∙ ap (λ g. assign_all g (reached listing options)) f
        step rest (broken x) f k = absurd (cc k)

  -- A value that was read is one that the key holds.
  abbrev IsHeld : S → Text × Text → Type 0
  IsHeld s e = key.values s (lower e.0) ≡ some e.1

  answer-IsHeld :
      (s : S) (n i : ℕ)
      → ((j : ℕ) → All (IsHeld s) (values_from (key.enum_value s) n j))
      → (a : Answer) → key.enum_value s i ≡ a
      → All (IsHeld s) (elim a [
        | walk_end ↦ []
        | unreadable ↦ []
        | unnamed ↦ values_from (key.enum_value s) n (i + 1)
        | value name text ↦ (name, text) ∷ values_from (key.enum_value s) n (i + 1)
      ])
  answer-IsHeld s n i rest walk_end e = tt
  answer-IsHeld s n i rest unreadable e = tt
  answer-IsHeld s n i rest unnamed e = rest (i + 1)
  answer-IsHeld s n i rest (value name text) e = (key.enum_value_lem s i name text e, rest (i + 1))

  values_from-IsHeld : (s : S) (n i : ℕ) → All (IsHeld s) (values_from (key.enum_value s) n i)
  unfolding values_from
  values_from-IsHeld s zero i = tt
  values_from-IsHeld s (suc n) i =
      answer-IsHeld s n i (λ j. values_from-IsHeld s n j) (key.enum_value s i) refl

  dict_after-IsHeld :
      (s : S) (m : Dict Text) (entries : List (Text × Text))
      → All (IsHeld s) m
      → All (IsHeld s) entries
      → All (IsHeld s) (dict_after m entries)
  unfolding dict_after
  dict_after-IsHeld s m [] h k = h
  dict_after-IsHeld s m ((name, text) ∷ entries) h k =
      dict_after-IsHeld s (Dict.put m name text) entries (Dict.put-All (IsHeld s) m name text h k.0)
        k.1

  read-IsFresh :
      (s : S) (current : Dict Text) (options : Dict (Option Text))
      → All (IsHeld s) current
      → IsFresh current s options
  read-IsFresh s current [] h = tt
  read-IsFresh s current ((name, asked) ∷ options) h =
      (held (Dict.get current option) refl, read-IsFresh s current options h)
    where
      option : Text
      option = normalise_option name

      held : (v : Option Text) → Dict.get current option ≡ v → Holds v (key.values s option)
      held none e = tt
      held (some v) e =
          ap (key.values s) (sym (lower-normalise_option name))
          ∙ Dict.get-All (IsHeld s) current option v h e

  write_options-assigns :
      (s t : S) (changes : Dict Change) (options : Dict (Option Text))
      → AreDistinct options
      → write_options key s options ≡ applied t changes
      → key.values t
        ≡ assign_all (key.values s) (reached (enumerate_values (key.enum_value s)) options)
  unfolding write_options current_values enumerate_values
  write_options-assigns s t changes options d w =
      let listing = values_from (key.enum_value s) 4097 0 in
      write_from-refines listing s t [] changes options d
        (read-IsFresh s (dict_after [] listing) options
          (dict_after-IsHeld s [] listing tt (values_from-IsHeld s 4097 0)))
        w

  -- Where `write_options` returns, and no two of the names are the same option, the values of the key
  -- are, as a map, those before with the options that were asked for replaced, one after the other:
  -- set, or removed where `None` was given and the walk over the values gave one with that very name.
  -- An option whose deletion was asked for and which the walk did not give is left as it is. The walk
  -- gives a value exactly when it is the answer at an index up to 4096, and none of the answers before
  -- it ends the walk or cannot be read.
  pub write_options-refines :
      (s t : S) (changes : Dict Change) (options : Dict (Option Text)) (e : Text × Text)
      → AreDistinct options
      → write_options key s options ≡ applied t changes
      → (key.values t
          ≡ assign_all (key.values s) (reached (enumerate_values (key.enum_value s)) options))
        × (Memᴰ e (enumerate_values (key.enum_value s)) ↔ IsAnswer (key.enum_value s) e)
  write_options-refines s t changes options e d w = (
    write_options-assigns s t changes options d w,
    enumerate_values-IsAnswer (key.enum_value s) e,
  )
