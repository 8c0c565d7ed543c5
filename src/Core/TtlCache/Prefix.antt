-- ===== src/Core/TtlCache/Prefix.antt =====
-- Invalidation by a prefix, and the factory of `get_or_set`.
use samfscon.Prelude.{
  ℕ, ◌≡◌, ◌≢◌, ◌⊎◌, refl, Bool, true, false, Option, none, some, List, [], ◌∷◌, arith,
  if◌then◌else◌, Bool-cases, inl, inr, Option-cases, ◌∙◌, any,
}
use samfscon.Prelude.Text.{Text, eq_text, eq_text_iff, starts_with}
use samfscon.Prelude.Dict
use samfscon.Prelude.Dict.{Dict, IsDict}
use samfscon.Core.TtlCache.{
  TtlCache, get, set, invalidate_prefix, keys_with, remove_all, get_or_set,
}

module _ {ℓ} {T : Type ℓ} where
  get-remove_all :
      (m : Dict (ℕ × Option T)) (ks : List Text) (k : Text)
      → Dict.get (remove_all m ks) k ≡ (if any (λ j. eq_text j k) ks then none else Dict.get m k)
  unfolding remove_all
  get-remove_all m [] k = refl
  get-remove_all m (j ∷ ks) k =
      ground (arith, get-remove_all (Dict.remove m j) ks k, Dict.get-remove m j k)

  keys_with_absent :
      (prefix : Text) (m : Dict (ℕ × Option T)) (k : Text)
      → starts_with prefix k ≡ false
      → any (λ j. eq_text j k) (keys_with prefix m) ≡ false
  unfolding keys_with
  keys_with_absent prefix [] k h = refl
  keys_with_absent prefix ((j, w) ∷ m) k h = elim (Bool-cases (eq_text j k)) [
    | inl same ↦ let e = (eq_text_iff j k).0 same in rw e (rw h (keys_with_absent prefix m k h))
    | inr other ↦ ground (arith, keys_with_absent prefix m k h)
  ]

  any-keys_with :
      (prefix : Text) (m : Dict (ℕ × Option T)) (k : Text)
      → (if any (λ j. eq_text j k) (keys_with prefix m) then none else Dict.get m k)
        ≡ (if starts_with prefix k then none else Dict.get m k)
  unfolding keys_with Dict.get
  any-keys_with prefix [] k = ground arith
  any-keys_with prefix ((j, w) ∷ m) k = elim (Bool-cases (eq_text j k)) [
    | inl same ↦
        let e = (eq_text_iff j k).0 same in
        rw e (ground (arith, eq_text_iff k k, keys_with_absent prefix m k))
    | inr other ↦ ground (arith, any-keys_with prefix m k)
  ]

  -- After the invalidation of a prefix, no key with the prefix has an entry, and every other key
  -- has the entry that it had.
  pub get-invalidate_prefix :
      (c : TtlCache T) (prefix key : Text)
      → Dict.get (invalidate_prefix c prefix).entries key
        ≡ (if starts_with prefix key then none else Dict.get c.entries key)
  unfolding invalidate_prefix
  get-invalidate_prefix c prefix key =
      get-remove_all c.entries (keys_with prefix c.entries) key ∙ any-keys_with prefix c.entries key

  -- `get_or_set` calls the factory exactly when `get` answers nothing, and returns what `get`
  -- answers or else what the factory produced.
  pub get_or_set_lem :
      (c : TtlCache T) (key : Text) (produced : Option T) (ttl : Option ℕ) (now later : ℕ)
      (called : Bool) (result : Option T) (c' : TtlCache T)
      → get_or_set c key produced ttl now later ≡ some (called, result, c')
      → ((called ≡ false) × (result ≡ (get c key now).0) × (result ≢ none))
        ⊎ ((called ≡ true)
            × ((get c key now).0 ≡ none)
            × (result ≡ produced)
            × (set (get c key now).1 key produced ttl later ≡ some c'))
  unfolding get_or_set
  get_or_set_lem c key produced ttl now later called result c' e =
      elim (Option-cases (get c key now).0) [
        | inl miss ↦ elim (Option-cases (set (get c key now).1 key produced ttl later)) [
          | inl failed ↦ ground arith
          | inr (c'', stored) ↦ inr (ground arith, miss, ground arith, ground arith)
        ]
        | inr (v, hit) ↦ inl (ground arith, ground arith, ground arith)
      ]
