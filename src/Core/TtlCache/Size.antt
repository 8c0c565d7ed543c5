-- ===== src/Core/TtlCache/Size.antt =====
-- The bound on the number of entries, over whole histories of calls.
use samfscon.Prelude.{
  ℕ, ◌+◌, ◌≤◌, ◌<◌, ◌≡◌, Option, none, some, List, [], ◌∷◌, arith, ltb, leb, length, Bool-cases,
  inl, inr, Option-cases,
}
use samfscon.Prelude.Text.{Text, eq_text}
use samfscon.Prelude.Dict
use samfscon.Prelude.Dict.{Dict, IsDict}
use samfscon.Core.TtlCache.{
  TtlCache, get, set, room_for, lifetime, invalidate, invalidate_prefix, keys_with, remove_all,
  clear,
}
use samfscon.Core.TtlCache.Lookup.{set-inv}
use samfscon.Core.TtlCache.Eviction.{evict_oldest-least}

-- A call of a method that changes the cache, with the time at which it is made.
pub data Call {ℓ} (T : Type ℓ) : Type ℓ where
  get_at : Text → ℕ → Call T
  set_at : Text → Option T → Option ℕ → ℕ → Call T
  invalidated : Text → Call T
  prefix_invalidated : Text → Call T
  cleared : Call T

module _ {ℓ} {T : Type ℓ} where
  -- A `set` that raises leaves the cache as it was.
  abbrev kept : TtlCache T → Option (TtlCache T) → TtlCache T
  kept c none = c
  kept c (some c') = c'

  pub apply : TtlCache T → Call T → TtlCache T
  apply c (get_at key now) = (get c key now).1
  apply c (set_at key value ttl now) = kept c (set c key value ttl now)
  apply c (invalidated key) = invalidate c key
  apply c (prefix_invalidated prefix) = invalidate_prefix c prefix
  apply c cleared = clear c

  pub run : TtlCache T → List (Call T) → TtlCache T
  run c [] = c
  run c (call ∷ calls) = run (apply c call) calls

  pub record IsBounded (c : TtlCache T) : Type ℓ where
    pub is_dict : IsDict c.entries
    pub positive : 0 < c.max_entries
    pub within : length c.entries ≤ c.max_entries

  remove_mem :
      (m : Dict (ℕ × Option T)) (k : Text) {v : ℕ × Option T}
      → Dict.get m k ≡ some v
      → length (Dict.remove m k) < length m
  unfolding Dict.get Dict.remove
  remove_mem [] k e = cc
  remove_mem ((j, w) ∷ m) k e = elim (Bool-cases (eq_text j k)) [
    | inl same ↦ rw same (omega (arith, Dict.length-remove m k))
    | inr other ↦ rw other (omega (arith, remove_mem m k (rw other at e)))
  ]

  room_for-below :
      (c : TtlCache T) (m : Dict (ℕ × Option T))
      → IsBounded c
      → room_for c ≡ some m
      → IsDict m × (length m < c.max_entries)
  room_for-below c m b e = elim (Bool-cases (leb c.max_entries (length c.entries))) [
    | inl full ↦
        let (k, x, v, found, least, gone) =
          evict_oldest-least c.entries m b.is_dict (unfold room_for in ground arith) in
        let smaller = remove_mem c.entries k found in
        let w = b.within in rw gone (Dict.remove-IsDict c.entries k b.is_dict, omega arith)
    | inr free ↦
        let same : c.entries ≡ m = unfold room_for in ground arith in
        rw (← same) (b.is_dict, ground arith)
  ]

  set-IsBounded :
      (c c' : TtlCache T) (key : Text) (value : Option T) (ttl : Option ℕ) (now : ℕ)
      → IsBounded c
      → set c key value ttl now ≡ some c'
      → IsBounded c'
  set-IsBounded c c' key value ttl now b e =
      let (m, room, same) = set-inv c key value ttl now e in
      let (d, below) = room_for-below c m b room in
      let more = Dict.length-put m key (now + lifetime c ttl, value) in
      rw same (record {
        is_dict = Dict.put-IsDict m key _ d;
        positive = b.positive;
        within = omega arith;
      })

  removed-IsBounded :
      (c : TtlCache T) (key : Text)
      → IsBounded c
      → IsBounded (record c { entries = Dict.remove c.entries key })
  removed-IsBounded c key b = record {
    is_dict = Dict.remove-IsDict c.entries key b.is_dict;
    positive = b.positive;
    within = (let w = b.within in omega (arith, Dict.length-remove c.entries key));
  }

  remove_all-IsBounded :
      (ks : List Text) (c : TtlCache T) (m : Dict (ℕ × Option T))
      → IsBounded (record c { entries = m })
      → IsBounded (record c { entries = remove_all m ks })
  unfolding remove_all
  remove_all-IsBounded [] c m b = b
  remove_all-IsBounded (k ∷ ks) c m b =
      remove_all-IsBounded ks c (Dict.remove m k) (removed-IsBounded (record c { entries = m }) k b)

  get-IsBounded :
      (c : TtlCache T) (key : Text) (now : ℕ) → IsBounded c → IsBounded (get c key now).1
  unfolding get
  get-IsBounded c key now b = elim (Option-cases (Dict.get c.entries key)) [
    | inl missing ↦ rw (missing, get) b
    | inr ((x, v), found) ↦
        rw (found, get)
          (elim (Bool-cases (ltb x now)) [
            | inl stale ↦ rw stale (removed-IsBounded c key b)
            | inr live ↦ rw live b
          ])
  ]

  apply-IsBounded : (c : TtlCache T) (call : Call T) → IsBounded c → IsBounded (apply c call)
  unfolding apply invalidate invalidate_prefix clear
  apply-IsBounded c (get_at key now) b = get-IsBounded c key now b
  apply-IsBounded c (set_at key value ttl now) b = elim (Option-cases (set c key value ttl now)) [
    | inl raised ↦ rw raised b
    | inr (c', e) ↦ rw e (set-IsBounded c c' key value ttl now b e)
  ]
  apply-IsBounded c (invalidated key) b = removed-IsBounded c key b
  apply-IsBounded c (prefix_invalidated prefix) b =
      remove_all-IsBounded (keys_with prefix c.entries) c c.entries b
  apply-IsBounded c cleared b = record { is_dict = tt; positive = b.positive; within = omega arith }

  -- Whatever calls are made on a cache for at least one entry that is within its bound, it never
  -- holds more than `max_entries` entries, and no key twice.
  pub run-IsBounded :
      (c : TtlCache T) (calls : List (Call T)) → IsBounded c → IsBounded (run c calls)
  unfolding run
  run-IsBounded c [] b = b
  run-IsBounded c (call ∷ calls) b = run-IsBounded (apply c call) calls (apply-IsBounded c call b)
