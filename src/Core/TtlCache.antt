-- ===== src/Core/TtlCache.antt =====
-- backend/samfscon/core/cache.py: a bounded cache whose entries expire.
-- A stored value may itself be `None`, so it is an `Option`. `time.monotonic()` is the argument
-- `now`; the lock makes each method one step.
pub mod Lookup
pub mod Eviction
pub mod Size
pub mod Prefix
mod Tests
use samfscon.Prelude.{
  ℕ, ◌+◌, Bool, true, false, Option, none, some, List, [], ◌∷◌, ltb, leb, length, if◌then◌else◌,
  keep,
}
use samfscon.Prelude.Text.{Text, starts_with}
use samfscon.Prelude.Dict
use samfscon.Prelude.Dict.{Dict}

pub record TtlCache {ℓ} (T : Type ℓ) : Type ℓ where
  pub ttl : ℕ
  pub max_entries : ℕ
  pub entries : Dict (ℕ × Option T)

module _ {ℓ} {T : Type ℓ} where
  pub get : TtlCache T → Text → ℕ → Option T × TtlCache T
  get c key now = elim (Dict.get c.entries key) [
    | none ↦ (none, c)
    | some (expires_at, value) ↦
        if ltb expires_at now
        then (none, record c { entries = Dict.remove c.entries key })
        else (value, c)
  ]

  -- `min(self._data, key=...)`: the first key with the least expiry, from a first candidate on.
  pub oldest_from : Text → ℕ → Dict (ℕ × Option T) → Text
  oldest_from key least [] = key
  oldest_from key least ((k, (expires_at, value)) ∷ m) =
      let better = ltb expires_at least in
      oldest_from (if better then k else key) (if better then expires_at else least) m

  pub evict_oldest : Dict (ℕ × Option T) → Option (Dict (ℕ × Option T))
  evict_oldest [] = none
  evict_oldest ((k, (expires_at, value)) ∷ m) =
      some (Dict.remove ((k, (expires_at, value)) ∷ m) (oldest_from k expires_at m))

  pub room_for : TtlCache T → Option (Dict (ℕ × Option T))
  room_for c =
      if leb c.max_entries (length c.entries) then evict_oldest c.entries else some c.entries

  pub lifetime : TtlCache T → Option ℕ → ℕ
  lifetime c none = c.ttl
  lifetime c (some ttl) = ttl

  -- `none` is the `ValueError` of `min` on a cache of no entries at all.
  pub set : TtlCache T → Text → Option T → Option ℕ → ℕ → Option (TtlCache T)
  set c key value ttl now = elim (room_for c) [
    | none ↦ none
    | some m ↦ some (record c { entries = Dict.put m key (now + lifetime c ttl, value) })
  ]

  -- The factory is called at the time of the second reading of the clock. The result says
  -- whether it was called, and what was returned.
  pub get_or_set :
      TtlCache T → Text → Option T → Option ℕ → ℕ → ℕ → Option (Bool × Option T × TtlCache T)
  get_or_set c key produced ttl now later =
      let (cached, c') = get c key now in
      elim cached [
        | some value ↦ some (false, some value, c')
        | none ↦ elim (set c' key produced ttl later) [
          | none ↦ none
          | some c'' ↦ some (true, produced, c'')
        ]
      ]

  pub invalidate : TtlCache T → Text → TtlCache T
  invalidate c key = record c { entries = Dict.remove c.entries key }

  pub keys_with : Text → Dict (ℕ × Option T) → List Text
  keys_with prefix [] = []
  keys_with prefix ((k, entry) ∷ m) =
      if starts_with prefix k then k ∷ keys_with prefix m else keys_with prefix m

  pub remove_all : Dict (ℕ × Option T) → List Text → Dict (ℕ × Option T)
  remove_all m [] = m
  remove_all m (k ∷ ks) = remove_all (Dict.remove m k) ks

  pub invalidate_prefix : TtlCache T → Text → TtlCache T
  invalidate_prefix c prefix = record c {
    entries = remove_all c.entries (keys_with prefix c.entries);
  }

  pub clear : TtlCache T → TtlCache T
  clear c = record c { entries = [] }
