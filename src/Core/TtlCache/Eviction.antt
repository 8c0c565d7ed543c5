-- ===== src/Core/TtlCache/Eviction.antt =====
-- Which entry `set` drops from a full cache: one that expires first.
use samfscon.Prelude.{
  ℕ, ◌≤◌, ◌≡◌, ◌≢◌, refl, Option, none, some, [], ◌∷◌, arith, ltb, leb, length, if◌then◌else◌,
  Bool-cases, inl, inr, ◌⊎◌, ap, leb→le,
}
use samfscon.Prelude.Text.{Text, eq_text, eq_text_iff, eq_text_ne}
use samfscon.Prelude.Dict
use samfscon.Prelude.Dict.{Dict, IsDict}
use samfscon.Core.TtlCache.{TtlCache, set, oldest_from, evict_oldest, room_for}
use samfscon.Core.TtlCache.Lookup.{set-inv}

module _ {ℓ} {T : Type ℓ} where
  -- The expiry of the key that is dropped is the least of all.
  abbrev pub NoneBefore : ℕ → Dict (ℕ × Option T) → Type 0
  NoneBefore least [] = Unit
  NoneBefore least ((k, (expires_at, value)) ∷ m) = (least ≤ expires_at) × NoneBefore least m

  NoneBefore-weaken : (a b : ℕ) (m : Dict (ℕ × Option T)) → a ≤ b → NoneBefore b m → NoneBefore a m
  NoneBefore-weaken a b [] h n = tt
  NoneBefore-weaken a b ((k, (x, value)) ∷ m) h n = (omega arith, NoneBefore-weaken a b m h n.1)

  -- The expiry of the key that `oldest_from` chooses.
  least_from : ℕ → Dict (ℕ × Option T) → ℕ
  least_from least [] = least
  least_from least ((k, (expires_at, value)) ∷ m) =
      least_from (if ltb expires_at least then expires_at else least) m

  least_from-le : (least : ℕ) (m : Dict (ℕ × Option T)) → least_from least m ≤ least
  unfolding least_from
  least_from-le least [] = omega arith
  least_from-le least ((k, (x, value)) ∷ m) =
      ground (arith, least_from-le (if ltb x least then x else least) m)

  least_from-NoneBefore : (least : ℕ) (m : Dict (ℕ × Option T)) → NoneBefore (least_from least m) m
  unfolding least_from
  least_from-NoneBefore least [] = tt
  least_from-NoneBefore least ((k, (x, value)) ∷ m) =
      let next = if ltb x least then x else least in
      (ground (arith, least_from-le next m), least_from-NoneBefore next m)

  get-skip :
      (k o : Text) (y w : ℕ × Option T) (m : Dict (ℕ × Option T))
      → Dict.get m k ≡ none
      → Dict.get m o ≡ some w
      → Dict.get ((k, y) ∷ m) o ≡ some w
  unfolding Dict.get
  get-skip k o y w m absent found = elim (Bool-cases (eq_text k o)) [
    | inl same ↦ let e = (eq_text_iff k o).0 same in cc (e, ap (Dict.get m) e, found, absent)
    | inr other ↦ rw other found
  ]

  -- The chosen key is the first candidate, or one with an entry of its own; the expiry is its own.
  oldest_from-get :
      (key : Text) (least : ℕ) (m : Dict (ℕ × Option T))
      → IsDict m
      → ((oldest_from key least m ≡ key) × (least_from least m ≡ least))
        ⊎ ((v : Option T) × (Dict.get m (oldest_from key least m) ≡ some (least_from least m, v)))
  unfolding oldest_from least_from
  oldest_from-get key least [] d = inl (refl, refl)
  oldest_from-get key least ((k, (x, v)) ∷ m) d = elim (Bool-cases (ltb x least)) [
    | inl better ↦ rw better (elim (oldest_from-get k x m d.1) [
      | inl (first, own) ↦
          inr (v, rw (first, own) (unfold Dict.get in ground (arith, eq_text_iff k k)))
      | inr (u, found) ↦ inr (u, get-skip k _ (x, v) _ m d.0 found)
    ])
    | inr worse ↦ rw worse (elim (oldest_from-get key least m d.1) [
      | inl first ↦ inl first
      | inr (u, found) ↦ inr (u, get-skip k _ (x, v) _ m d.0 found)
    ])
  ]

  pub evict_oldest-least :
      (m m' : Dict (ℕ × Option T))
      → IsDict m
      → evict_oldest m ≡ some m'
      → (k : Text) × (x : ℕ) × (v : Option T) × (Dict.get m k ≡ some (x, v))
        × NoneBefore x m
        × (m' ≡ Dict.remove m k)
  unfolding evict_oldest
  evict_oldest-least [] m' d e = ground arith
  evict_oldest-least ((k, (x, v)) ∷ m) m' d e =
      let o = oldest_from k x m in
      elim (oldest_from-get k x m d.1) [
        | inl (first, own) ↦ (
          o,
          least_from x m,
          v,
          rw (first, own) (unfold Dict.get in ground (arith, eq_text_iff k k)),
          (least_from-le x m, least_from-NoneBefore x m),
          ground arith,
        )
        | inr (u, found) ↦ (
          o,
          least_from x m,
          u,
          get-skip k o (x, v) _ m d.0 found,
          (least_from-le x m, least_from-NoneBefore x m),
          ground arith,
        )
      ]

  -- What `set` does to an entry under another key of a cache with no key twice: it stays, unless the cache was full; then one
  -- entry is dropped, and no entry of the cache expires before that one.
  pub set_other :
      (c c' : TtlCache T) (key other : Text) (value : Option T) (ttl : Option ℕ) (now : ℕ)
      → IsDict c.entries
      → key ≢ other
      → set c key value ttl now ≡ some c'
      → (Dict.get c'.entries other ≡ Dict.get c.entries other)
        ⊎ ((x : ℕ) × (v : Option T) × (Dict.get c.entries other ≡ some (x, v))
            × NoneBefore x c.entries
            × (c.max_entries ≤ length c.entries)
            × (Dict.get c'.entries other ≡ none))
  set_other c c' key other value ttl now d ne e =
      let (m, room, same) = set-inv c key value ttl now e in
      rw same (
        rw (Dict.get-put, eq_text_ne key other ne)
          (elim (Bool-cases (leb c.max_entries (length c.entries))) [
            | inl full ↦
                let (k, x, v, found, least, gone) =
                  evict_oldest-least c.entries m d (unfold room_for in ground arith) in
                elim (Bool-cases (eq_text k other)) [
                  | inl hit ↦ inr (
                    x,
                    v,
                    ground (arith, eq_text_iff k other),
                    least,
                    leb→le _ _ full,
                    rw gone (rw (Dict.get-remove, hit)),
                  )
                  | inr miss ↦ inl (rw gone (rw (Dict.get-remove, miss)))
                ]
            | inr free ↦ inl (unfold room_for in ground arith)
          ]))
