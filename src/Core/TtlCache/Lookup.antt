-- ===== src/Core/TtlCache/Lookup.antt =====
-- What a cache answers after `set`, and what `get` does.
use samfscon.Prelude.{
  ℕ, ◌+◌, ◌≤◌, ◌≡◌, Option, none, some, arith, ltb, leb, if◌then◌else◌, inl, inr, Option-cases, ◌∙◌,
}
use samfscon.Prelude.Text.{Text, eq_text_iff}
use samfscon.Prelude.Dict
use samfscon.Prelude.Dict.{Dict}
use samfscon.Core.TtlCache.{TtlCache, get, set, room_for, lifetime}

module _ {ℓ} {T : Type ℓ} where
  -- What `get` answers, from the entry that the table holds.
  abbrev pub fresh : ℕ → Option (ℕ × Option T) → Option T
  fresh now none = none
  fresh now (some (expires_at, value)) = if ltb expires_at now then none else value

  pub get-eq-fresh :
      (c : TtlCache T) (key : Text) (now : ℕ)
      → (get c key now).0 ≡ fresh now (Dict.get c.entries key)
  unfolding get
  get-eq-fresh c key now = ground arith

  -- After `get` no key answers otherwise than before.
  pub get-get :
      (c : TtlCache T) (key other : Text) (now later : ℕ)
      → now ≤ later
      → (get (get c key now).1 other later).0 ≡ (get c other later).0
  unfolding get
  get-get c key other now later h =
      ground (arith, Dict.get-remove c.entries key other, eq_text_iff key other)

  pub set-inv :
      (c : TtlCache T) (key : Text) (value : Option T) (ttl : Option ℕ) (now : ℕ) {c' : TtlCache T}
      → set c key value ttl now ≡ some c'
      → (m : Dict (ℕ × Option T)) × (room_for c ≡ some m)
        × (c' ≡ record c { entries = Dict.put m key (now + lifetime c ttl, value) })
  unfolding set
  set-inv c key value ttl now e = elim (Option-cases (room_for c)) [
    | inl failed ↦ ground arith
    | inr (m, room) ↦ (m, room, ground arith)
  ]

  -- A value that was set is answered until its lifetime is over, and not after.
  pub get-set_self :
      (c c' : TtlCache T) (key : Text) (value : Option T) (ttl : Option ℕ) (now later : ℕ)
      → set c key value ttl now ≡ some c'
      → (get c' key later).0 ≡ (if leb later (now + lifetime c ttl) then value else none)
  get-set_self c c' key value ttl now later e =
      let (m, room, same) = set-inv c key value ttl now e in
      get-eq-fresh c' key later ∙ rw same (rw Dict.get-put (ground (arith, eq_text_iff key key)))
