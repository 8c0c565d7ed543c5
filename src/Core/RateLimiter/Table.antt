-- ===== src/Core/RateLimiter/Table.antt =====
-- What becomes of the table of keys.
use samfscon.Prelude.{
  ℕ, ◌<◌, ◌≡◌, refl, true, List, [], ◌∷◌, ◌++◌, arith, leb, length, All, keep, Bool-cases, inl, inr,
}
use samfscon.Prelude.Text.{Text, eq_text}
use samfscon.Prelude.Dict.{Dict, put}
use samfscon.Core.RateLimiter.{RateLimiter, evict, bucket_of, is_nonempty, drop_stale, check}

-- No bucket is empty.
abbrev pub NoneEmpty : Dict (List ℕ) → Type 0
NoneEmpty m = All (λ e. is_nonempty e.1 ≡ true) m

put-NoneEmpty :
    (m : Dict (List ℕ)) (key : Text) (b : List ℕ)
    → is_nonempty b ≡ true
    → NoneEmpty m
    → NoneEmpty (put m key b)
unfolding put
put-NoneEmpty [] key b e h = (e, tt)
put-NoneEmpty ((j, w) ∷ m) key b e h = elim (Bool-cases (eq_text j key)) [
  | inl same ↦ rw same (e, h.1)
  | inr other ↦ rw other (h.0, put-NoneEmpty m key b e h.1)
]

keep_all : (m : Dict (List ℕ)) → NoneEmpty m → keep (λ e. is_nonempty e.1) m ≡ m
keep_all [] h = refl
keep_all ((j, w) ∷ m) h = rw (h.0, keep_all m h.1)

drop_stale_noop : (m : Dict (List ℕ)) → NoneEmpty m → drop_stale m ≡ m
unfolding drop_stale
drop_stale_noop m h = ground (arith, keep_all m h)

is_nonempty_full : (b : List ℕ) (n : ℕ) → 0 < n → leb n (length b) ≡ true → is_nonempty b ≡ true
unfolding is_nonempty
is_nonempty_full [] n h e = ground arith
is_nonempty_full (t ∷ b) n h e = refl

is_nonempty-append : (b : List ℕ) (t : ℕ) → is_nonempty (b ++ t ∷ []) ≡ true
unfolding is_nonempty
is_nonempty-append [] t = refl
is_nonempty-append (s ∷ b) t = refl

-- With a limit above zero and no empty bucket in the table, a call leaves no bucket empty, and the
-- removal of empty buckets takes nothing away: the table after the call, however large it is, is
-- the one before with the bucket of the key replaced or added.
pub check-NoneEmpty :
    (r : RateLimiter) (key : Text) (now : ℕ)
    → 0 < r.max_events
    → NoneEmpty r.events
    → NoneEmpty (check r key now).1.events
      × ((b : List ℕ) × ((check r key now).1.events ≡ put r.events key b))
unfolding check
check-NoneEmpty r key now pos h =
    let b = evict r.window now (bucket_of r key) in
    elim (Bool-cases (leb r.max_events (length b))) [
      | inl full ↦
          rw full
            (put-NoneEmpty r.events key b (is_nonempty_full b r.max_events pos full) h, (b, refl))
      | inr room ↦
          let h' = put-NoneEmpty r.events key (b ++ now ∷ []) (is_nonempty-append b now) h in
          rw (room, drop_stale_noop _ h') (h', (b ++ now ∷ [], refl))
    ]
