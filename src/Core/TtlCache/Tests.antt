-- ===== src/Core/TtlCache/Tests.antt =====
-- Examples of backend/samfscon/core/cache.py.
use samfscon.Prelude.{ℕ, Option, none, some, List, [], ◌∷◌, ◌≡◌, refl, arith}
use samfscon.Prelude.Text.{codes, eq_text}
use samfscon.Prelude.Dict
use samfscon.Core.TtlCache.{TtlCache, get, set, lifetime, room_for, evict_oldest, oldest_from}
use samfscon.Core.TtlCache.Lookup.{get-set_self}
use samfscon.Core.TtlCache.Size.{
  Call, get_at, set_at, prefix_invalidated, run, IsBounded, run-IsBounded,
}

-- A full cache with an older entry under `a`.
abbrev full : TtlCache ℕ
full = record {
  ttl = 100;
  max_entries = 2;
  entries = (codes "a", (50, some 1)) ∷ (codes "b", (80, some 2)) ∷ [];
}

-- The cache after 3 was stored under `c` at 40.
abbrev after : TtlCache ℕ
after = record {
  ttl = 100;
  max_entries = 2;
  entries = (codes "b", (80, some 2)) ∷ (codes "c", (140, some 3)) ∷ [];
}

get-set_self_example : (get after (codes "c") 90).0 ≡ some 3
unfolding set room_for evict_oldest oldest_from lifetime Dict.put Dict.remove eq_text
get-set_self_example = get-set_self full after (codes "c") (some 3) none 40 90 refl

full-IsBounded : IsBounded full
unfolding Dict.get eq_text
full-IsBounded = record {
  is_dict = (refl, (refl, tt));
  positive = omega arith;
  within = omega arith;
}

abbrev calls : List (Call ℕ)
calls =
    set_at (codes "c") (some 3) none 40
    ∷ get_at (codes "b") 200
    ∷ prefix_invalidated (codes "c")
    ∷ []

run-IsBounded_example : IsBounded (run full calls)
run-IsBounded_example = run-IsBounded full calls full-IsBounded

abbrev one : Option ℕ
one = some 1

abbrev nine : Option ℕ
nine = some 9
