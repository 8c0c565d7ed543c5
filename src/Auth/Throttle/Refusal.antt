-- ===== src/Auth/Throttle/Refusal.antt =====
-- When `check` refuses, and what its `retry_after_seconds` means.
use samfscon.Prelude.{
  ℕ, ◌+◌, ◌-◌, ◌*◌, ◌/◌, ◌≤◌, ◌≡◌, refl, Bool, true, false, Option, none, some, List, [], ◌∷◌,
  arith, ltb, leb, max, Bool-cases, inl, inr, ◌∙◌, ap, any, ◌||◌, ◌&&◌, ◌⊎◌, ◌++◌, le→ltb, subst,
  sym,
}
use samfscon.Prelude.Text.{Text, codes, lower, eq_text, eq_text_iff}
use samfscon.Prelude.Dict.{get, remove, get-remove}
use samfscon.Core.Clock.{second}
use samfscon.Auth.Throttle.{
  LoginThrottle, enabled, keys, user_key, ip_key, Verdict, login_throttled, is_stale, retry_after,
  Found, untouched, stale, blocked, judge, check_keys, check, is_refusal, is_blocked,
}

or-true : (a b : Bool) → b ≡ true → (a || b) ≡ true
or-true a b h = ground arith

true-or : (a b : Bool) → a ≡ true → (a || b) ≡ true
true-or a b h = ground arith

-- Whether the entry under a key blocks a sign-in at a time.
abbrev pub blocks : LoginThrottle → ℕ → Text → Bool
blocks t now k = is_blocked (judge t now (get t.failures k))

Found-cases : (f : Found) → (f ≡ untouched) ⊎ ((f ≡ stale) ⊎ ((s : ℕ) × (f ≡ blocked s)))
Found-cases untouched = inl refl
Found-cases stale = inr (inl refl)
Found-cases (blocked s) = inr (inr (s, refl))

-- Deleting a stale entry blocks and unblocks nobody.
blocks-remove :
    (t : LoginThrottle) (now : ℕ) (k j : Text)
    → judge t now (get t.failures k) ≡ stale
    → blocks (record t { failures = remove t.failures k }) now j ≡ blocks t now j
unfolding judge is_blocked is_stale
blocks-remove t now k j e = elim (Bool-cases (eq_text k j)) [
  | inl same ↦
      let q = (eq_text_iff k j).0 same in
      rw (← q) (ground (arith, get-remove t.failures k k, eq_text_iff k k))
  | inr other ↦ ground (arith, get-remove t.failures k j)
]

check_keys_refusal :
    (ks : List Text) (t : LoginThrottle) (now : ℕ) (b : Text → Bool)
    → ((j : Text) → blocks t now j ≡ b j)
    → is_refusal (check_keys t now ks).0 ≡ any b ks
unfolding check_keys is_refusal
check_keys_refusal [] t now b h = refl
check_keys_refusal (k ∷ ks) t now b h = elim (Found-cases (judge t now (get t.failures k))) [
  | inl none_found ↦
      let no_block : b k ≡ false =
        unfold is_blocked in cc (none_found, h k, ap is_blocked none_found) in
      rw (none_found, check_keys, no_block) (check_keys_refusal ks t now b h)
  | inr (inl old) ↦
      let no_block : b k ≡ false = unfold is_blocked in cc (old, h k, ap is_blocked old) in
      rw (old, check_keys, no_block)
        (check_keys_refusal ks (record t { failures = remove t.failures k }) now b
          (λ j. blocks-remove t now k j old ∙ h j))
  | inr (inr (s, hit)) ↦
      let block : b k ≡ true = unfold is_blocked in cc (hit, h k, ap is_blocked hit) in
      rw (hit, check_keys, block)
]

-- A refusal, in the terms of the loop.
pub check_refuses_blocked :
    (t : LoginThrottle) (username : Text) (client_ip : Option Text) (now : ℕ)
    → is_refusal (check t username client_ip now).0
      ≡ (enabled t && any (blocks t now) (keys username client_ip))
unfolding check is_refusal
check_refuses_blocked t username client_ip now =
    ground (arith, check_keys_refusal (keys username client_ip) t now (blocks t now) (λ j. refl))

-- An entry whose last failure is at most the lockout ago, and which counts `max_attempts` at least.
abbrev pub is_locked : LoginThrottle → ℕ → Option (ℕ × ℕ) → Bool
is_locked t now none = false
is_locked t now (some (count, last)) = leb now (last + t.lockout) && leb t.max_attempts count

-- The same of an address; none and the empty one have no entry.
abbrev pub is_ip_locked : LoginThrottle → ℕ → Option Text → Bool
is_ip_locked t now none = false
is_ip_locked t now (some []) = false
is_ip_locked t now (some (c ∷ ip)) = is_locked t now (get t.failures (codes "ip:" ++ (c ∷ ip)))

judge-is_locked :
    (t : LoginThrottle) (now : ℕ) (e : Option (ℕ × ℕ))
    → is_blocked (judge t now e) ≡ is_locked t now e
unfolding judge is_blocked is_stale
judge-is_locked t now none = refl
judge-is_locked t now (some (count, last)) = ground arith

keys-is_locked :
    (t : LoginThrottle) (now : ℕ) (username : Text) (client_ip : Option Text)
    → any (blocks t now) (keys username client_ip) ≡ (
        is_locked t now (get t.failures (codes "user:" ++ lower username))
        || is_ip_locked t now client_ip)
unfolding keys user_key ip_key
keys-is_locked t now username none = rw judge-is_locked refl
keys-is_locked t now username (some []) = rw judge-is_locked refl
keys-is_locked t now username (some (c ∷ ip)) =
    rw judge-is_locked (rw judge-is_locked (ground arith))

-- `check` refuses exactly when `max_attempts` and the lockout are above 0, and the entry under
-- `user:` with the name in small letters, or under `ip:` with an address that is not empty, counts
-- `max_attempts` failures at least, the last of them at most the lockout ago.
pub check_refuses :
    (t : LoginThrottle) (username : Text) (client_ip : Option Text) (now : ℕ)
    → is_refusal (check t username client_ip now).0 ≡ (
        ltb 0 t.max_attempts
        && (ltb 0 t.lockout
            && (is_locked t now (get t.failures (codes "user:" ++ lower username))
                || is_ip_locked t now client_ip)))
unfolding enabled
check_refuses t username client_ip now =
    check_refuses_blocked t username client_ip now ∙ rw keys-is_locked (ground arith)

-- One blocking entry still blocks, a whole number of seconds later that it announced.
still_blocked :
    (t : LoginThrottle) (now s : ℕ) (e : Option (ℕ × ℕ))
    → judge t now e ≡ blocked s
    → 2 ≤ s
    → is_blocked (judge t (now + s * second) e) ≡ true
unfolding judge is_blocked is_stale retry_after
still_blocked t now s none h le = cc
still_blocked t now s (some (count, last)) h le =
    let open_ : ltb t.lockout (now - last) ≡ false = ground arith in
    let reached : leb t.max_attempts count ≡ true = ground arith in
    let announced : max ((t.lockout + last - now) / second) 1 ≡ s = ground arith in
    let early : ltb t.lockout (now + s * second - last) ≡ false = le→ltb _ _ (omega arith) in
    rw (early, reached)

module _ (k : Text) (ks : List Text) (t : LoginThrottle) (now : ℕ) where
  check_keys-untouched :
      judge t now (get t.failures k) ≡ untouched → check_keys t now (k ∷ ks) ≡ check_keys t now ks
  unfolding check_keys
  check_keys-untouched e = rw (e, check_keys)

  check_keys-stale :
      judge t now (get t.failures k) ≡ stale
      → check_keys t now (k ∷ ks) ≡ check_keys (record t { failures = remove t.failures k }) now ks
  unfolding check_keys
  check_keys-stale e = rw (e, check_keys)

  check_keys-blocked :
      (s : ℕ)
      → judge t now (get t.failures k) ≡ blocked s
      → check_keys t now (k ∷ ks) ≡ (login_throttled s, t)
  unfolding check_keys
  check_keys-blocked s e = rw (e, check_keys)

-- Some key of the call blocks at a time, after the call.
abbrev BlocksSome : List Text → ℕ → Verdict × LoginThrottle → Type 0
BlocksSome ks later p = any (blocks p.1 later) ks ≡ true

any_later :
    (ks : List Text) (t : LoginThrottle) (now s : ℕ)
    → (check_keys t now ks).0 ≡ login_throttled s
    → 2 ≤ s
    → BlocksSome ks (now + s * second) (check_keys t now ks)
any_later [] t now s e le = unfold check_keys in cc e
any_later (k ∷ ks) t now s e le = elim (Found-cases (judge t now (get t.failures k))) [
  | inl none_found ↦
      let q = check_keys-untouched k ks t now none_found in
      subst (BlocksSome (k ∷ ks) (now + s * second)) (sym q)
        (or-true _ _ (any_later ks t now s (rw q at e) le))
  | inr (inl old) ↦
      let q = check_keys-stale k ks t now old in
      subst (BlocksSome (k ∷ ks) (now + s * second)) (sym q) (
        or-true _ _
          (any_later ks (record t { failures = remove t.failures k }) now s (rw q at e) le))
  | inr (inr (u, hit)) ↦
      let q = check_keys-blocked k ks t now u hit in
      let e' : login_throttled u ≡ login_throttled s = rw q at e in
      let same : u ≡ s = ground arith in
      subst (BlocksSome (k ∷ ks) (now + s * second)) (sym q)
        (true-or _ _ (still_blocked t now s (get t.failures k) (hit ∙ ap blocked same) le))
]

limits-check_keys :
    (ks : List Text) (t : LoginThrottle) (now : ℕ)
    → ((check_keys t now ks).1.max_attempts ≡ t.max_attempts)
      × ((check_keys t now ks).1.lockout ≡ t.lockout)
unfolding check_keys
limits-check_keys [] t now = (refl, refl)
limits-check_keys (k ∷ ks) t now =
    let a = limits-check_keys ks t now in
    let b = limits-check_keys ks (record t { failures = remove t.failures k }) now in ground arith

-- If `check` refuses with `retry_after_seconds` of two or more, then a second `check` that waits
-- exactly that many seconds is refused too: the announced wait is rounded down.
pub refused_after_wait :
    (t : LoginThrottle) (username : Text) (client_ip : Option Text) (now s : ℕ)
    → (check t username client_ip now).0 ≡ login_throttled s
    → 2 ≤ s
    → is_refusal (check (check t username client_ip now).1 username client_ip (now + s * second)).0
      ≡ true
refused_after_wait t username client_ip now s e le = elim (Bool-cases (enabled t)) [
  | inl on ↦
      let ks = keys username client_ip in
      let e' : (check_keys t now ks).0 ≡ login_throttled s = unfold check in rw (on, check) at e in
      let lim = limits-check_keys ks t now in
      let t' = (check_keys t now ks).1 in
      let on' : enabled t' ≡ true = unfold enabled in ground arith in
      let again : any (blocks t' (now + s * second)) ks ≡ true = any_later ks t now s e' le in
      rw check_refuses_blocked (unfold check in rw on (rw (on', again)))
  | inr off ↦ absurd (unfold check in ground arith)
]
