-- ===== src/Auth/Krb5/Known.antt =====
-- What the file of the Kerberos library says of the realms that were named.
use samfscon.Prelude.{
  ℕ, Bool, true, false, Option, none, some, List, [], ◌∷◌, ◌++◌, ◌≡◌, refl, sym, ap, ◌∙◌,
  if◌then◌else◌, ◌||◌, ◌&&◌, all, Bool-cases, inl, inr, arith, subst,
}
use samfscon.Prelude.Text.{Text, eq_text, eq_text_iff, eq_text_refl, upper, strip, is_empty}
use samfscon.Prelude.Dict
use samfscon.Prelude.Dict.{Dict}
use samfscon.Auth.Krb5.{
  Configuration, World, kdcs_in, kdcs_of, write, is_among, add_new, from_keys, nonempty,
  record_realm, ensure_known, ensure_named, ensure_realm,
}

-- Whether a KDC of a realm is recorded.
unfoldable pub knows : World → Text → Text → Bool
knows w realm kdc = is_among (kdcs_of w.configuration.realms realm) kdc

is_among-append :
    (xs ys : List Text) (k : Text) → is_among (xs ++ ys) k ≡ (is_among xs k || is_among ys k)
unfolding is_among
is_among-append [] ys k = refl
is_among-append (x ∷ xs) ys k = ground (arith, is_among-append xs ys k)

is_among-add_new :
    (found : List Text) (t k : Text)
    → is_among (add_new found t) k ≡ (is_among found k || eq_text t k)
unfolding add_new
is_among-add_new found t k = elim (Bool-cases (is_among found t)) [
  | inl there ↦ elim (Bool-cases (eq_text t k)) [
    | inl same ↦
        let found_k : is_among found k ≡ true =
          subst (λ u. is_among found u ≡ true) ((eq_text_iff t k).0 same) there in
        rw (there, same, found_k) refl
    | inr other ↦ rw (there, other) (ground arith)
  ]
  | inr fresh ↦ rw fresh (is_among-append found (t ∷ []) k ∙ (unfold is_among in ground arith))
]

is_among-from_keys :
    (found ts : List Text) (k : Text)
    → is_among (from_keys found ts) k ≡ (is_among found k || is_among ts k)
unfolding from_keys is_among
is_among-from_keys found [] k = ground arith
is_among-from_keys found (t ∷ ts) k =
    is_among-from_keys (add_new found t) ts k ∙ ground (arith, is_among-add_new found t k)

is_among-nonempty :
    (ts : List Text) (c : ℕ) (k : Text) → is_among (nonempty ts) (c ∷ k) ≡ is_among ts (c ∷ k)
unfolding nonempty is_among is_empty eq_text
is_among-nonempty [] c k = refl
is_among-nonempty ([] ∷ ts) c k = is_among-nonempty ts c k
is_among-nonempty ((d ∷ t) ∷ ts) c k =
    ap (λ b. eq_text (d ∷ t) (c ∷ k) || b) (is_among-nonempty ts c k)

kdcs_of-put :
    (m : Dict (List Text)) (n r : Text) (kdcs : List Text)
    → kdcs_of (Dict.put m n kdcs) r ≡ (if eq_text n r then kdcs else kdcs_of m r)
unfolding kdcs_of kdcs_in
kdcs_of-put m n r kdcs = ap kdcs_in (Dict.get-put m n r kdcs) ∙ step (eq_text n r)
  where
    step :
        (b : Bool)
        → kdcs_in (if b then some kdcs else Dict.get m r)
          ≡ (if b then kdcs else kdcs_in (Dict.get m r))
    step true = refl
    step false = refl

knows-write :
    (writable : Bool) (w : World) (c : Configuration) (r k : Text)
    → knows (write writable w c) r k ≡ is_among (kdcs_of c.realms r) k
unfolding write knows
knows-write true w c r k = refl
knows-write false w c r k = refl

all-among :
    (known ts : List Text) (k : Text)
    → all (is_among known) ts ≡ true
    → is_among ts k ≡ true
    → is_among known k ≡ true
unfolding is_among
all-among known [] k a h = absurd (cc h)
all-among known (t ∷ ts) k a h = elim (Bool-cases (eq_text t k)) [
  | inl same ↦
      subst (λ u. is_among known u ≡ true) ((eq_text_iff t k).0 same)
        (first (is_among known t) (all (is_among known) ts) a)
  | inr other ↦
      all-among known ts k (second (is_among known t) (all (is_among known) ts) a) (rw other at h)
]
  where
    first : (x y : Bool) → (x && y) ≡ true → x ≡ true
    first true y e = refl
    first false y e = absurd (cc e)

    second : (x y : Bool) → (x && y) ≡ true → y ≡ true
    second true y e = e
    second false y e = absurd (cc e)

merged-among :
    (existing kdcs : List Text) (k : Text)
    → is_among (from_keys [] (existing ++ kdcs)) k ≡ (is_among existing k || is_among kdcs k)
merged-among existing kdcs k =
    is_among-from_keys [] (existing ++ kdcs) k
    ∙ (unfold is_among in is_among-append existing kdcs k)

module _ (writable : Bool) (w : World) (n : Text) (kdcs : List Text) where
  -- After a realm is recorded with some KDCs.
  recorded : List Text → World
  recorded new = write writable w (record_realm w.configuration n new)

  recorded-knows :
      (new : List Text) (r k : Text)
      → knows (recorded new) r k
        ≡ is_among (if eq_text n r then new else kdcs_of w.configuration.realms r) k
  unfolding recorded record_realm
  recorded-knows new r k =
      knows-write writable w (record_realm w.configuration n new) r k
      ∙ ap (λ ks. is_among ks k) (kdcs_of-put w.configuration.realms n r new)

  recorded-keeps :
      (new : List Text) (r k : Text)
      → (is_among (kdcs_of w.configuration.realms n) k ≡ true → is_among new k ≡ true)
      → knows w r k ≡ true
      → knows (recorded new) r k ≡ true
  unfolding knows
  recorded-keeps new r k covers h = recorded-knows new r k ∙ elim (Bool-cases (eq_text n r)) [
    | inl same ↦ rw same (
        covers (
          subst (λ u. is_among (kdcs_of w.configuration.realms u) k ≡ true)
            (sym ((eq_text_iff n r).0 same)) h))
    | inr other ↦ rw other h
  ]

  recorded_new :
      (new : List Text) (k : Text) → is_among new k ≡ true → knows (recorded new) n k ≡ true
  recorded_new new k h = recorded-knows new n k ∙ rw (eq_text_refl n) h

  kdcs_before :
      (existing : Option (List Text))
      → Dict.get w.configuration.realms n ≡ existing
      → kdcs_of w.configuration.realms n ≡ kdcs_in existing
  unfolding kdcs_of
  kdcs_before existing e = ap kdcs_in e

  ensure_known-keeps :
      (existing : Option (List Text))
      → Dict.get w.configuration.realms n ≡ existing
      → (r k : Text) → knows w r k ≡ true
      → knows (ensure_known writable w n kdcs existing) r k ≡ true
  unfolding ensure_known recorded kdcs_in is_among
  ensure_known-keeps none e r k h =
      recorded-keeps kdcs r k (λ b. absurd (cc (rw (kdcs_before none e) at b))) h
  ensure_known-keeps (some existing) e r k h = elim (Bool-cases (all (is_among existing) kdcs)) [
    | inl known ↦ rw known h
    | inr new ↦ rw new (
        recorded-keeps (from_keys [] (existing ++ kdcs)) r k
          (λ b.
            let old : is_among existing k ≡ true =
              subst (λ ks. is_among ks k ≡ true) (kdcs_before (some existing) e) b in
            merged-among existing kdcs k ∙ rw old refl)
          h)
  ]

  ensure_known-knows :
      (existing : Option (List Text))
      → Dict.get w.configuration.realms n ≡ existing
      → (k : Text) → is_among kdcs k ≡ true
      → knows (ensure_known writable w n kdcs existing) n k ≡ true
  unfolding ensure_known recorded kdcs_in knows
  ensure_known-knows none e k h = recorded_new kdcs k h
  ensure_known-knows (some existing) e k h = elim (Bool-cases (all (is_among existing) kdcs)) [
    | inl known ↦ rw known (
        subst (λ ks. is_among ks k ≡ true) (sym (kdcs_before (some existing) e))
          (all-among existing kdcs k known h))
    | inr new ↦ rw new (
        recorded_new (from_keys [] (existing ++ kdcs)) k
          (merged-among existing kdcs k ∙ rw h (unfold is_among in ground arith)))
  ]

module _ (writable : Bool) (w : World) where
  ensure_named-keeps :
      (n : Text) (kdcs : List Text) (r k : Text)
      → knows w r k ≡ true
      → knows (ensure_named writable w n kdcs) r k ≡ true
  unfolding ensure_named
  ensure_named-keeps [] kdcs r k h = h
  ensure_named-keeps (c ∷ n) kdcs r k h =
      ensure_known-keeps writable w (c ∷ n) (from_keys [] (nonempty kdcs))
        (Dict.get w.configuration.realms (c ∷ n)) refl r k h

  ensure_named-knows :
      (d : ℕ) (n : Text) (kdcs : List Text) (c : ℕ) (k : Text)
      → is_among kdcs (c ∷ k) ≡ true
      → knows (ensure_named writable w (d ∷ n) kdcs) (d ∷ n) (c ∷ k) ≡ true
  unfolding ensure_named
  ensure_named-knows d n kdcs c k h =
      ensure_known-knows writable w (d ∷ n) (from_keys [] (nonempty kdcs))
        (Dict.get w.configuration.realms (d ∷ n)) refl (c ∷ k)
        (is_among-from_keys [] (nonempty kdcs) (c ∷ k)
          ∙ (unfold is_among in is_among-nonempty kdcs c k ∙ h))

  -- After `ensure_realm` each KDC of the call that is not empty is known for the realm under its
  -- normal name, if that is not empty, whether or not the file can be written.
  pub ensure_realm-knows :
      (realm : Text) (kdcs : List Text) (d : ℕ) (n : Text) (c : ℕ) (k : Text)
      → upper (strip realm) ≡ d ∷ n
      → is_among kdcs (c ∷ k) ≡ true
      → knows (ensure_realm writable w realm kdcs) (d ∷ n) (c ∷ k) ≡ true
  unfolding ensure_realm
  ensure_realm-knows realm kdcs d n c k named h = rw named (ensure_named-knows d n kdcs c k h)

  -- `ensure_realm` forgets nothing: each KDC that was known for a realm, the same or another, still
  -- is, whether or not the file can be written.
  pub ensure_realm-keeps :
      (realm : Text) (kdcs : List Text) (r k : Text)
      → knows w r k ≡ true
      → knows (ensure_realm writable w realm kdcs) r k ≡ true
  unfolding ensure_realm
  ensure_realm-keeps realm kdcs r k h = ensure_named-keeps (upper (strip realm)) kdcs r k h
