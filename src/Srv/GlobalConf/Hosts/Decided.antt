-- ===== src/Srv/GlobalConf/Hosts/Decided.antt =====
-- What a verdict says of the address: for any way to match that agrees with `covers`.
use samfscon.Prelude.{
  Bool, true, false, Option, none, some, List, [], ◌∷◌, ◌≡◌, refl, ◌⊎◌, inl, inr, any, arith,
  Bool-cases,
}
use samfscon.Prelude.Text.{Text}
use samfscon.Srv.GlobalConf.Hosts.{
  IpLibrary, HostEntry, covered, excluded, covers, judge, judge_entry, verdict_of,
  verdict_without_cover, verdict_on, is_except,
}

verdict_of-covered : (j : Option (List Text)) → verdict_of j ≡ covered → j ≡ none
unfolding verdict_of verdict_without_cover
verdict_of-covered none h = refl
verdict_of-covered (some []) h = absurd (cc h)
verdict_of-covered (some (t ∷ ts)) h = absurd (cc h)

verdict_of-excluded : (j : Option (List Text)) → verdict_of j ≡ excluded → j ≡ some []
unfolding verdict_of verdict_without_cover
verdict_of-excluded none h = absurd (cc h)
verdict_of-excluded (some []) h = refl
verdict_of-excluded (some (t ∷ ts)) h = absurd (cc h)

module _ (matches : HostEntry → Bool) (e : HostEntry) (es : List HostEntry) where
  judge_entry-covered :
      (c : Option Bool) (rest : Option (List Text))
      → ((b : Bool) → c ≡ some b → matches e ≡ b)
      → (rest ≡ none → any matches es ≡ true)
      → judge_entry e.text c rest ≡ none
      → any matches (e ∷ es) ≡ true
  unfolding judge_entry
  judge_entry-covered (some true) rest says later k = rw (says true refl) refl
  judge_entry-covered (some false) rest says later k = rw (says false refl) (later k)
  judge_entry-covered none none says later k = let rest = later refl in ground arith
  judge_entry-covered none (some ts) says later k = absurd (cc k)

  judge_entry-excluded :
      (c : Option Bool) (rest : Option (List Text))
      → ((b : Bool) → c ≡ some b → matches e ≡ b)
      → (rest ≡ some [] → any matches es ≡ false)
      → judge_entry e.text c rest ≡ some []
      → any matches (e ∷ es) ≡ false
  unfolding judge_entry
  judge_entry-excluded (some true) rest says later k = absurd (cc k)
  judge_entry-excluded (some false) rest says later k = rw (says false refl) (later k)
  judge_entry-excluded none none says later k = absurd (cc k)
  judge_entry-excluded none (some ts) says later k = absurd (cc k)

module _ {A N : Type 0} (ip : IpLibrary A N) (address : Text) (matches : HostEntry → Bool) where
  -- Where `covers` decides, it says what the server does.
  abbrev pub Agrees : Type 0
  Agrees = (e : HostEntry) (b : Bool) → covers ip e address ≡ some b → matches e ≡ b

  module _ (agrees : Agrees) where
    judge-covered : (es : List HostEntry) → judge ip es address ≡ none → any matches es ≡ true
    unfolding judge
    judge-covered [] h = absurd (cc h)
    judge-covered (e ∷ es) h =
        judge_entry-covered matches e es (covers ip e address) (judge ip es address) (agrees e)
          (judge-covered es) h

    judge-excluded : (es : List HostEntry) → judge ip es address ≡ some [] → any matches es ≡ false
    unfolding judge
    judge-excluded [] h = refl
    judge-excluded (e ∷ es) h =
        judge_entry-excluded matches e es (covers ip e address) (judge ip es address) (agrees e)
          (judge-excluded es) h

    pub verdict_on-covered :
        (es : List HostEntry)
        → verdict_on ip es (some address) ≡ covered
        → (es ≡ []) ⊎ (any matches es ≡ true)
    unfolding verdict_on
    verdict_on-covered [] h = inl refl
    verdict_on-covered (e ∷ es) h = elim (Bool-cases (any is_except (e ∷ es))) [
      | inl excepting ↦ absurd (cc (rw excepting at h))
      | inr plain ↦
          inr (
            judge-covered (e ∷ es) (verdict_of-covered (judge ip (e ∷ es) address) (rw plain at h)))
    ]

    pub verdict_on-excluded :
        (es : List HostEntry) → verdict_on ip es (some address) ≡ excluded → any matches es ≡ false
    unfolding verdict_on
    verdict_on-excluded [] h = absurd (cc h)
    verdict_on-excluded (e ∷ es) h = elim (Bool-cases (any is_except (e ∷ es))) [
      | inl excepting ↦ absurd (cc (rw excepting at h))
      | inr plain ↦
          judge-excluded (e ∷ es) (verdict_of-excluded (judge ip (e ∷ es) address) (rw plain at h))
    ]
