-- ===== src/Srv/GlobalConf/HostsCheck/Lockout.antt =====
-- A check that passes without a confirmation leaves the console its access.
use samfscon.Prelude.{
  Bool, true, false, Option, some, List, [], ◌∷◌, ◌≡◌, refl, inl, inr, if◌then◌else◌, ◌&&◌, ◌||◌,
  not, any,
}
use samfscon.Prelude.Text.{Text, strip, lstrip_if, rstrip_if}
use samfscon.Prelude.Words.{words}
use samfscon.Prelude.Dict
use samfscon.Prelude.Dict.{Dict}
use samfscon.Srv.GlobalConf.Validate.{is_confirmed}
use samfscon.Srv.GlobalConf.Hosts.{
  IpLibrary, HostEntry, Reason, own_address_unknown, except_clause, entries_not_decidable, Verdict,
  covered, excluded, undecidable, hosts_verdict, host_entries,
}
use samfscon.Srv.GlobalConf.Hosts.Decided.{Agrees, verdict_on-covered, verdict_on-excluded}
use samfscon.Srv.GlobalConf.HostsCheck.{
  HostsCheck, passes, hosts_allow, hosts_deny, allow_undecidable, deny_undecidable, address_unknown,
  effective, token_for, unless_confirmed, judge_allow, judge_deny, check_lists, check_hosts,
}

-- The rule of Samba for lists without EXCEPT: who is on the allow list is admitted; who is not is
-- refused by an allow list alone, and otherwise by a deny list that names it.
pub admits : (HostEntry → Bool) → List HostEntry → List HostEntry → Bool
admits matches [] deny = not (any matches deny)
admits matches (a ∷ allow) [] = any matches (a ∷ allow)
admits matches (a ∷ allow) (d ∷ deny) = any matches (a ∷ allow) || not (any matches (d ∷ deny))

admits-allowed :
    (matches : HostEntry → Bool) (allow deny : List HostEntry)
    → any matches allow ≡ true
    → admits matches allow deny ≡ true
unfolding admits
admits-allowed matches [] deny h = absurd (cc h)
admits-allowed matches (a ∷ allow) [] h = h
admits-allowed matches (a ∷ allow) (d ∷ deny) h = rw h refl

-- None of the three tokens is among the confirmations.
abbrev pub IsUnconfirmed : List Text → Type 0
IsUnconfirmed confirm =
    (is_confirmed confirm allow_undecidable ≡ false)
    × (is_confirmed confirm deny_undecidable ≡ false)
    × (is_confirmed confirm address_unknown ≡ false)

module _ (confirm : List Text) where
  not_passed :
      (option value token : Text) (reason : Reason) (entries : List Text)
      → is_confirmed confirm token ≡ false
      → is_confirmed confirm address_unknown ≡ false
      → unless_confirmed confirm option value token reason entries ≡ passes
      → ⊥
  unfolding unless_confirmed token_for
  not_passed option value token own_address_unknown entries h k e = absurd (cc (rw k at e))
  not_passed option value token except_clause entries h k e = absurd (cc (rw h at e))
  not_passed option value token entries_not_decidable entries h k e = absurd (cc (rw h at e))

  module _ (unconfirmed : IsUnconfirmed confirm) where
    judge_allow-passes :
        (value : Text) (v : Verdict) → judge_allow confirm value v ≡ passes → v ≡ covered
    unfolding judge_allow
    judge_allow-passes value covered e = refl
    judge_allow-passes value excluded e = absurd (cc e)
    judge_allow-passes value (undecidable reason entries) e = absurd (
        not_passed hosts_allow value allow_undecidable reason entries unconfirmed.0 unconfirmed.2 e)

    judge_deny-passes :
        (value : Text) (v : Verdict) → judge_deny confirm value v ≡ passes → v ≡ excluded
    unfolding judge_deny
    judge_deny-passes value covered e = absurd (cc e)
    judge_deny-passes value excluded e = refl
    judge_deny-passes value (undecidable reason entries) e =
        absurd (
          not_passed hosts_deny value deny_undecidable reason entries unconfirmed.1 unconfirmed.2 e)

changed-passes :
    (allow deny : Bool) (check : HostsCheck)
    → (allow || deny) ≡ true
    → (if not allow && not deny then passes else check) ≡ passes
    → check ≡ passes
changed-passes true deny check h e = e
changed-passes false true check h e = e
changed-passes false false check h e = absurd (cc h)

module _ {A N : Type 0} (ip : IpLibrary A N) (confirm : List Text) (address : Text)
    (matches : HostEntry → Bool) (agrees : Agrees ip address matches)
    (unconfirmed : IsUnconfirmed confirm) where
  check_lists-admits :
      (allow deny : Text)
      → (host_entries ip allow ≡ [] → allow ≡ [])
      → check_lists ip confirm (some address) allow deny ≡ passes
      → admits matches (host_entries ip allow) (host_entries ip deny) ≡ true
  unfolding check_lists hosts_verdict host_entries strip words lstrip_if rstrip_if admits
  check_lists-admits [] [] real e = refl
  check_lists-admits [] (d ∷ deny) real e =
      rw
        (verdict_on-excluded ip address matches agrees (host_entries ip (d ∷ deny))
          (judge_deny-passes confirm unconfirmed (d ∷ deny) _ e))
        refl
  check_lists-admits (a ∷ allow) deny real e =
      elim (verdict_on-covered ip address matches agrees (host_entries ip (a ∷ allow))
        (judge_allow-passes confirm unconfirmed (a ∷ allow) _ e)) [
          | inl empty ↦ absurd (cc (real empty))
          | inr matched ↦
              admits-allowed matches (host_entries ip (a ∷ allow)) (host_entries ip deny) matched
        ]

  -- Where the check passes for a change of one of the two lists, without any of the three
  -- confirmations and at a known address, the lists as they will stand admit the console, by the
  -- rule of Samba and any way to match an entry that agrees with `covers` where that decides. The
  -- allow list, if it is not empty, has an entry.
  pub check_hosts-admits :
      (checked : Dict (Option Text)) (stored : Dict Text)
      → (Dict.has checked hosts_allow || Dict.has checked hosts_deny) ≡ true
      → (host_entries ip (effective checked stored hosts_allow) ≡ []
          → effective checked stored hosts_allow ≡ [])
      → check_hosts ip confirm (some address) checked stored ≡ passes
      → admits matches
          (host_entries ip (effective checked stored hosts_allow))
          (host_entries ip (effective checked stored hosts_deny))
        ≡ true
  unfolding check_hosts
  check_hosts-admits checked stored changed real e =
      check_lists-admits (effective checked stored hosts_allow)
        (effective checked stored hosts_deny) real
        (changed-passes (Dict.has checked hosts_allow) (Dict.has checked hosts_deny) _ changed e)
