-- ===== src/Srv/GlobalConf/Write/Guarded.antt =====
-- What holds of each change that `write` stores.
use samfscon.Prelude.{
  Bool, true, false, Option, none, some, List, [], ◌⊎◌, inl, inr, ◌≡◌, ◌∷◌, ◌≤◌, ℕ, All, sym,
  ltb→le, refl, ◌||◌, Bool-cases, not, subst, ◌∙◌,
}
use samfscon.Prelude.Text.{Text, codes, eq_text, upper, strip}
use samfscon.Prelude.Dict
use samfscon.Prelude.Dict.{Dict}
use samfscon.Srv.GlobalConf.Dialect.{max_protocol, given, dialect_index, is_before, is_below_floor}
use samfscon.Srv.GlobalConf.Validate.{Outcome, accept, refuse, validate}
use samfscon.Srv.GlobalConf.Validate.Allowed.{IsAllowed, validate-IsAllowed}
use samfscon.Srv.GlobalConf.Validate.Window.{allowed-HasIndex, max_protocol-TakesDialects}
use samfscon.Srv.GlobalConf.Write.Verified.{IsTrue, verify-IsTrue}
use samfscon.Srv.GlobalConf.Hosts.{IpLibrary, HostEntry, host_entries}
use samfscon.Srv.GlobalConf.Hosts.Decided.{Agrees}
use samfscon.Srv.GlobalConf.HostsCheck.{
  HostsCheck, passes, allow_excludes_console, deny_includes_console, confirmation_needed,
  check_hosts, hosts_allow, hosts_deny, effective,
}
use samfscon.Srv.GlobalConf.HostsCheck.Lockout.{admits, IsUnconfirmed, check_hosts-admits}
use samfscon.Srv.GlobalConf.Live.{LiveValue}
use samfscon.Srv.GlobalConf.Write.{
  GlobalConfig, Request, Verification, written, breaks_floor, verify, store, write_section,
  after_hosts, write_checked, write,
}

-- The first of two places in the order of the dialects is known and not before the second, if that
-- is known.
abbrev NotBefore : Option ℕ → Option ℕ → Type 0
NotBefore high none = Unit
NotBefore none (some i) = ⊥
NotBefore (some j) (some i) = i ≤ j

-- The highest dialect that is set is not older than the lowest one of the console.
abbrev pub IsNotOlder : Option Text → Option (Option Text) → Type 0
IsNotOlder none high = Unit
IsNotOlder (some low) none = Unit
IsNotOlder (some low) (some none) = Unit
IsNotOlder (some low) (some (some high)) = NotBefore (dialect_index high) (dialect_index low)

-- The section is there, or it is created because that was asked for.
abbrev pub IsCreatedOnRequest : Bool → Option Bool → Bool → Type 0
IsCreatedOnRequest true present asked = (present ≡ some false) × (asked ≡ true)
IsCreatedOnRequest false present asked = present ≡ some true

section_of :
    (created : Bool) (present : Option Bool) (asked : Bool)
    → present ≡ some (not created)
    → (created ≡ true → asked ≡ true)
    → IsCreatedOnRequest created present asked
section_of true present asked e h = (e, h refl)
section_of false present asked e h = e

is_before-NotBefore :
    (high low : Option ℕ)
    → (j : ℕ) × (high ≡ some j)
    → is_before high low ≡ false
    → NotBefore high low
unfolding is_before
is_before-NotBefore high none known e = tt
is_before-NotBefore none (some i) (j, known) e = cc known
is_before-NotBefore (some j) (some i) known e = ltb→le j i e

dialect_index_empty : dialect_index [] ≡ none
unfolding dialect_index eq_text upper strip
dialect_index_empty = refl

floor-IsNotOlder :
    (mode : Text) (confirm : List Text) (checked : Dict (Option Text))
    → All (IsAllowed mode confirm) checked
    → (floor : Option Text) → breaks_floor floor (given (Dict.get checked max_protocol)) ≡ false
    → IsNotOlder floor (Dict.get checked (codes "server max protocol"))
floor-IsNotOlder mode confirm checked allowed floor e =
    step floor (Dict.get checked max_protocol) refl e
  where
    known :
        (high : Text)
        → Dict.get checked max_protocol ≡ some (some high)
        → (j : ℕ) × (dialect_index high ≡ some j)
    known high q =
        allowed-HasIndex mode confirm max_protocol high max_protocol-TakesDialects
          (Dict.get-All (IsAllowed mode confirm) checked max_protocol (some high) allowed q)

    step :
        (low : Option Text) (high : Option (Option Text))
        → Dict.get checked max_protocol ≡ high
        → breaks_floor low (given high) ≡ false
        → IsNotOlder low high
    step none high q h = tt
    step (some low) none q h = tt
    step (some low) (some none) q h = tt
    step (some []) (some (some high)) q h = rw dialect_index_empty tt
    step (some (c ∷ low)) (some (some high)) q h =
        is_before-NotBefore (dialect_index high) (dialect_index (c ∷ low)) (known high q)
          (unfold breaks_floor given is_below_floor in h)

module _ {A N R E : Type 0} (ip : IpLibrary A N) (write_options : Dict (Option Text) → E ⊎ R)
    (live : Option (List LiveValue)) where
  -- The tests that a change has passed when it is stored, and the calls after them.
  record Passed (may_write : Bool) (current : GlobalConfig) (request : Request)
      (checked : Dict (Option Text)) (applied : R) (created : Bool) (v : Verification)
      : Type 0 where
    permitted : may_write ≡ true
    validated : validate current.mode request.confirm request.options ≡ accept checked
    above_floor :
        breaks_floor request.console_min_protocol (given (Dict.get checked max_protocol)) ≡ false
    hosts_pass :
        check_hosts ip request.confirm current.own_client_address checked current.stored ≡ passes
    section_known : current.section_present ≡ some (not created)
    creation_asked : created ≡ true → request.create_section ≡ true
    stored : write_options checked ≡ inr applied
    verified : v ≡ verify checked live

  -- What holds of a change that is stored.
  pub record Guarded (may_write : Bool) (current : GlobalConfig) (request : Request)
      (checked : Dict (Option Text)) (applied : R) (created : Bool) (v : Verification)
      : Type 0 where
    pub permitted : may_write ≡ true
    pub allowed : All (IsAllowed current.mode request.confirm) checked
    pub above_floor :
        IsNotOlder request.console_min_protocol (Dict.get checked (codes "server max protocol"))
    pub section : IsCreatedOnRequest created current.section_present request.create_section
    pub stored : write_options checked ≡ inr applied
    pub verified : IsTrue (Dict.get checked (codes "server string")) live v

  module _ (may_write : Bool) (current : GlobalConfig) (request : Request)
      (checked : Dict (Option Text)) (applied : R) (created : Bool) (v : Verification) where
    store-written :
        (c : Dict (Option Text)) (made : Bool) (result : E ⊎ R)
        → store ip write_options live c made result ≡ written checked applied created v
        → (result ≡ inr applied) × (c ≡ checked) × (made ≡ created) × (v ≡ verify c live)
    unfolding store
    store-written c made (inl x) e = absurd (cc e)
    store-written c made (inr a) e = (cc e, cc e, cc e, cc e)

    section-written :
        (section : Option Bool) (create : Bool) (c : Dict (Option Text))
        → write_section ip write_options live section create c ≡ written checked applied created v
        → (c ≡ checked)
          × (section ≡ some (not created))
          × (created ≡ true → create ≡ true)
          × (write_options c ≡ inr applied)
          × (v ≡ verify c live)
    unfolding write_section
    section-written none create c e = absurd (cc e)
    section-written (some true) create c e =
        let (called, same, made, seen) = store-written c false (write_options c) e in
        (same, rw (← made) refl, λ k. absurd (cc (made ∙ k)), called, seen)
    section-written (some false) true c e =
        let (called, same, made, seen) = store-written c true (write_options c) e in
        (same, rw (← made) refl, λ k. refl, called, seen)
    section-written (some false) false c e = absurd (cc e)

    hosts-written :
        (h : HostsCheck) (c : Dict (Option Text))
        → after_hosts ip write_options live h current request c ≡ written checked applied created v
        → (h ≡ passes)
          × (write_section ip write_options live current.section_present request.create_section c
              ≡ written checked applied created v)
    unfolding after_hosts
    hosts-written passes c e = (refl, e)
    hosts-written (allow_excludes_console value) c e = absurd (cc e)
    hosts-written (deny_includes_console value) c e = absurd (cc e)
    hosts-written (confirmation_needed option value entries reason token) c e = absurd (cc e)

    checked-written :
        may_write ≡ true
        → (outcome : Outcome (Dict (Option Text)))
        → validate current.mode request.confirm request.options ≡ outcome
        → write_checked ip write_options live current request outcome
          ≡ written checked applied created v
        → Passed may_write current request checked applied created v
    unfolding write_checked
    checked-written permitted (refuse r) valid e = absurd (cc e)
    checked-written permitted (accept c) valid e =
        elim (Bool-cases
          (breaks_floor request.console_min_protocol (given (Dict.get c max_protocol)))) [
            | inl below ↦ absurd (cc (rw below at e))
            | inr above ↦
                let (hosts, rest) =
                  hosts-written
                    (check_hosts ip request.confirm current.own_client_address c current.stored) c
                    (rw above at e) in
                let (same, section, asked, called, seen) =
                  section-written current.section_present request.create_section c rest in
                subst (λ x. Passed may_write current request x applied created v) same
                  (record {
                    permitted = permitted;
                    validated = valid;
                    above_floor = above;
                    hosts_pass = hosts;
                    section_known = section;
                    creation_asked = asked;
                    stored = called;
                    verified = seen;
                  })
          ]

    write-Passed :
        write ip write_options live may_write current request ≡ written checked applied created v
        → Passed may_write current request checked applied created v
    unfolding write
    write-Passed e = elim (Bool-cases may_write) [
      | inr refused ↦ absurd (cc (rw refused at e))
      | inl permitted ↦
          checked-written permitted (validate current.mode request.confirm request.options) refl
            (rw permitted at e)
    ]

    -- What `write` stores is what it handed to the server, of options that are each allowed; the
    -- account may write. A highest dialect, if one is set, is not older than the console's lowest
    -- one, where that has a place in the order. The section is known to be there, or known to be
    -- absent and its creation asked for. What the verification says of `server string` is true: what
    -- was written, whether it has a variable, and what the server reports after the call.
    pub write-Guarded :
        write ip write_options live may_write current request ≡ written checked applied created v
        → Guarded may_write current request checked applied created v
    write-Guarded e =
        let p = write-Passed e in
        let allowed =
          validate-IsAllowed current.mode request.confirm request.options checked p.validated in
        record {
          permitted = p.permitted;
          allowed = allowed;
          above_floor =
              floor-IsNotOlder current.mode request.confirm checked allowed
                request.console_min_protocol p.above_floor;
          section =
              section_of created current.section_present request.create_section p.section_known
                p.creation_asked;
          stored = p.stored;
          verified =
              subst (IsTrue (Dict.get checked (codes "server string")) live) (sym p.verified)
                (verify-IsTrue checked live);
        }

    -- A change of `hosts allow` or `hosts deny` that `write` stores without any of the three
    -- confirmations, at a known address, leaves lists that admit the console, by the rule of Samba and
    -- any way to match an entry that agrees with `covers` where that decides. The allow list, if it
    -- is not empty, has an entry.
    pub write-admits :
        (address : Text) (matches : HostEntry → Bool)
        → Agrees ip address matches
        → IsUnconfirmed request.confirm
        → current.own_client_address ≡ some address
        → (Dict.has checked hosts_allow || Dict.has checked hosts_deny) ≡ true
        → (host_entries ip (effective checked current.stored hosts_allow) ≡ []
            → effective checked current.stored hosts_allow ≡ [])
        → write ip write_options live may_write current request ≡ written checked applied created v
        → admits matches
            (host_entries ip (effective checked current.stored hosts_allow))
            (host_entries ip (effective checked current.stored hosts_deny))
          ≡ true
    write-admits address matches agrees unconfirmed known changed real e =
        check_hosts-admits ip request.confirm address matches agrees unconfirmed checked
          current.stored changed real
          (subst (λ o. check_hosts ip request.confirm o checked current.stored ≡ passes) known
            (write-Passed e).hosts_pass)
