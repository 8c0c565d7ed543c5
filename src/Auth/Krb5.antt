-- ===== src/Auth/Krb5.antt =====
-- backend/samfscon/auth/krb5conf.py: the file of the Kerberos library that all sessions share. Whether
-- the file can be written is an argument of each call; log lines are left out.
pub mod Known
mod Tests
use samfscon.Prelude.{
  ℕ, Bool, true, false, Option, none, some, List, [], ◌∷◌, ◌++◌, if◌then◌else◌, ◌&&◌, not, any, all,
  map,
}
use samfscon.Prelude.Text.{Text, codes, eq_text, strip, lower, upper, is_empty}
use samfscon.Prelude.Dict
use samfscon.Prelude.Dict.{Dict}
use samfscon.Prelude.Sort.{sort, text_le}

-- The lines of `RealmEntry.render`
pub kdc_lines : List Text → List Text
kdc_lines [] = []
kdc_lines (k ∷ kdcs) = (codes "        kdc = " ++ k) ∷ kdc_lines kdcs

pub admin_lines : List Text → List Text
admin_lines [] = []
admin_lines (k ∷ kdcs) = (codes "        admin_server = " ++ k) ∷ []

-- `RealmEntry.render`, as its lines
pub realm_lines : Text → List Text → List Text
unfolding kdc_lines admin_lines
realm_lines realm kdcs =
    (codes "    " ++ (realm ++ codes " = {"))
    ∷ (kdc_lines kdcs ++ (admin_lines kdcs ++ (codes "    }" ∷ [])))

-- `Krb5Configuration`, with the realms and their KDCs
pub record Configuration : Type 0 where
  pub ticket_lifetime : Text
  pub renew_lifetime : Text
  pub default_ccache_dir : Option Text
  pub realms : Dict (List Text)
  pub default_realm : Option Text

-- The configuration, what is in the file, and whether the process was pointed at it.
pub record World : Type 0 where
  pub configuration : Configuration
  pub file : Option Text
  pub is_applied : Bool

pub kdcs_in : Option (List Text) → List Text
kdcs_in none = []
kdcs_in (some kdcs) = kdcs

pub kdcs_of : Dict (List Text) → Text → List Text
unfolding kdcs_in
kdcs_of realms realm = kdcs_in (Dict.get realms realm)

-- `known_realms`
pub known_realms : Configuration → List Text
known_realms c = sort text_le (map (λ (r : Text × List Text). r.0) c.realms)

pub realms_lines : Dict (List Text) → List Text → List Text
unfolding realm_lines kdcs_of
realms_lines realms [] = []
realms_lines realms (r ∷ names) = realm_lines r (kdcs_of realms r) ++ realms_lines realms names

pub domain_lines : List Text → List Text
domain_lines [] = []
domain_lines (r ∷ names) =
    (codes "    ." ++ (lower r ++ (codes " = " ++ r)))
    ∷ ((codes "    " ++ (lower r ++ (codes " = " ++ r))) ∷ domain_lines names)

pub default_lines : Option Text → List Text
default_lines none = []
default_lines (some []) = []
default_lines (some (c ∷ r)) = (codes "    default_realm = " ++ (c ∷ r)) ∷ []

pub ccache_lines : Option Text → List Text
ccache_lines none = []
ccache_lines (some dir) =
    (codes "    default_ccache_name = FILE:" ++ (dir ++ codes "/default")) ∷ []

pub section_lines : Dict (List Text) → List Text → List Text
unfolding realms_lines domain_lines
section_lines realms [] = []
section_lines realms (r ∷ names) =
    []
    ∷ (codes "[realms]"
        ∷ (realms_lines realms (r ∷ names)
            ++ ([] ∷ (codes "[domain_realm]" ∷ domain_lines (r ∷ names)))))

-- Each line with the end of a line, as `"\n".join(lines) + "\n"`.
pub unlines : List Text → Text
unlines [] = []
unlines (l ∷ lines) = l ++ (10 ∷ unlines lines)

-- `Krb5Configuration.render`
pub render : Configuration → Text
unfolding known_realms default_lines ccache_lines section_lines unlines
render c = unlines (
    codes "# Generated by SAMFSCON. Edits are overwritten."
    ∷ (codes "[libdefaults]"
        ∷ (default_lines c.default_realm
            ++ ((codes "    dns_lookup_realm = false"
                  ∷ codes "    dns_lookup_kdc = true"
                  ∷ codes "    rdns = false"
                  ∷ codes "    forwardable = true"
                  ∷ codes "    renewable = true"
                  ∷ (codes "    ticket_lifetime = " ++ c.ticket_lifetime)
                  ∷ (codes "    renew_lifetime = " ++ c.renew_lifetime)
                  ∷ [])
                ++ (ccache_lines c.default_ccache_dir
                    ++ section_lines c.realms (known_realms c))))))

-- `_write`, of the configuration after a change
pub write : Bool → World → Configuration → World
unfolding render
write writable w c =
    if writable
    then record { configuration = c; file = some (render c); is_applied = true }
    else record w { configuration = c }

pub is_among : List Text → Text → Bool
is_among texts t = any (λ u. eq_text u t) texts

-- `dict.fromkeys` of the entries that are not empty: each once, in their order.
pub add_new : List Text → Text → List Text
add_new found t = if is_among found t then found else found ++ t ∷ []

pub from_keys : List Text → List Text → List Text
unfolding add_new
from_keys found [] = found
from_keys found (t ∷ texts) = from_keys (add_new found t) texts

pub nonempty : List Text → List Text
nonempty [] = []
nonempty (t ∷ texts) = let rest = nonempty texts in if is_empty t then rest else t ∷ rest

pub default_after : Option Text → Text → Option Text
default_after none realm = some realm
default_after (some d) realm = some d

pub record_realm : Configuration → Text → List Text → Configuration
unfolding default_after
record_realm c realm kdcs = record c {
  realms = Dict.put c.realms realm kdcs;
  default_realm = default_after c.default_realm realm;
}

-- The realm is known with some KDCs, or not.
pub ensure_known : Bool → World → Text → List Text → Option (List Text) → World
unfolding write record_realm from_keys
ensure_known writable w realm kdcs none = write writable w (record_realm w.configuration realm kdcs)
ensure_known writable w realm kdcs (some existing) =
    if all (is_among existing) kdcs
    then w
    else write writable w (record_realm w.configuration realm (from_keys [] (existing ++ kdcs)))

-- `ensure_realm`, of the normal name of the realm
pub ensure_named : Bool → World → Text → List Text → World
unfolding ensure_known nonempty from_keys
ensure_named writable w [] kdcs = w
ensure_named writable w (c ∷ realm) kdcs =
    ensure_known writable w (c ∷ realm) (from_keys [] (nonempty kdcs))
      (Dict.get w.configuration.realms (c ∷ realm))

pub ensure_realm : Bool → World → Text → List Text → World
unfolding ensure_named
ensure_realm writable w realm kdcs = ensure_named writable w (upper (strip realm)) kdcs

pub is_default : Option Text → Text → Bool
is_default none realm = false
is_default (some d) realm = eq_text d realm

pub with_realm : Dict (List Text) → Text → Dict (List Text)
with_realm realms realm = if Dict.has realms realm then realms else Dict.put realms realm []

pub set_default_named : Bool → World → Text → World
unfolding write is_default with_realm
set_default_named writable w [] = w
set_default_named writable w (c ∷ realm) =
    if is_default w.configuration.default_realm (c ∷ realm)
    then w
    else write writable w (record w.configuration {
      realms = with_realm w.configuration.realms (c ∷ realm);
      default_realm = some (c ∷ realm);
    })

-- `set_default_realm`
pub set_default_realm : Bool → World → Text → World
unfolding set_default_named
set_default_realm writable w realm = set_default_named writable w (upper (strip realm))
