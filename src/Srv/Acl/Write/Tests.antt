-- ===== src/Srv/Acl/Write/Tests.antt =====
-- A descriptor of whole SIDs is made without a domain.
use samfscon.Prelude.{true, false, none, some, [], ◌∷◌, ◌≡◌, refl, ◌⊎◌, inr}
use samfscon.Prelude.Text.{Text, codes}
use samfscon.Srv.Acl.Entry.{Ace, allow, SecurityDescriptor, build}
use samfscon.Srv.Acl.Parse.Bodies.{read_back_all}
use samfscon.Srv.Acl.Write.{take_ownership, not_sent, no_dacl}
use samfscon.Srv.Acl.Write.Owner.{take_ownership_refused}

abbrev everyone : Ace
everyone = record {
  trustee = codes "S-1-1-0";
  kind = allow;
  mask = 2032127;
  flags = 3;
  raw_rights = codes "FA";
  understood = true;
}

abbrev written : SecurityDescriptor
written = record { sddl = []; owner = none; group = none; aces = everyone ∷ []; protected = false }

abbrev read : SecurityDescriptor
read = record {
  sddl = build written;
  owner = none;
  group = none;
  aces = read_back_all written.aces;
  protected = false;
}

-- A parser that takes every text.
abbrev keep_text : Text → Text → Text ⊎ Text
keep_text sddl domain = inr sddl

take_ownership_refused_example :
    take_ownership keep_text (some (codes "S-1-5-21-1-2-3")) (codes "projects") (codes "S-1-1-0")
    ≡ not_sent no_dacl
take_ownership_refused_example =
    take_ownership_refused keep_text (some (codes "S-1-5-21-1-2-3")) (codes "projects")
      (codes "S-1-1-0") (refl, (refl, (refl, (refl, (refl, (refl, (refl, tt)))))))
