-- ===== src/Srv/Acl/Entry/Tests.antt =====
-- Examples of the entries of a descriptor.
use samfscon.Prelude.{true, none, some, [], ◌∷◌, ◌≡◌, refl, arith}
use samfscon.Prelude.Text.{codes, strip, is_space}
use samfscon.Srv.Acl.Rights.{render_rights}
use samfscon.Srv.Acl.Entry.{Ace, deny, SecurityDescriptor, parse_ace, render_ace}
use samfscon.Srv.Acl.Entry.RoundTrip.{parse_ace-render_ace}

abbrev entry : Ace
entry = record {
  trustee = codes "BA";
  kind = deny;
  mask = 1245631;
  flags = 19;
  raw_rights = codes "0x1301bf";
  understood = true;
}

parse_ace-render_ace_example :
    parse_ace (render_ace entry)
    ≡ some (record {
      trustee = codes "BA";
      kind = deny;
      mask = 1245631;
      flags = 3;
      raw_rights = render_rights 1245631;
      understood = true;
    })
unfolding strip is_space
parse_ace-render_ace_example = parse_ace-render_ace entry refl (omega arith) (refl, (refl, tt)) refl

abbrev descriptor : SecurityDescriptor
descriptor = record {
  sddl = [];
  owner = some (codes "BA");
  group = none;
  aces = entry ∷ record entry { flags = 3 } ∷ [];
  protected = true;
}
