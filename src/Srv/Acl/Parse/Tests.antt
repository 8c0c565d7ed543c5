-- ===== src/Srv/Acl/Parse/Tests.antt =====
-- A descriptor as the server may send it.
use samfscon.Prelude.{true, some, [], ◌∷◌, ◌≡◌, refl, arith}
use samfscon.Prelude.Text.{codes, is_space}
use samfscon.Srv.Acl.Entry.{Ace, allow, SecurityDescriptor, build}
use samfscon.Srv.Acl.Parse.{parse}
use samfscon.Srv.Acl.Parse.Bodies.{read_back_all}
use samfscon.Srv.Acl.Parse.RoundTrip.{parse-build}

abbrev administrators : Ace
administrators = record {
  trustee = codes "BA";
  kind = allow;
  mask = 2032127;
  flags = 3;
  raw_rights = codes "FA";
  understood = true;
}

abbrev descriptor : SecurityDescriptor
descriptor = record {
  sddl = [];
  owner = some (codes "BA");
  group = some (codes "DU");
  aces = administrators ∷ (record administrators { flags = 19 } ∷ []);
  protected = true;
}

parse-build_example :
    parse (build descriptor)
    ≡ some (record {
      sddl = build descriptor;
      owner = some (codes "BA");
      group = some (codes "DU");
      aces = read_back_all descriptor.aces;
      protected = true;
    })
unfolding is_space
parse-build_example =
    parse-build descriptor ((refl, refl), ((refl, refl), tt)) ((refl, refl), ((refl, refl), tt))
      (
        (refl, omega arith, ((refl, refl), ((refl, refl), tt))),
        ((refl, omega arith, ((refl, refl), ((refl, refl), tt))), tt),
      )
