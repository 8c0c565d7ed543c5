-- ===== src/Srv/Acl/Parse/Missing.antt =====
-- A text that names an owner and has no DACL.
use samfscon.Prelude.{none, [], ◌∷◌, ◌++◌, ◌≡◌, refl}
use samfscon.Prelude.Text.{Text, codes}
use samfscon.Srv.Acl.Parse.{parse, split_dacl, split_at, descriptor_of, find_mark}
use samfscon.Srv.Acl.Parse.Marks.{NoColon, find_mark-none}

pub parse-owner : (sid : Text) → NoColon sid → parse (codes "O:" ++ sid) ≡ none
unfolding parse split_dacl descriptor_of split_at find_mark
parse-owner [] h = refl
parse-owner (c ∷ sid) h = rw (find_mark-none b'D' (c ∷ sid) h) refl
