-- ===== src/Srv/Acl/Write/Owner.antt =====
-- The descriptor of a new owner alone.
use samfscon.Prelude.{Option, ◌≡◌, refl, ◌⊎◌}
use samfscon.Prelude.Text.{Text}
use samfscon.Srv.Acl.Parse.Marks.{NoColon}
use samfscon.Srv.Acl.Parse.Missing.{parse-owner}
use samfscon.Srv.Acl.Write.{no_dacl, not_sent, send, take_ownership, to_descriptor, expand_parsed}

-- For a SID, which has no colon in it, `take_ownership` sends nothing to the server: the descriptor
-- of an owner alone is refused for having no DACL, whatever the domain and the parser of Samba are.
pub take_ownership_refused :
    {D : Type 0} (from_sddl : Text → Text → Text ⊎ D) (domain : Option Text) (path sid : Text)
    → NoColon sid
    → take_ownership from_sddl domain path sid ≡ not_sent no_dacl
unfolding take_ownership to_descriptor expand_parsed send
take_ownership_refused from_sddl domain path sid h = rw (parse-owner sid h) refl
