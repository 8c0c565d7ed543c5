-- ===== src/Srv/Acl/Write/Domain.antt =====
-- No alias of a domain is expanded against another one.

use samfscon.Prelude.{Option, none, some, ◌≢◌, All}
use samfscon.Prelude.Text.{Text, upper, strip}
use samfscon.Srv.Acl.Write.{domain_relative_aliases}

-- A text is none of the aliases of a domain, in any case and between any white space.
abbrev pub IsAbsolute : Text → Type 0
IsAbsolute t = All (λ a. upper (strip t) ≢ a) domain_relative_aliases

abbrev pub IsAbsoluteOrNone : Option Text → Type 0
IsAbsoluteOrNone none = Unit
IsAbsoluteOrNone (some t) = IsAbsolute t
