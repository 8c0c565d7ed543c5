-- ===== src/Srv/Acl/Entry.antt =====
-- The entries of a descriptor: `Ace`, `_parse_ace`, `SecurityDescriptor` and `build` of
-- backend/samfscon/srv/acl.py.
pub mod RoundTrip
pub mod Inherited
mod Tests
use samfscon.Prelude.{
  ℕ, Bool, true, false, Option, none, some, List, [], ◌∷◌, ◌++◌, ◌==◌, if◌then◌else◌,
}
use samfscon.Prelude.Text.{Text, codes, strip, upper, starts_with, is_empty}
use samfscon.Prelude.Words.{split_on}
use samfscon.Srv.Acl.Masks.{inherited_ace}
use samfscon.Srv.Acl.Rights.{has_bit, parse_rights, parse_flags, render_rights, render_flags}
use samfscon.Srv.Acl.Meaning.{AppliesTo, preset_of, rights_of, applies_to}

-- `"allow"` and `"deny"`
pub data Kind : Type 0 where
  allow deny : Kind

pub record Ace : Type 0 where
  pub trustee : Text
  pub kind : Kind
  pub mask : ℕ
  pub flags : ℕ
  pub raw_rights : Text
  pub understood : Bool

unfoldable pub inherited : Ace → Bool
inherited ace = has_bit ace.flags inherited_ace

-- `Ace.describe`, with the entry it is of.
pub record Described : Type 0 where
  pub ace : Ace
  pub inherited : Bool
  pub preset : Option Text
  pub rights : List Text
  pub applies : AppliesTo

pub describe : Ace → Described
describe a = record {
  ace = a;
  inherited = inherited a;
  preset = preset_of a.mask;
  rights = rights_of a.mask;
  applies = applies_to a.flags;
}

pub kind_of : Text → Kind
kind_of ace_type = if starts_with (codes "D") (upper (strip ace_type)) then deny else allow

pub ace_of : Text → Text → Text → Text → Ace
unfolding kind_of
ace_of ace_type flags_text rights_text trustee =
    let (mask, understood) = parse_rights rights_text in
    record {
      trustee = strip trustee;
      kind = kind_of ace_type;
      mask = mask;
      flags = parse_flags flags_text;
      raw_rights = strip rights_text;
      understood = understood;
    }

pub ace_of_fields : Text × List Text → Option Ace
unfolding ace_of
ace_of_fields (ace_type, flags_text ∷ (rights_text ∷ (object ∷ (inherit ∷ (trustee ∷ more))))) =
    some (ace_of ace_type flags_text rights_text trustee)
ace_of_fields _ = none

pub parse_ace : Text → Option Ace
unfolding split_on ace_of_fields
parse_ace text = ace_of_fields (split_on b';' text)

pub record SecurityDescriptor : Type 0 where
  pub sddl : Text
  pub owner : Option Text
  pub group : Option Text
  pub aces : List Ace
  pub protected : Bool

-- The letter of an entry in SDDL
unfoldable pub letter_of : Kind → Text
letter_of allow = codes "A"
letter_of deny = codes "D"

unfoldable pub rights_text_of : Ace → Text
rights_text_of ace = if ace.understood then render_rights ace.mask else ace.raw_rights

-- What `build` writes for an entry between the parentheses.
unfoldable pub render_ace : Ace → Text
unfolding letter_of rights_text_of
render_ace ace =
    letter_of ace.kind
    ++ b';'
      ∷ (render_flags ace.flags
          ++ b';' ∷ (rights_text_of ace ++ b';' ∷ (b';' ∷ (b';' ∷ ace.trustee))))

-- A field that is not there, or is empty, is left out.
unfoldable pub section_for : Text → Option Text → Text
section_for mark none = []
section_for mark (some s) = if is_empty s then [] else mark ++ s

unfoldable pub render_all : List Ace → Text
unfolding render_ace inherited
render_all [] = []
render_all (ace ∷ aces) =
    let rest = render_all aces in
    if inherited ace then rest else b'(' ∷ (render_ace ace ++ b')' ∷ rest)

unfoldable pub build : SecurityDescriptor → Text
unfolding section_for render_all
build descriptor =
    section_for (codes "O:") descriptor.owner
    ++ (section_for (codes "G:") descriptor.group
        ++ (codes "D:"
            ++ ((if descriptor.protected then codes "P" else []) ++ render_all descriptor.aces)))
