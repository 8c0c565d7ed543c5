-- ===== src/Srv/Acl/Parse/RoundTrip.antt =====
-- A descriptor that `build` writes is read back by `parse`.
use samfscon.Prelude.{Bool, true, false, some, List, ◌++◌, ◌≡◌, refl, All}
use samfscon.Srv.Acl.Entry.{Ace, SecurityDescriptor, build, render_all}
use samfscon.Srv.Acl.Parse.{until_body, split_sacl, split_at, split_dacl, descriptor_of, parse}
use samfscon.Srv.Acl.Parse.Marks.{NoColon, find_mark-none}
use samfscon.Srv.Acl.Parse.Sections.{
  IsNamed, controls, owner_of-sections, group_of-sections, find_mark-sections,
  is_protected-sections,
}
use samfscon.Srv.Acl.Parse.Bodies.{
  IsReadable, read_back_all, parse_aces-render_all, until_body-render_all, render_all-NoColon,
}

module _ (aces : List Ace) (h : All IsReadable aces) where
  controls-NoColon : (p : Bool) → NoColon (controls p ++ render_all aces)
  controls-NoColon true = (refl, render_all-NoColon aces h)
  controls-NoColon false = render_all-NoColon aces h

  until_body-controls :
      (p : Bool) → until_body (controls p ++ render_all aces) ≡ (controls p, render_all aces)
  unfolding until_body
  until_body-controls true = rw (until_body-render_all aces) refl
  until_body-controls false = until_body-render_all aces

-- A descriptor whose owner and group are absent or texts without marks and white space, and whose
-- entries are understood, with flags below 32 and trustees without marks and white space, is read back by `parse` from what `build` writes:
-- with the same owner, group and protection, and with the entries that are not inherited, each with
-- its trustee, kind, mask and flags of inheritance.
pub parse-build :
    (d : SecurityDescriptor)
    → IsNamed d.owner
    → IsNamed d.group
    → All IsReadable d.aces
    → parse (build d)
      ≡ some (record {
        sddl = build d;
        owner = d.owner;
        group = d.group;
        aces = read_back_all d.aces;
        protected = d.protected;
      })
unfolding parse build split_dacl descriptor_of split_at split_sacl
parse-build d ho hg h =
    let body = controls d.protected ++ render_all d.aces in
    let plain = controls-NoColon d.aces h d.protected in
    rw
      (
        find_mark-sections body plain d.owner d.group ho hg,
        owner_of-sections body plain d.owner d.group ho hg,
        group_of-sections body plain d.owner d.group ho hg,
      )
      (rw (until_body-controls d.aces h d.protected) (
        rw (find_mark-none b'S' (render_all d.aces) (render_all-NoColon d.aces h)) (
          rw
            (
              parse_aces-render_all d.aces h,
              is_protected-sections d.owner d.group d.protected ho hg,
            )
            refl)))
