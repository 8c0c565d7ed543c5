-- ===== src/Srv/Acl/Entry/Inherited.antt =====
-- `build` and the entries that come from a parent.
use samfscon.Prelude.{List, [], ◌∷◌, ◌++◌, ◌≡◌, refl, ap, keep, not, Bool-cases, inl, inr}
use samfscon.Srv.Acl.Entry.{Ace, SecurityDescriptor, inherited, render_all, render_ace, build}

render_all-keep :
    (aces : List Ace) → render_all (keep (λ a. not (inherited a)) aces) ≡ render_all aces
unfolding render_all
render_all-keep [] = refl
render_all-keep (ace ∷ aces) = elim (Bool-cases (inherited ace)) [
  | inl from_parent ↦ rw from_parent (render_all-keep aces)
  | inr own ↦ rw own (rw own (ap (λ t. b'(' ∷ (render_ace ace ++ b')' ∷ t)) (render_all-keep aces)))
]

-- `build` writes the same text for a descriptor and for that descriptor without its inherited
-- entries.
pub build-inherited :
    (d : SecurityDescriptor)
    → build (record d { aces = keep (λ a. not (inherited a)) d.aces }) ≡ build d
unfolding build
build-inherited d = rw (render_all-keep d.aces) refl
