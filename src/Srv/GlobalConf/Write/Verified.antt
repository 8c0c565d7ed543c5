-- ===== src/Srv/GlobalConf/Write/Verified.antt =====
-- What the answers of `_verify` mean.
use samfscon.Prelude.{
  true, false, Option, none, some, List, ◌≡◌, ◌≢◌, ◌⊎◌, inl, inr, refl, Bool-cases,
}
use samfscon.Prelude.Text.{Text, codes, is_within}
use samfscon.Prelude.Dict
use samfscon.Prelude.Dict.{Dict}
use samfscon.Srv.GlobalConf.Dialect.{given}
use samfscon.Srv.GlobalConf.Live.{LiveValue, server_string, find_value, is_value}
use samfscon.Srv.GlobalConf.Live.Reported.{
  IsFirst, IsUnread, find_value-IsFirst, IsUnread-none, IsUnread-first, is_value_iff, is_value_ne,
}
use samfscon.Srv.GlobalConf.Write.{
  Verification, no_live_source, variable_expansion, live_unreadable, applied_confirmed,
  not_yet_visible, compare_reported, verify_live, verify_written, verify,
}

-- A `server string` without a variable was written.
abbrev pub IsPlain : Option (Option Text) → Text → Type 0
IsPlain change w = (change ≡ some (some w)) × (is_within (codes "%") w ≡ false)

-- The first row that the server reports for `server string` is readable, with a value.
abbrev pub Reports : Option (List LiveValue) → Option Text → Type 0
Reports none seen = ⊥
Reports (some live) seen =
    (r : LiveValue) × IsFirst live (codes "server string") r
    × (r.readable ≡ true)
    × (r.value ≡ seen)

-- Nothing was read of the server, or not this option.
abbrev pub IsSilent : Option (List LiveValue) → Type 0
IsSilent none = Unit
IsSilent (some live) = IsUnread live (codes "server string")

-- What an answer says, of the change to `server string` and what the server reports after it.
abbrev pub IsTrue : Option (Option Text) → Option (List LiveValue) → Verification → Type 0
IsTrue change live no_live_source = (change ≡ none) ⊎ (change ≡ some none)
IsTrue change live variable_expansion =
    (w : Text) × (change ≡ some (some w)) × (is_within (codes "%") w ≡ true)
IsTrue change live live_unreadable = (w : Text) × IsPlain change w × IsSilent live
IsTrue change live (applied_confirmed w) = IsPlain change w × Reports live (some w)
IsTrue change live (not_yet_visible w seen) = IsPlain change w × Reports live seen × (seen ≢ some w)

module _ (change : Option (Option Text)) (w : Text) (plain : IsPlain change w) where
  reported-IsTrue :
      (live : List LiveValue) (found : Option LiveValue)
      → find_value live server_string ≡ found
      → IsTrue change (some live) (compare_reported w found)
  unfolding compare_reported
  reported-IsTrue live none e = (w, plain, IsUnread-none server_string live e)
  reported-IsTrue live (some r) e =
      let first = find_value-IsFirst server_string live r e in
      elim (Bool-cases r.readable) [
        | inr refused ↦ rw refused (w, plain, IsUnread-first server_string live r first refused)
        | inl readable ↦ elim (Bool-cases (is_value r.value w)) [
          | inl same ↦
              rw (readable, same) (plain, (r, first, readable, (is_value_iff r.value w).0 same))
          | inr other ↦
              rw (readable, other) (plain, (r, first, readable, refl), is_value_ne r.value w other)
        ]
      ]

  live-IsTrue : (live : Option (List LiveValue)) → IsTrue change live (verify_live w live)
  unfolding verify_live
  live-IsTrue none = (w, plain, tt)
  live-IsTrue (some live) = reported-IsTrue live (find_value live server_string) refl

change-IsTrue :
    (change : Option (Option Text)) (live : Option (List LiveValue))
    → IsTrue change live (verify_written (given change) live)
unfolding verify_written given
change-IsTrue none live = inl refl
change-IsTrue (some none) live = inr refl
change-IsTrue (some (some w)) live = elim (Bool-cases (is_within (codes "%") w)) [
  | inl variable ↦ rw variable (w, refl, variable)
  | inr plain ↦ rw plain (live-IsTrue (some (some w)) w (refl, plain) live)
]

pub verify-IsTrue :
    (checked : Dict (Option Text)) (live : Option (List LiveValue))
    → IsTrue (Dict.get checked (codes "server string")) live (verify checked live)
unfolding verify
verify-IsTrue checked live = change-IsTrue (Dict.get checked server_string) live
