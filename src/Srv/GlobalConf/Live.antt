-- ===== src/Srv/GlobalConf/Live.antt =====
-- What the server reports, in backend/samfscon/srv/globalconf.py: `live_values`, `in_force_check` and
-- `own_client_address`. What is asked of the server is an argument, where nothing stands for a
-- question that failed.
pub mod Reported
pub mod InForce
mod Tests
use samfscon.Prelude.{
  ℕ, Bool, true, false, Option, none, some, List, [], ◌∷◌, ◌==◌, if◌then◌else◌, ◌&&◌, not, any,
}
use samfscon.Prelude.Text.{Text, codes, eq_text, strip, lower, is_empty, is_within}
use samfscon.Prelude.Dict
use samfscon.Prelude.Dict.{Dict}
use samfscon.Srv.GlobalConf.Catalogue.{by_name}

pub record LiveValue : Type 0 where
  pub option : Text
  pub value : Option Text
  pub readable : Bool
  pub source : Text

-- The comment and the name that `NetSrvGetInfo` returns.
pub record ServerInfo : Type 0 where
  pub comment : Option Text
  pub server_name : Option Text

-- The first of the levels that is answered.
pub first_answer : (ℕ → Option ServerInfo) → List ℕ → Option ServerInfo
first_answer info [] = none
first_answer info (level ∷ levels) =
    let rest = first_answer info levels in
    elim (info level) [ none ↦ rest | some answer ↦ some answer ]

pub comment_of : Option ServerInfo → Option Text
comment_of none = none
comment_of (some answer) = answer.comment

pub server_name_of : Option ServerInfo → Option Text
server_name_of none = none
server_name_of (some answer) = answer.server_name

pub is_answered : {A : Type 0} → Option A → Bool
is_answered none = false
is_answered (some answer) = true

pub yes_or_no : Option Bool → Option Text
yes_or_no none = none
yes_or_no (some served) = some (if served then codes "yes" else codes "no")

abbrev pub server_string : Text
server_string = codes "server string"

pub live_values : (ℕ → Option ServerInfo) → Option Bool → Option Text → Text → List LiveValue
unfolding first_answer comment_of server_name_of is_answered yes_or_no
live_values info served workgroup mode =
    let answer = first_answer info (102 ∷ (101 ∷ [])) in
    record {
      option = server_string;
      value = comment_of answer;
      readable = is_answered answer;
      source = codes "srvsvc.comment";
    }
    ∷ (record {
      option = codes "netbios name";
      value = server_name_of answer;
      readable = is_answered answer;
      source = codes "srvsvc.server_name";
    }
        ∷ (record {
          option = codes "workgroup";
          value = workgroup;
          readable = true;
          source = codes "session.workgroup";
        }
            ∷ (record {
              option = codes "security";
              value = some mode;
              readable = true;
              source = codes "session.mode";
            }
                ∷ (record {
                  option = codes "registry shares";
                  value = yes_or_no served;
                  readable = is_answered served;
                  source = codes "observed.registry_shares_served";
                }
                    ∷ []))))

-- `next((value for value in live if value.option == name), None)`
pub find_value : List LiveValue → Text → Option LiveValue
find_value [] name = none
find_value (v ∷ live) name =
    let rest = find_value live name in if eq_text v.option name then some v else rest

pub data Doubt : Type 0 where
  not_stored variable_expansion live_unreadable indistinguishable_from_default : Doubt

-- The evidence of `in_force_check`.
pub data Evidence : Type 0 where
  proves_nothing : Option Text → Evidence
  undecided : Option Text → Option Text → Doubt → Evidence
  compared : Text → Option Text → Bool → Evidence

pub is_value : Option Text → Text → Bool
is_value none value = false
is_value (some v) value = eq_text v value

-- `BY_NAME["server string"].default`
pub default_comment : Option Text
unfolding by_name
default_comment = elim (by_name server_string) [ none ↦ none | some option ↦ option.default ]

pub compare_with : Text → Option LiveValue → Option Bool × Evidence
unfolding is_value default_comment
compare_with value none = (none, undecided (some value) none live_unreadable)
compare_with value (some reported) =
    if not reported.readable
    then (none, undecided (some value) none live_unreadable)
    else if is_value default_comment value && is_value reported.value value
    then (none, undecided (some value) reported.value indistinguishable_from_default)
    else (
      some (is_value reported.value value),
      compared value reported.value (is_value reported.value value),
    )

pub check_stored : Option Text → Option LiveValue → Option Bool × Evidence
unfolding compare_with
check_stored none reported = (none, undecided none none not_stored)
check_stored (some value) reported =
    if is_within (codes "%") value
    then (none, undecided (some value) none variable_expansion)
    else compare_with value reported

pub in_force_check : Dict Text → List LiveValue → Option Bool × List Evidence
unfolding check_stored find_value
in_force_check stored live =
    let (decided, evidence) =
      check_stored (Dict.get stored server_string) (find_value live server_string) in
    (
      decided,
      elim (find_value live (codes "registry shares")) [
        | none ↦ evidence ∷ []
        | some served ↦ proves_nothing served.value ∷ (evidence ∷ [])
      ],
    )

-- A row of the list of sessions.
pub record SessionRow : Type 0 where
  pub client : Option Text
  pub user : Option Text

pub data Confidence : Type 0 where
  one_session several unknown : Confidence

-- The text behind the last backslash
pub last_component : Text → Text
last_component [] = []
last_component (c ∷ s) =
    let rest = last_component s in if any (λ d. d == b'\\') (c ∷ s) then rest else c ∷ s

pub bare_name : Option Text → Text
unfolding last_component
bare_name none = []
bare_name (some name) = last_component (lower (strip name))

pub add_address : Option Text → List Text → List Text
add_address none addresses = addresses
add_address (some []) addresses = addresses
add_address (some (c ∷ s)) addresses =
    if any (λ a. eq_text a (c ∷ s)) addresses then addresses else (c ∷ s) ∷ addresses

-- The addresses of the sessions of an account, each once.
pub addresses_of : Text → List SessionRow → List Text
unfolding bare_name add_address
addresses_of bare [] = []
addresses_of bare (row ∷ rows) =
    let rest = addresses_of bare rows in
    if eq_text (bare_name row.user) bare then add_address row.client rest else rest

pub address_among : List Text → Option Text × Confidence
address_among [] = (none, unknown)
address_among (a ∷ []) = (some a, one_session)
address_among (a ∷ (b ∷ addresses)) = (none, several)

-- `own_client_address`, from the name of the account and the list of the sessions.
pub own_client_address : Option Text → Option (List SessionRow) → Option Text × Confidence
unfolding address_among addresses_of
own_client_address account sessions =
    if is_empty (bare_account account) then (none, unknown) else among sessions
  where
    bare_account : Option Text → Text
    bare_account none = []
    bare_account (some name) = lower (strip name)

    among : Option (List SessionRow) → Option Text × Confidence
    among none = (none, unknown)
    among (some rows) = address_among (addresses_of (bare_name account) rows)
