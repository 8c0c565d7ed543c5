-- ===== src/Srv/GlobalConf/Write.antt =====
-- `write` and `_verify` of backend/samfscon/srv/globalconf.py. What is read of the server is an
-- argument, and the call that stores the options a parameter.

pub mod Verified
pub mod Guarded
mod Tests
use samfscon.Prelude.{
  Bool, true, false, Option, none, some, List, [], ◌∷◌, ◌⊎◌, inl, inr, if◌then◌else◌, ◌&&◌, not,
}
use samfscon.Prelude.Text.{Text, codes, is_within, is_empty}
use samfscon.Prelude.Dict
use samfscon.Prelude.Dict.{Dict}
use samfscon.Srv.GlobalConf.Dialect.{max_protocol, given, is_below_floor}
use samfscon.Srv.GlobalConf.Validate.{Refusal, Outcome, accept, refuse, validate}
use samfscon.Srv.GlobalConf.Hosts.{IpLibrary}
use samfscon.Srv.GlobalConf.HostsCheck.{
  HostsCheck, passes, allow_excludes_console, deny_includes_console, confirmation_needed,
  check_hosts,
}
use samfscon.Srv.GlobalConf.Live.{LiveValue, server_string, find_value, is_value}

-- What `write` uses of `GlobalConfig`.
pub record GlobalConfig : Type 0 where
  pub section_present : Option Bool
  pub stored : Dict Text
  pub own_client_address : Option Text
  pub mode : Text

-- The request: the options, the confirmations, whether the section may be created, and the lowest
-- dialect of the console.
pub record Request : Type 0 where
  pub options : Dict (Option Text)
  pub confirm : List Text
  pub create_section : Bool
  pub console_min_protocol : Option Text

-- What `_verify` returns.
pub data Verification : Type 0 where
  no_live_source variable_expansion live_unreadable : Verification
  applied_confirmed : Text → Verification
  not_yet_visible : Text → Option Text → Verification

pub compare_reported : Text → Option LiveValue → Verification
compare_reported written none = live_unreadable
compare_reported written (some reported) =
    if not reported.readable
    then live_unreadable
    else if is_value reported.value written
    then applied_confirmed written
    else not_yet_visible written reported.value

pub verify_live : Text → Option (List LiveValue) → Verification
unfolding compare_reported
verify_live written none = live_unreadable
verify_live written (some live) = compare_reported written (find_value live server_string)

pub verify_written : Option Text → Option (List LiveValue) → Verification
unfolding verify_live
verify_written none live = no_live_source
verify_written (some written) live =
    if is_within (codes "%") written then variable_expansion else verify_live written live

-- `_verify`
pub verify : Dict (Option Text) → Option (List LiveValue) → Verification
unfolding verify_written
verify checked live = verify_written (given (Dict.get checked server_string)) live

-- What `write` returns or raises.
pub data WriteResult (R E : Type 0) : Type 0 where
  not_permitted : WriteResult R E
  invalid : Refusal → WriteResult R E
  dialect_below_console_floor : WriteResult R E
  hosts_refused : HostsCheck → WriteResult R E
  global_section_unknown global_section_absent : WriteResult R E
  failed : E → WriteResult R E
  written : Dict (Option Text) → R → Bool → Verification → WriteResult R E

-- `if console_min_protocol and isinstance(...)`
pub breaks_floor : Option Text → Option Text → Bool
breaks_floor none highest = false
breaks_floor (some []) highest = false
breaks_floor (some (c ∷ s)) none = false
breaks_floor (some (c ∷ s)) (some value) = is_below_floor value (c ∷ s)

module _ {A N R E : Type 0} (ip : IpLibrary A N) (write_options : Dict (Option Text) → E ⊎ R)
    (live : Option (List LiveValue)) where
  -- The call, and what the server reports after it.
  pub store : Dict (Option Text) → Bool → E ⊎ R → WriteResult R E
  unfolding verify
  store checked created (inl e) = failed e
  store checked created (inr applied) = written checked applied created (verify checked live)

  -- The gate of the section.
  pub write_section : Option Bool → Bool → Dict (Option Text) → WriteResult R E
  unfolding store
  write_section none create checked = global_section_unknown
  write_section (some true) create checked = store checked false (write_options checked)
  write_section (some false) true checked = store checked true (write_options checked)
  write_section (some false) false checked = global_section_absent

  pub after_hosts : HostsCheck → GlobalConfig → Request → Dict (Option Text) → WriteResult R E
  unfolding write_section
  after_hosts passes current request checked =
      write_section current.section_present request.create_section checked
  after_hosts (allow_excludes_console value) current request checked =
      hosts_refused (allow_excludes_console value)
  after_hosts (deny_includes_console value) current request checked =
      hosts_refused (deny_includes_console value)
  after_hosts (confirmation_needed option value entries reason token) current request checked =
      hosts_refused (confirmation_needed option value entries reason token)

  pub write_checked : GlobalConfig → Request → Outcome (Dict (Option Text)) → WriteResult R E
  unfolding after_hosts breaks_floor
  write_checked current request (refuse r) = invalid r
  write_checked current request (accept checked) =
      if breaks_floor request.console_min_protocol (given (Dict.get checked max_protocol))
      then dialect_below_console_floor
      else after_hosts
          (check_hosts ip request.confirm current.own_client_address checked current.stored) current
          request checked

  -- `write`; whether the account may write the configuration comes first.
  pub write : Bool → GlobalConfig → Request → WriteResult R E
  unfolding write_checked
  write may_write current request =
      if may_write
      then write_checked current request (validate current.mode request.confirm request.options)
      else not_permitted
