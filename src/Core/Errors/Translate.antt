-- ===== src/Core/Errors/Translate.antt =====
-- `translate`, `status_symbol`, `_status_name` and `_numeric_table` of
-- backend/samfscon/core/errors.py. The numbers of the symbols are Samba's: a parameter.

pub mod Codes
mod Tests
use samfscon.Prelude.{
  ℕ, Bool, true, false, Option, none, some, List, [], ◌∷◌, ◌++◌, ◌==◌, if◌then◌else◌, map,
}
use samfscon.Prelude.Text.{Text, codes, eq_text}
use samfscon.Core.Errors.Types.{
  ErrorClass, samfscon_error, operation_timeout, upstream_unavailable, Entry, SamfsconError,
}
use samfscon.Core.Errors.Tables.{nt_status}
use samfscon.Core.Errors.Tables.Werror.{werror}
use samfscon.Core.Errors.Tables.Kerberos.{kerberos}
use samfscon.Core.Errors.Patterns.{find_symbol, matches}

-- An argument of an exception: a number or not, or a tuple of such.
pub data Arg : Type 0 where
  single : Option ℕ → Arg
  tuple : List (Option ℕ) → Arg

-- An exception of the Samba layer: its text, its arguments, and the classes that `translate` asks for.
pub record Raised : Type 0 where
  pub text : Text
  pub args : List Arg
  pub is_timeout : Bool
  pub is_os_error : Bool

pub find_entry : List Entry → Text → Option Entry
find_entry [] name = none
find_entry (e ∷ entries) name =
    let rest = find_entry entries name in if eq_text e.symbol name then some e else rest

pub is_number : Option ℕ → ℕ → Bool
is_number none n = false
is_number (some m) n = m == n

-- `_numeric_table(...).get`: of two symbols with one number the later counts.
pub numeric_entry : (Text → Option ℕ) → List Entry → ℕ → Option Entry
unfolding is_number
numeric_entry number_of [] n = none
numeric_entry number_of (e ∷ entries) n = elim (numeric_entry number_of entries n) [
  | some later ↦ some later
  | none ↦ if is_number (number_of e.symbol) n then some e else none
]

pub candidate_entry : (ℕ → Option Entry) → Option ℕ → Option Entry
candidate_entry numeric none = none
candidate_entry numeric (some n) = numeric n

pub candidates_entry : (ℕ → Option Entry) → List (Option ℕ) → Option Entry
unfolding candidate_entry
candidates_entry numeric [] = none
candidates_entry numeric (c ∷ candidates) =
    let rest = candidates_entry numeric candidates in
    elim (candidate_entry numeric c) [ none ↦ rest | some e ↦ some e ]

pub candidates_of : Arg → List (Option ℕ)
candidates_of (single c) = c ∷ []
candidates_of (tuple cs) = cs

pub args_entry : (ℕ → Option Entry) → List Arg → Option Entry
unfolding candidates_entry candidates_of
args_entry numeric [] = none
args_entry numeric (arg ∷ args) =
    let rest = args_entry numeric args in
    elim (candidates_entry numeric (candidates_of arg)) [ none ↦ rest | some e ↦ some e ]

pub symbol_entry : List Entry → Option Text → Option Entry
unfolding find_entry
symbol_entry table none = none
symbol_entry table (some symbol) = find_entry table symbol

-- `_status_name`, as the line of the table under the name.
pub status_entry : (Text → Option ℕ) → Text → List Entry → Raised → Option Entry
unfolding symbol_entry args_entry numeric_entry
status_entry number_of prefix table r = elim (symbol_entry table (find_symbol prefix r.text)) [
  | some e ↦ some e
  | none ↦ args_entry (numeric_entry number_of table) r.args
]

pub error_of : Entry → Text → SamfsconError
error_of e text = record {
  class = e.class;
  code = e.code;
  message = e.message;
  hint = e.hint;
  detail = some text;
  context = none;
}

pub match_kerberos : List Entry → Text → Option Entry
match_kerberos [] text = none
match_kerberos (e ∷ entries) text =
    let rest = match_kerberos entries text in if matches e.symbol text then some e else rest

-- The errors at the end of `translate`.
abbrev pub server_error : Entry
server_error = record {
  symbol = [];
  class = samfscon_error;
  code = codes "server_error";
  message = "The file server reported an error.";
  hint = none;
}

abbrev pub timeout : Entry
timeout = record {
  symbol = [];
  class = operation_timeout;
  code = codes "timeout";
  message = "The operation did not finish in time.";
  hint = none;
}

abbrev pub server_unreachable : Entry
server_unreachable = record {
  symbol = [];
  class = upstream_unavailable;
  code = codes "server_unreachable";
  message = "The file server could not be reached.";
  hint = none;
}

abbrev pub internal_error : Entry
internal_error = record {
  symbol = [];
  class = samfscon_error;
  code = codes "internal_error";
  message = "An unexpected error occurred.";
  hint = none;
}

pub last_entry : Raised → Entry
last_entry r =
    if r.is_timeout then timeout else if r.is_os_error then server_unreachable else internal_error

-- `_NT_STATUS_RE.search(text) or _WERROR_RE.search(text)`
pub any_symbol : Text → Option Text
any_symbol text = elim (find_symbol (codes "NT_STATUS_") text) [
  | some symbol ↦ some symbol
  | none ↦ find_symbol (codes "WERR_") text
]

-- Where neither table has a line for it.
pub translate_unmapped : Raised → SamfsconError
unfolding any_symbol match_kerberos last_entry error_of
translate_unmapped r = elim (any_symbol r.text) [
  | some symbol ↦ record (error_of server_error r.text) { context = some symbol }
  | none ↦ elim (match_kerberos kerberos r.text) [
    | some e ↦ error_of e r.text
    | none ↦ error_of (last_entry r) r.text
  ]
]

module _ (nt_number werror_number : Text → Option ℕ) where
  pub mapped_entry : Raised → Option Entry
  unfolding status_entry
  mapped_entry r = elim (status_entry nt_number (codes "NT_STATUS_") nt_status r) [
    | some e ↦ some e
    | none ↦ status_entry werror_number (codes "WERR_") werror r
  ]

  -- `translate`, past its first test: of an exception that is no `SamfsconError`
  pub translate_raised : Raised → SamfsconError
  unfolding mapped_entry translate_unmapped error_of
  translate_raised r = elim (mapped_entry r) [
    | some e ↦ error_of e r.text
    | none ↦ translate_unmapped r
  ]

  -- `status_symbol`
  pub status_symbol : Raised → Option Text
  unfolding any_symbol mapped_entry
  status_symbol r = elim (any_symbol r.text) [
    | some symbol ↦ some symbol
    | none ↦ elim (mapped_entry r) [ none ↦ none | some e ↦ some e.symbol ]
  ]

-- What `translate` is given: a `SamfsconError`, or an exception of the Samba layer.
pub data Failure : Type 0 where
  own : SamfsconError → Failure
  raised : Raised → Failure

-- `translate`
pub translate : (Text → Option ℕ) → (Text → Option ℕ) → Failure → SamfsconError
unfolding translate_raised
translate nt_number werror_number (own e) = e
translate nt_number werror_number (raised r) = translate_raised nt_number werror_number r
