-- ===== src/Core/Errors/Translate/Codes.antt =====
-- One code, one class and one hint.
use samfscon.Prelude.{
  ℕ, Bool, true, false, Option, none, some, List, [], ◌∷◌, ◌++◌, ◌≡◌, refl, String, All, All-append,
  if◌then◌else◌, Bool-cases, inl, inr, ap, sym, ◌∙◌,
}
use mathlib.Core.Option.{some-injective}
use samfscon.Prelude.Text.{Text, codes, eq_text}
use samfscon.Core.Errors.Types.{ErrorClass, Entry, SamfsconError}
use samfscon.Core.Errors.Tables.{nt_status}
use samfscon.Core.Errors.Tables.NtStatus.{nt_sign_in, nt_others}
use samfscon.Core.Errors.Tables.Werror.{werror}
use samfscon.Core.Errors.Tables.Kerberos.{kerberos}
use samfscon.Core.Errors.Patterns.{find_symbol, matches}
use samfscon.Core.Errors.Translate.{
  Arg, Raised, find_entry, numeric_entry, is_number, candidate_entry, candidates_entry,
  candidates_of, args_entry, symbol_entry, status_entry, error_of, match_kerberos, server_error,
  timeout, internal_error, last_entry, any_symbol, translate_unmapped, mapped_entry,
  translate_raised, Failure, own, raised, translate,
}

-- The line of a code among some lines.
entry_of : List Entry → Text → Option Entry
entry_of [] code = none
entry_of (e ∷ entries) code =
    let rest = entry_of entries code in if eq_text e.code code then some e else rest

abbrev all_entries : List Entry
all_entries = nt_status ++ (werror ++ (kerberos ++ (server_error ∷ timeout ∷ internal_error ∷ [])))

abbrev profile : Entry → ErrorClass × Option String
profile e = (e.class, e.hint)

profile_of : Text → Option (ErrorClass × Option String)
unfolding entry_of
profile_of code = elim (entry_of all_entries code) [ none ↦ none | some e ↦ some (profile e) ]

-- The code of a line says its class and its hint.
Tells : Entry → Type 0
Tells e = profile_of e.code ≡ some (profile e)

nt_sign_in-Tells : All Tells nt_sign_in
unfolding Tells profile_of entry_of eq_text
nt_sign_in-Tells = (
  refl,
  (
    refl,
    (
      refl,
      (
        refl,
        (
          refl,
          (
            refl,
            (refl, (refl, (refl, (refl, (refl, (refl, (refl, (refl, (refl, (refl, tt)))))))))),
          ),
        ),
      ),
    ),
  ),
)

nt_others-Tells : All Tells nt_others
unfolding Tells profile_of entry_of eq_text
nt_others-Tells = (
  refl,
  (
    refl,
    (
      refl,
      (
        refl,
        (refl, (refl, (refl, (refl, (refl, (refl, (refl, (refl, (refl, (refl, (refl, tt))))))))))),
      ),
    ),
  ),
)

werror-Tells : All Tells werror
unfolding Tells profile_of entry_of eq_text
werror-Tells = (
  refl,
  (
    refl,
    (
      refl,
      (refl, (refl, (refl, (refl, (refl, (refl, (refl, (refl, (refl, (refl, (refl, tt))))))))))),
    ),
  ),
)

kerberos-Tells : All Tells kerberos
unfolding Tells profile_of entry_of eq_text
kerberos-Tells = (refl, (refl, (refl, (refl, (refl, (refl, tt))))))

last-Tells : (r : Raised) → Tells (last_entry r)
unfolding last_entry Tells profile_of entry_of eq_text
last-Tells r = elim (Bool-cases r.is_timeout) [
  | inl late ↦ rw (late, last_entry) refl
  | inr other ↦ elim (Bool-cases r.is_os_error) [
    | inl lost ↦ rw (other, lost, last_entry) refl
    | inr strange ↦ rw (other, strange, last_entry) refl
  ]
]

abbrev Found : (Entry → Type 0) → Option Entry → Type 0
Found P none = Unit
Found P (some e) = P e

-- What a search in a table finds is a line of it.
module _ (P : Entry → Type 0) where
  else_found :
      (a b : Option Entry) → Found P a → Found P b → Found P (elim a [ some e ↦ some e | none ↦ b ])
  else_found none b p q = q
  else_found (some e) b p q = p

  if_found :
      (t : Bool) (e : Entry) (b : Option Entry)
      → P e
      → Found P b
      → Found P (if t then some e else b)
  if_found true e b p q = p
  if_found false e b p q = q

  find_entry-found :
      (table : List Entry) (name : Text) → All P table → Found P (find_entry table name)
  unfolding find_entry
  find_entry-found [] name told = tt
  find_entry-found (e ∷ table) name told =
      if_found (eq_text e.symbol name) e (find_entry table name) told.0
        (find_entry-found table name told.1)

  match_kerberos-found :
      (table : List Entry) (text : Text) → All P table → Found P (match_kerberos table text)
  unfolding match_kerberos
  match_kerberos-found [] text told = tt
  match_kerberos-found (e ∷ table) text told =
      if_found (matches e.symbol text) e (match_kerberos table text) told.0
        (match_kerberos-found table text told.1)

  numeric_entry-found :
      (number_of : Text → Option ℕ) (table : List Entry) (n : ℕ)
      → All P table
      → Found P (numeric_entry number_of table n)
  unfolding numeric_entry
  numeric_entry-found number_of [] n told = tt
  numeric_entry-found number_of (e ∷ table) n told =
      else_found (numeric_entry number_of table n)
        (if is_number (number_of e.symbol) n then some e else none)
        (numeric_entry-found number_of table n told.1)
        (if_found (is_number (number_of e.symbol) n) e none told.0 tt)

  module _ (numeric : ℕ → Option Entry) (found : (n : ℕ) → Found P (numeric n)) where
    candidate_entry-found : (c : Option ℕ) → Found P (candidate_entry numeric c)
    unfolding candidate_entry
    candidate_entry-found none = tt
    candidate_entry-found (some n) = found n

    candidates_entry-found : (cs : List (Option ℕ)) → Found P (candidates_entry numeric cs)
    unfolding candidates_entry
    candidates_entry-found [] = tt
    candidates_entry-found (c ∷ cs) =
        else_found (candidate_entry numeric c) (candidates_entry numeric cs)
          (candidate_entry-found c) (candidates_entry-found cs)

    args_entry-found : (args : List Arg) → Found P (args_entry numeric args)
    unfolding args_entry
    args_entry-found [] = tt
    args_entry-found (a ∷ args) =
        else_found (candidates_entry numeric (candidates_of a)) (args_entry numeric args)
          (candidates_entry-found (candidates_of a)) (args_entry-found args)

  symbol_entry-found :
      (table : List Entry) (symbol : Option Text)
      → All P table
      → Found P (symbol_entry table symbol)
  unfolding symbol_entry
  symbol_entry-found table none told = tt
  symbol_entry-found table (some symbol) told = find_entry-found table symbol told

  status_entry-found :
      (number_of : Text → Option ℕ) (prefix : Text) (table : List Entry) (r : Raised)
      → All P table
      → Found P (status_entry number_of prefix table r)
  unfolding status_entry
  status_entry-found number_of prefix table r told =
      else_found (symbol_entry table (find_symbol prefix r.text))
        (args_entry (numeric_entry number_of table) r.args)
        (symbol_entry-found table (find_symbol prefix r.text) told)
        (args_entry-found (numeric_entry number_of table)
          (λ n. numeric_entry-found number_of table n told) r.args)

-- An error whose class and hint are those of its code.
abbrev ErrorTells : SamfsconError → Type 0
ErrorTells x = profile_of x.code ≡ some (x.class, x.hint)

server_error-Tells : Tells server_error
unfolding Tells profile_of entry_of eq_text
server_error-Tells = refl

unmapped-Tells : (r : Raised) → ErrorTells (translate_unmapped r)
unfolding translate_unmapped error_of Tells
unmapped-Tells r = named (any_symbol r.text)
  where
    matched :
        (m : Option Entry)
        → Found Tells m
        → ErrorTells (elim m [ some e ↦ error_of e r.text | none ↦ error_of (last_entry r) r.text ])
    matched none h = last-Tells r
    matched (some e) h = h

    named :
        (s : Option Text)
        → ErrorTells (elim s [
          | some symbol ↦ record (error_of server_error r.text) { context = some symbol }
          | none ↦ elim (match_kerberos kerberos r.text) [
            | some e ↦ error_of e r.text
            | none ↦ error_of (last_entry r) r.text
          ]
        ])
    named none =
        matched (match_kerberos kerberos r.text)
          (match_kerberos-found Tells kerberos r.text kerberos-Tells)
    named (some symbol) = server_error-Tells

-- An exception that is no `SamfsconError`.
abbrev pub IsForeign : Failure → Type 0
IsForeign (own e) = ⊥
IsForeign (raised r) = Unit

module _ (nt_number werror_number : Text → Option ℕ) where
  mapped_entry-found : (r : Raised) → Found Tells (mapped_entry nt_number werror_number r)
  unfolding mapped_entry
  mapped_entry-found r =
      else_found Tells (status_entry nt_number (codes "NT_STATUS_") nt_status r)
        (status_entry werror_number (codes "WERR_") werror r)
        (status_entry-found Tells nt_number (codes "NT_STATUS_") nt_status r
          (All-append Tells nt_sign_in nt_others nt_sign_in-Tells nt_others-Tells))
        (status_entry-found Tells werror_number (codes "WERR_") werror r werror-Tells)

  translate_raised-Tells : (r : Raised) → ErrorTells (translate_raised nt_number werror_number r)
  unfolding translate_raised error_of Tells
  translate_raised-Tells r = step (mapped_entry nt_number werror_number r) (mapped_entry-found r)
    where
      step :
          (m : Option Entry)
          → Found Tells m
          → ErrorTells (elim m [ some e ↦ error_of e r.text | none ↦ translate_unmapped r ])
      step none h = unmapped-Tells r
      step (some e) h = h

  -- Two exceptions, neither of them a `SamfsconError`, that `translate` gives the same code get the
  -- same class, so that they have the same HTTP status, and the same hint, whatever the numbers of
  -- the symbols are.
  pub translate_same_code :
      (e f : Failure)
      → IsForeign e
      → IsForeign f
      → (translate nt_number werror_number e).code ≡ (translate nt_number werror_number f).code
      → ((translate nt_number werror_number e).class ≡ (translate nt_number werror_number f).class)
        × ((translate nt_number werror_number e).hint ≡ (translate nt_number werror_number f).hint)
  unfolding translate
  translate_same_code (own e) f h k same = absurd h
  translate_same_code (raised r) (own e) h k same = absurd k
  translate_same_code (raised r) (raised s) h k same =
      let same_profile =
        some-injective _ _
          (sym (translate_raised-Tells r) ∙ ap profile_of same ∙ translate_raised-Tells s) in
      (ap (λ p. p.0) same_profile, ap (λ p. p.1) same_profile)
