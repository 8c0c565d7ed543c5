-- ===== src/Core/Errors/Translate/Tests.antt =====
-- A refusal that arrives as a number, and one that arrives by its name.
use samfscon.Prelude.{ℕ, false, Option, none, some, [], ◌∷◌, ◌≡◌, refl, if◌then◌else◌}
use samfscon.Prelude.Text.{Text, codes, eq_text, is_digit, is_empty}
use samfscon.Core.Errors.Patterns.{find_symbol, symbol_here, take_symbol, after, is_symbol_char}
use samfscon.Core.Errors.Translate.{
  single, Raised, raised, translate, translate_raised, mapped_entry, status_entry, symbol_entry,
  find_entry, args_entry, candidates_entry, candidate_entry, candidates_of, numeric_entry,
  is_number, error_of,
}
use samfscon.Core.Errors.Translate.Codes.{translate_same_code}

abbrev nt_number : Text → Option ℕ
nt_number name = if eq_text name (codes "NT_STATUS_ACCESS_DENIED") then some 3221225506 else none

abbrev werror_number : Text → Option ℕ
werror_number name = none

abbrev by_number : Raised
by_number = record {
  text = codes "refused";
  args = single (some 3221225506) ∷ [];
  is_timeout = false;
  is_os_error = false;
}

abbrev by_name : Raised
by_name = record {
  text = codes "WERR_ACCESS_DENIED";
  args = [];
  is_timeout = false;
  is_os_error = false;
}

same_code :
    (translate nt_number werror_number (raised by_number)).code
    ≡ (translate nt_number werror_number (raised by_name)).code
unfolding translate translate_raised mapped_entry status_entry symbol_entry find_entry args_entry
    candidates_entry candidate_entry candidates_of numeric_entry is_number error_of find_symbol
    symbol_here take_symbol after is_symbol_char eq_text is_digit is_empty
same_code = refl

translate_same_code_example :
    ((translate nt_number werror_number (raised by_number)).class
      ≡ (translate nt_number werror_number (raised by_name)).class)
    × ((translate nt_number werror_number (raised by_number)).hint
        ≡ (translate nt_number werror_number (raised by_name)).hint)
translate_same_code_example =
    translate_same_code nt_number werror_number (raised by_number) (raised by_name) tt tt same_code
