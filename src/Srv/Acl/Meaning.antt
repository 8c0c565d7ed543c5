-- ===== src/Srv/Acl/Meaning.antt =====
-- What a mask and its flags mean: `rights_of`, `expand_generic`, `_applies_to`, `preset_mask` and
-- `effective_access` of backend/samfscon/srv/acl.py, and the property `preset` of an entry.
pub mod Presets
use Prim.Native.Nat.{bit_and, bit_xor}
use samfscon.Prelude.{
  ℕ, Bool, true, false, Option, none, some, List, [], ◌∷◌, ◌==◌, if◌then◌else◌, ◌&&◌, not, ◌≡◌,
  refl, arith, Bool-cases, inl, inr, ==_iff,
}
use samfscon.Prelude.Text.{Text, codes, eq_text, eq_text_iff}
use samfscon.Prelude.Dict
use samfscon.Srv.Acl.Masks.{
  ◌|||◌, presets, right_names, generic_all, generic_read, generic_write, generic_execute,
  file_all_access, file_generic_read, file_generic_write, file_generic_execute, delete, write_dac,
  write_owner, object_inherit, container_inherit, inherit_only,
}
use samfscon.Srv.Acl.Rights.{has_bit}

-- `mask & ~bits`
pub clear_bits : ℕ → ℕ → ℕ
clear_bits mask bits = bit_xor mask (bit_and mask bits)

pub add_if : Bool → ℕ → ℕ → ℕ
add_if b expanded bits = if b then expanded ||| bits else expanded

pub expand_generic : ℕ → ℕ
unfolding clear_bits add_if
expand_generic mask =
    let e0 = clear_bits mask (generic_all ||| generic_read ||| generic_write ||| generic_execute) in
    let e1 =
      add_if (has_bit mask generic_all) e0
        (file_all_access ||| delete ||| write_dac ||| write_owner) in
    let e2 = add_if (has_bit mask generic_read) e1 file_generic_read in
    let e3 = add_if (has_bit mask generic_write) e2 file_generic_write in
    add_if (has_bit mask generic_execute) e3 file_generic_execute

names_in : List (Text × ℕ) → ℕ → List Text
names_in [] expanded = []
names_in ((name, bit) ∷ rest) expanded =
    let names = names_in rest expanded in if has_bit expanded bit then name ∷ names else names

pub rights_of : ℕ → List Text
unfolding names_in
rights_of mask = names_in right_names (expand_generic mask)

-- The five words of `_applies_to`
pub data AppliesTo : Type 0 where
  this_only this_and_children children_only folders files : AppliesTo

pub applies_to : ℕ → AppliesTo
applies_to flags =
    let objects = has_bit flags object_inherit in
    let containers = has_bit flags container_inherit in
    if not objects && not containers
    then this_only
    else if objects && containers
    then if not (has_bit flags inherit_only) then this_and_children else children_only
    else if containers
    then folders
    else files

-- `none` is the `InvalidRequest` with the code `unknown_preset`.
pub preset_mask : Text → Option ℕ
preset_mask name = Dict.get presets name

pub find_preset : List (Text × ℕ) → ℕ → Option Text
find_preset [] mask = none
find_preset ((name, value) ∷ rest) mask = if mask == value then some name else find_preset rest mask

-- `Ace.preset`, of the mask of the entry.
pub preset_of : ℕ → Option Text
unfolding find_preset
preset_of mask = find_preset presets mask

pub record EffectiveAccess : Type 0 where
  pub share_mask : ℕ
  pub file_mask : ℕ
  pub effective_mask : ℕ
  pub rights : List Text
  pub limited_by_share : Bool

pub effective_access : ℕ → ℕ → EffectiveAccess
effective_access share_mask file_mask =
    let share = expand_generic share_mask in
    let file = expand_generic file_mask in
    record {
      share_mask = share_mask;
      file_mask = file_mask;
      effective_mask = bit_and share file;
      rights = rights_of (bit_and share file);
      limited_by_share = not (clear_bits file share == 0);
    }
