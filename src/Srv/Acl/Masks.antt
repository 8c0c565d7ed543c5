-- ===== src/Srv/Acl/Masks.antt =====
-- The constants of backend/samfscon/srv/acl.py. Where the source writes a union of named bits, the
-- union is taken here by `bit_or` too.
use Prim.Native.Nat.{bit_or}
use samfscon.Prelude.{ℕ, List, [], ◌∷◌}
use samfscon.Prelude.Text.{Text, codes}

abbrev pub file_read_data : ℕ
file_read_data = 0x00000001

abbrev pub file_write_data : ℕ
file_write_data = 0x00000002

abbrev pub file_append_data : ℕ
file_append_data = 0x00000004

abbrev pub file_read_ea : ℕ
file_read_ea = 0x00000008

abbrev pub file_write_ea : ℕ
file_write_ea = 0x00000010

abbrev pub file_execute : ℕ
file_execute = 0x00000020

abbrev pub file_delete_child : ℕ
file_delete_child = 0x00000040

abbrev pub file_read_attributes : ℕ
file_read_attributes = 0x00000080

abbrev pub file_write_attributes : ℕ
file_write_attributes = 0x00000100

abbrev pub delete : ℕ
delete = 0x00010000

abbrev pub read_control : ℕ
read_control = 0x00020000

abbrev pub write_dac : ℕ
write_dac = 0x00040000

abbrev pub write_owner : ℕ
write_owner = 0x00080000

abbrev pub synchronize : ℕ
synchronize = 0x00100000

abbrev pub generic_all : ℕ
generic_all = 0x10000000

abbrev pub generic_execute : ℕ
generic_execute = 0x20000000

abbrev pub generic_write : ℕ
generic_write = 0x40000000

abbrev pub generic_read : ℕ
generic_read = 0x80000000

infixl 60 ◌|||◌
abbrev pub ◌|||◌ : ℕ → ℕ → ℕ
a ||| b = bit_or a b

abbrev pub file_generic_read : ℕ
file_generic_read =
    read_control ||| file_read_data ||| file_read_attributes ||| file_read_ea ||| synchronize

abbrev pub file_generic_write : ℕ
file_generic_write =
    read_control ||| file_write_data ||| file_write_attributes ||| file_write_ea
    ||| file_append_data ||| synchronize

abbrev pub file_generic_execute : ℕ
file_generic_execute = read_control ||| file_read_attributes ||| file_execute ||| synchronize

abbrev pub file_all_access : ℕ
file_all_access = 0x001F01FF

-- `PRESETS`
abbrev pub presets : List (Text × ℕ)
presets =
    (codes "full", file_all_access ||| delete ||| write_dac ||| write_owner)
    ∷ (codes "modify", file_generic_read ||| file_generic_write ||| file_generic_execute ||| delete)
    ∷ (codes "read_execute", file_generic_read ||| file_generic_execute)
    ∷ (codes "read", file_generic_read)
    ∷ (codes "write", file_generic_write)
    ∷ []

-- The inheritance half of the flags of an entry.
abbrev pub object_inherit : ℕ
object_inherit = 0x01

abbrev pub container_inherit : ℕ
container_inherit = 0x02

abbrev pub no_propagate_inherit : ℕ
no_propagate_inherit = 0x04

abbrev pub inherit_only : ℕ
inherit_only = 0x08

abbrev pub inherited_ace : ℕ
inherited_ace = 0x10

-- `_RIGHT_LETTERS`
abbrev pub right_letters : List (Text × ℕ)
right_letters =
    (codes "GA", generic_all)
    ∷ (codes "GR", generic_read)
    ∷ (codes "GW", generic_write)
    ∷ (codes "GX", generic_execute)
    ∷ (codes "SD", delete)
    ∷ (codes "RC", read_control)
    ∷ (codes "WD", write_dac)
    ∷ (codes "WO", write_owner)
    ∷ (codes "FA", file_all_access)
    ∷ (codes "FR", file_generic_read)
    ∷ (codes "FW", file_generic_write)
    ∷ (codes "FX", file_generic_execute)
    ∷ []

-- `_FLAG_LETTERS`
abbrev pub flag_letters : List (Text × ℕ)
flag_letters =
    (codes "OI", object_inherit)
    ∷ (codes "CI", container_inherit)
    ∷ (codes "NP", no_propagate_inherit)
    ∷ (codes "IO", inherit_only)
    ∷ (codes "ID", inherited_ace)
    ∷ []

-- `_RIGHT_NAMES`
abbrev pub right_names : List (Text × ℕ)
right_names =
    (codes "read", file_read_data)
    ∷ (codes "write", file_write_data)
    ∷ (codes "append", file_append_data)
    ∷ (codes "execute", file_execute)
    ∷ (codes "delete", delete)
    ∷ (codes "delete_child", file_delete_child)
    ∷ (codes "read_attributes", file_read_attributes)
    ∷ (codes "write_attributes", file_write_attributes)
    ∷ (codes "read_permissions", read_control)
    ∷ (codes "change_permissions", write_dac)
    ∷ (codes "take_ownership", write_owner)
    ∷ []
