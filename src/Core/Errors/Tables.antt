-- ===== src/Core/Errors/Tables.antt =====
-- `_NT_STATUS`, `_WERROR` and `_KRB_PATTERNS` of backend/samfscon/core/errors.py.
pub mod NtStatus
pub mod Werror
pub mod Kerberos
use samfscon.Prelude.{List, ◌++◌}
use samfscon.Core.Errors.Types.{Entry}
use NtStatus.{nt_sign_in, nt_others}

abbrev pub nt_status : List Entry
nt_status = nt_sign_in ++ nt_others
