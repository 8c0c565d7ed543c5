-- ===== src/Core/Errors/Tables/NtStatus.antt =====
-- Entries of the tables of backend/samfscon/core/errors.py.
use samfscon.Prelude.{none, some, List, [], ◌∷◌}
use samfscon.Prelude.Text.{codes}
use samfscon.Core.Errors.Types.{
  Entry, authentication_error, conflict, constraint_violation, invalid_request, not_found,
  operation_timeout, permission_denied, samfscon_error, upstream_unavailable,
}

-- The first entries of `_NT_STATUS`
abbrev pub nt_sign_in : List Entry
nt_sign_in =
    (record {
      symbol = codes "NT_STATUS_LOGON_FAILURE";
      class = authentication_error;
      code = codes "invalid_credentials";
      message = "Wrong user name or password.";
      hint = none;
    })
    ∷ (record {
      symbol = codes "NT_STATUS_ACCOUNT_LOCKED_OUT";
      class = authentication_error;
      code = codes "account_locked_out";
      message = "The account is locked out.";
      hint = none;
    })
    ∷ (record {
      symbol = codes "NT_STATUS_ACCOUNT_DISABLED";
      class = authentication_error;
      code = codes "account_disabled";
      message = "The account is disabled.";
      hint = none;
    })
    ∷ (record {
      symbol = codes "NT_STATUS_ACCOUNT_EXPIRED";
      class = authentication_error;
      code = codes "account_expired";
      message = "The account has expired.";
      hint = none;
    })
    ∷ (record {
      symbol = codes "NT_STATUS_PASSWORD_EXPIRED";
      class = authentication_error;
      code = codes "password_expired";
      message = "The password has expired.";
      hint = none;
    })
    ∷ (record {
      symbol = codes "NT_STATUS_PASSWORD_MUST_CHANGE";
      class = authentication_error;
      code = codes "password_must_change";
      message = "The password must be changed before this account can be used.";
      hint = none;
    })
    ∷ (record {
      symbol = codes "NT_STATUS_ACCESS_DENIED";
      class = permission_denied;
      code = codes "insufficient_access";
      message = "The server refused this operation for your account.";
      hint =
          some
            "The server did not say which permission is missing, and which one it is depends on what was attempted: write access on the parent directory for a file or folder, SeDiskOperatorPrivilege for a share, write access to the registry for the configuration.";
    })
    ∷ (record {
      symbol = codes "NT_STATUS_NETWORK_ACCESS_DENIED";
      class = permission_denied;
      code = codes "insufficient_access";
      message = "The server refused this operation for your account.";
      hint =
          some
            "The server did not say which permission is missing, and which one it is depends on what was attempted: write access on the parent directory for a file or folder, SeDiskOperatorPrivilege for a share, write access to the registry for the configuration.";
    })
    ∷ (record {
      symbol = codes "NT_STATUS_OBJECT_NAME_NOT_FOUND";
      class = not_found;
      code = codes "not_found";
      message = "The file or directory does not exist.";
      hint = none;
    })
    ∷ (record {
      symbol = codes "NT_STATUS_OBJECT_PATH_NOT_FOUND";
      class = not_found;
      code = codes "not_found";
      message = "The path does not exist on the share.";
      hint = none;
    })
    ∷ (record {
      symbol = codes "NT_STATUS_OBJECT_NAME_COLLISION";
      class = conflict;
      code = codes "already_exists";
      message = "The file or directory already exists.";
      hint = none;
    })
    ∷ (record {
      symbol = codes "NT_STATUS_SHARING_VIOLATION";
      class = conflict;
      code = codes "file_in_use";
      message = "The file is currently in use.";
      hint = some "Someone has it open. The session view shows who.";
    })
    ∷ (record {
      symbol = codes "NT_STATUS_DIRECTORY_NOT_EMPTY";
      class = conflict;
      code = codes "not_empty";
      message = "The directory is not empty.";
      hint = none;
    })
    ∷ (record {
      symbol = codes "NT_STATUS_CONNECTION_REFUSED";
      class = upstream_unavailable;
      code = codes "server_unreachable";
      message = "The file server refused the connection.";
      hint = none;
    })
    ∷ (record {
      symbol = codes "NT_STATUS_HOST_UNREACHABLE";
      class = upstream_unavailable;
      code = codes "server_unreachable";
      message = "The file server is unreachable.";
      hint = none;
    })
    ∷ (record {
      symbol = codes "NT_STATUS_NETWORK_UNREACHABLE";
      class = upstream_unavailable;
      code = codes "server_unreachable";
      message = "The file server is unreachable.";
      hint = none;
    })
    ∷ []

-- The other entries of `_NT_STATUS`
abbrev pub nt_others : List Entry
nt_others =
    (record {
      symbol = codes "NT_STATUS_IO_TIMEOUT";
      class = operation_timeout;
      code = codes "server_timeout";
      message = "The file server did not answer in time.";
      hint = none;
    })
    ∷ (record {
      symbol = codes "NT_STATUS_BAD_NETWORK_NAME";
      class = not_found;
      code = codes "share_not_found";
      message = "The share does not exist on this server.";
      hint = none;
    })
    ∷ (record {
      symbol = codes "NT_STATUS_INVALID_PARAMETER";
      class = invalid_request;
      code = codes "invalid_parameter";
      message = "The server rejected a parameter of the request.";
      hint = none;
    })
    ∷ (record {
      symbol = codes "NT_STATUS_PASSWORD_RESTRICTION";
      class = constraint_violation;
      code = codes "password_policy_violation";
      message = "The password does not satisfy the server's password policy.";
      hint = some "Check length, complexity, minimum age and password history.";
    })
    ∷ (record {
      symbol = codes "NT_STATUS_WRONG_PASSWORD";
      class = authentication_error;
      code = codes "invalid_credentials";
      message = "Wrong password.";
      hint = none;
    })
    ∷ (record {
      symbol = codes "NT_STATUS_NO_SUCH_USER";
      class = authentication_error;
      code = codes "user_not_found";
      message = "No such account on this server.";
      hint = none;
    })
    ∷ (record {
      symbol = codes "NT_STATUS_USER_EXISTS";
      class = conflict;
      code = codes "already_exists";
      message = "An account with this name already exists.";
      hint = none;
    })
    ∷ (record {
      symbol = codes "NT_STATUS_GROUP_EXISTS";
      class = conflict;
      code = codes "already_exists";
      message = "A group with this name already exists.";
      hint = none;
    })
    ∷ (record {
      symbol = codes "NT_STATUS_MEMBER_IN_GROUP";
      class = conflict;
      code = codes "already_member";
      message = "The account is already a member of this group.";
      hint = none;
    })
    ∷ (record {
      symbol = codes "NT_STATUS_MEMBER_NOT_IN_GROUP";
      class = not_found;
      code = codes "not_a_member";
      message = "The account is not a member of this group.";
      hint = none;
    })
    ∷ (record {
      symbol = codes "NT_STATUS_NONE_MAPPED";
      class = not_found;
      code = codes "sid_not_resolved";
      message = "The name could not be resolved to an account.";
      hint = some "Spell it as it exists on the server, or as DOMAIN\\name for a domain account.";
    })
    ∷ (record {
      symbol = codes "NT_STATUS_TIME_DIFFERENCE_AT_DC";
      class = authentication_error;
      code = codes "clock_skew";
      message = "The clocks of SAMFSCON and the domain controller differ too much.";
      hint =
          some "Kerberos tolerates about five minutes — synchronise the container's clock via NTP.";
    })
    ∷ (record {
      symbol = codes "NT_STATUS_NOT_SUPPORTED";
      class = samfscon_error;
      code = codes "not_supported";
      message = "The server does not support this operation.";
      hint = none;
    })
    ∷ (record {
      symbol = codes "NT_STATUS_INVALID_INFO_CLASS";
      class = samfscon_error;
      code = codes "unsupported_info_level";
      message = "The server does not support this information level.";
      hint = some "The Samba version on the server is probably older than SAMFSCON expects.";
    })
    ∷ (record {
      symbol = codes "NT_STATUS_REVISION_MISMATCH";
      class = samfscon_error;
      code = codes "smb_dialect_mismatch";
      message = "The call is not available over the negotiated SMB dialect.";
      hint = none;
    })
    ∷ []
