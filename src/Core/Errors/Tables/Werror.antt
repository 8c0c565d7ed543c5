-- ===== src/Core/Errors/Tables/Werror.antt =====
-- Entries of the tables of backend/samfscon/core/errors.py.
use samfscon.Prelude.{none, some, List, [], ◌∷◌}
use samfscon.Prelude.Text.{codes}
use samfscon.Core.Errors.Types.{
  Entry, conflict, invalid_request, not_found, permission_denied, samfscon_error,
  upstream_unavailable,
}

-- `_WERROR`
abbrev pub werror : List Entry
werror =
    (record {
      symbol = codes "WERR_ACCESS_DENIED";
      class = permission_denied;
      code = codes "insufficient_access";
      message = "The server refused this operation for your account.";
      hint =
          some
            "The server did not say which permission is missing, and which one it is depends on what was attempted: write access on the parent directory for a file or folder, SeDiskOperatorPrivilege for a share, write access to the registry for the configuration.";
    })
    ∷ (record {
      symbol = codes "WERR_FILE_NOT_FOUND";
      class = not_found;
      code = codes "not_found";
      message = "The server did not find what the request named.";
      hint = none;
    })
    ∷ (record {
      symbol = codes "WERR_PATH_NOT_FOUND";
      class = not_found;
      code = codes "path_not_found";
      message = "The path does not exist on the server.";
      hint = none;
    })
    ∷ (record {
      symbol = codes "WERR_INVALID_NAME";
      class = invalid_request;
      code = codes "invalid_name";
      message = "The server rejected the name.";
      hint =
          some
            "The characters a share name may not contain are % < > * ? | / \\ + = ; : \" and a comma. The server also answers this when the name reaches it empty, which is a fault in the request rather than in the name.";
    })
    ∷ (record {
      symbol = codes "WERR_INVALID_PARAMETER";
      class = invalid_request;
      code = codes "invalid_parameter";
      message = "The server rejected a parameter of the request.";
      hint = none;
    })
    ∷ (record {
      symbol = codes "WERR_INVALID_LEVEL";
      class = samfscon_error;
      code = codes "unsupported_info_level";
      message = "The server does not support this information level.";
      hint = some "The Samba version on the server is probably older than SAMFSCON expects.";
    })
    ∷ (record {
      symbol = codes "WERR_NOT_SUPPORTED";
      class = samfscon_error;
      code = codes "not_supported";
      message = "The server does not support this operation.";
      hint = none;
    })
    ∷ (record {
      symbol = codes "WERR_BAD_NETPATH";
      class = upstream_unavailable;
      code = codes "server_unreachable";
      message = "The server could not be reached under this name.";
      hint = none;
    })
    ∷ (record {
      symbol = codes "WERR_NERR_NETNAMENOTFOUND";
      class = not_found;
      code = codes "share_not_found";
      message = "The share does not exist on this server.";
      hint = none;
    })
    ∷ (record {
      symbol = codes "WERR_NERR_DUPLICATESHARE";
      class = conflict;
      code = codes "share_exists";
      message = "A share with this name already exists.";
      hint = none;
    })
    ∷ (record {
      symbol = codes "WERR_NERR_UNKNOWNDEVDIR";
      class = invalid_request;
      code = codes "share_path_missing";
      message = "The directory the share should publish does not exist on the server.";
      hint =
          some
            "SAMFSCON manages the server over the network and cannot create a directory outside an existing share. Create it on the server first.";
    })
    ∷ (record {
      symbol = codes "WERR_NERR_REDIRECTEDPATH";
      class = invalid_request;
      code = codes "share_path_redirected";
      message = "The path is already redirected and cannot be shared.";
      hint = none;
    })
    ∷ (record {
      symbol = codes "WERR_NERR_USERNOTFOUND";
      class = not_found;
      code = codes "account_not_found";
      message = "No such account on this server.";
      hint = none;
    })
    ∷ (record {
      symbol = codes "WERR_NERR_CLIENTNAMENOTFOUND";
      class = not_found;
      code = codes "session_not_found";
      message = "The session no longer exists.";
      hint = some "It probably ended between the listing and this request.";
    })
    ∷ []
