-- ===== src/Srv/GlobalConf/Catalogue/Access.antt =====
-- `CATALOGUE` of backend/samfscon/srv/globalconf.py: the tab `access`.
use samfscon.Prelude.{none, some, List, [], ◌∷◌}
use samfscon.Prelude.Text.{codes}
use samfscon.Srv.ShareConf.Types.{bool, text, list, choice}
use samfscon.Srv.GlobalConf.Types.{
  GlobalOption, access, safe, risky, read_only, connection, reload, restart, smbd, nmbd,
}

abbrev pub access_options : List GlobalOption
access_options =
    record {
      name = codes "hosts allow";
      type = list;
      group = access;
      default = none;
      default_note = none;
      choices = [];
      doc =
          "Addresses and networks that may reach this server at all. Empty means everyone; a filled list refuses everything it does not name, this console included.";
      doc_de =
          "Adressen und Netze, die diesen Server überhaupt erreichen dürfen. Leer heißt: alle; eine gefüllte Liste weist alles ab, was nicht darin steht — auch diese Konsole.";
      safety = risky;
      risk = some (codes "lockout_hosts");
      read_only_reason = none;
      read_only_in = [];
      mode_only = none;
      effect = connection;
      daemons = (smbd ∷ []);
      live_source = none;
    }
    ∷ record {
      name = codes "hosts deny";
      type = list;
      group = access;
      default = none;
      default_note = none;
      choices = [];
      doc =
          "Addresses and networks that are refused. Checked after `hosts allow`, so an entry in both is allowed.";
      doc_de =
          "Adressen und Netze, die abgewiesen werden. Wird nach „hosts allow“ geprüft, ein Eintrag in beiden ist also erlaubt.";
      safety = risky;
      risk = some (codes "lockout_hosts");
      read_only_reason = none;
      read_only_in = [];
      mode_only = none;
      effect = connection;
      daemons = (smbd ∷ []);
      live_source = none;
    }
    ∷ record {
      name = codes "map to guest";
      type = choice;
      group = access;
      default = some (codes "Never");
      default_note = none;
      choices = (codes "Never" ∷ codes "Bad User" ∷ codes "Bad Password" ∷ codes "Bad Uid" ∷ []);
      doc =
          "What becomes of a logon that fails. Anything but `Never` turns a refusal into a quiet guest session, and the user never learns which one they got.";
      doc_de =
          "Was aus einer fehlgeschlagenen Anmeldung wird. Alles außer „Never“ macht aus einer Abweisung eine stille Gastsitzung, und der Benutzer erfährt nie, welche von beiden er bekommen hat.";
      safety = risky;
      risk = some (codes "quiet_guest_substitution");
      read_only_reason = none;
      read_only_in = [];
      mode_only = none;
      effect = connection;
      daemons = (smbd ∷ []);
      live_source = none;
    }
    ∷ record {
      name = codes "guest account";
      type = text;
      group = access;
      default = some (codes "nobody");
      default_note = none;
      choices = [];
      doc =
          "The Unix account a guest session runs as. SAMFSCON cannot check that it exists: no RPC call lists a server's Unix accounts.";
      doc_de =
          "Das Unix-Konto, unter dem eine Gastsitzung läuft. SAMFSCON kann nicht prüfen, ob es existiert: kein RPC-Aufruf listet die Unix-Konten eines Servers auf.";
      safety = safe;
      risk = none;
      read_only_reason = none;
      read_only_in = [];
      mode_only = none;
      effect = reload;
      daemons = (smbd ∷ []);
      live_source = none;
    }
    ∷ record {
      name = codes "interfaces";
      type = list;
      group = access;
      default = none;
      default_note = none;
      choices = [];
      doc =
          "Which addresses the server listens on. Shown, not edited: the sockets are bound at startup, so a mistake here does nothing until somebody restarts Samba — and then the server is unreachable and this console cannot revert it.";
      doc_de =
          "Auf welchen Adressen der Server lauscht. Wird angezeigt, nicht bearbeitet: die Sockets werden beim Start gebunden, ein Fehler wirkt also erst beim nächsten Neustart von Samba — und dann ist der Server nicht mehr erreichbar und diese Konsole kann nichts zurücknehmen.";
      safety = read_only;
      risk = none;
      read_only_reason = some (codes "bound_at_startup");
      read_only_in = [];
      mode_only = none;
      effect = restart;
      daemons = (smbd ∷ nmbd ∷ []);
      live_source = none;
    }
    ∷ record {
      name = codes "bind interfaces only";
      type = bool;
      group = access;
      default = some (codes "no");
      default_note = none;
      choices = [];
      doc =
          "Whether the list above is a restriction or only a preference. Shown, not edited, for the same reason.";
      doc_de =
          "Ob die Liste darüber eine Einschränkung ist oder nur eine Bevorzugung. Wird aus demselben Grund angezeigt und nicht bearbeitet.";
      safety = read_only;
      risk = none;
      read_only_reason = some (codes "bound_at_startup");
      read_only_in = [];
      mode_only = none;
      effect = restart;
      daemons = (smbd ∷ nmbd ∷ []);
      live_source = none;
    }
    ∷ []
