-- ===== src/Srv/ShareConf/Catalogue/Basic.antt =====
-- `CATALOGUE` of backend/samfscon/srv/shareconf.py: the first tab.
use samfscon.Prelude.{none, some, List, [], ◌∷◌}
use samfscon.Prelude.Text.{codes}
use samfscon.Srv.ShareConf.Types.{ShareOption, basic, bool}

abbrev pub basic_options : List ShareOption
basic_options =
    record {
      name = codes "read only";
      type = bool;
      group = basic;
      default = some (codes "yes");
      choices = [];
      doc = "Whether the share refuses every write, whatever the file permissions say.";
      doc_de = "Ob die Freigabe jeden Schreibzugriff ablehnt, unabhängig von den Dateirechten.";
      requires_vfs = none;
    }
    ∷ record {
      name = codes "browseable";
      type = bool;
      group = basic;
      default = some (codes "yes");
      choices = [];
      doc = "Whether the share appears in network browsing. Hiding it is not access control.";
      doc_de =
          "Ob die Freigabe beim Durchsuchen des Netzes erscheint. Verstecken ist keine Zugriffskontrolle.";
      requires_vfs = none;
    }
    ∷ record {
      name = codes "guest ok";
      type = bool;
      group = basic;
      default = some (codes "no");
      choices = [];
      doc = "Whether connecting without a password is allowed. Rarely what anyone wants.";
      doc_de = "Ob eine Verbindung ohne Passwort erlaubt ist. Fast nie das, was gemeint war.";
      requires_vfs = none;
    }
    ∷ record {
      name = codes "available";
      type = bool;
      group = basic;
      default = some (codes "yes");
      choices = [];
      doc = "Set to no to switch the share off without deleting its configuration.";
      doc_de =
          "Auf „nein“ setzen, um die Freigabe abzuschalten, ohne ihre Konfiguration zu löschen.";
      requires_vfs = none;
    }
    ∷ []
