-- ===== src/Srv/ShareConf/Catalogue/Files.antt =====
-- `CATALOGUE` of backend/samfscon/srv/shareconf.py: what files look like.
use samfscon.Prelude.{none, some, List, [], ◌∷◌}
use samfscon.Prelude.Text.{codes}
use samfscon.Srv.ShareConf.Types.{ShareOption, files, bool, mode, text}

abbrev pub files_options : List ShareOption
files_options =
    record {
      name = codes "create mask";
      type = mode;
      group = files;
      default = some (codes "0744");
      choices = [];
      doc = "The most permissive Unix mode a new file may get.";
      doc_de = "Die weitesten Unix-Rechte, die eine neue Datei bekommen darf.";
      requires_vfs = none;
    }
    ∷ record {
      name = codes "directory mask";
      type = mode;
      group = files;
      default = some (codes "0755");
      choices = [];
      doc = "The most permissive Unix mode a new directory may get.";
      doc_de = "Die weitesten Unix-Rechte, die ein neues Verzeichnis bekommen darf.";
      requires_vfs = none;
    }
    ∷ record {
      name = codes "force create mode";
      type = mode;
      group = files;
      default = some (codes "0000");
      choices = [];
      doc = "Bits every new file gets, whatever the client asked for.";
      doc_de = "Bits, die jede neue Datei bekommt, unabhängig vom Wunsch des Clients.";
      requires_vfs = none;
    }
    ∷ record {
      name = codes "force directory mode";
      type = mode;
      group = files;
      default = some (codes "0000");
      choices = [];
      doc = "Bits every new directory gets, whatever the client asked for.";
      doc_de = "Bits, die jedes neue Verzeichnis bekommt, unabhängig vom Wunsch des Clients.";
      requires_vfs = none;
    }
    ∷ record {
      name = codes "force user";
      type = text;
      group = files;
      default = none;
      choices = [];
      doc =
          "Every connection acts as this Unix account. Convenient and blunt: the file permissions then no longer tell people apart.";
      doc_de =
          "Jede Verbindung handelt als dieses Unix-Konto. Bequem und grob: die Dateirechte unterscheiden die Benutzer dann nicht mehr.";
      requires_vfs = none;
    }
    ∷ record {
      name = codes "force group";
      type = text;
      group = files;
      default = none;
      choices = [];
      doc = "Every connection acts with this Unix group as its primary one.";
      doc_de = "Jede Verbindung handelt mit dieser Unix-Gruppe als primärer Gruppe.";
      requires_vfs = none;
    }
    ∷ record {
      name = codes "hide unreadable";
      type = bool;
      group = files;
      default = some (codes "no");
      choices = [];
      doc = "Leave out of listings what the user may not read. Costs a stat per entry.";
      doc_de =
          "Aus Auflistungen weglassen, was der Benutzer nicht lesen darf. Kostet einen stat-Aufruf pro Eintrag.";
      requires_vfs = none;
    }
    ∷ record {
      name = codes "veto files";
      type = text;
      group = files;
      default = none;
      choices = [];
      doc =
          "Patterns of files that do not exist as far as clients are concerned, separated by slashes: /.DS_Store/Thumbs.db/";
      doc_de =
          "Muster für Dateien, die es für Clients nicht gibt, durch Schrägstriche getrennt: /.DS_Store/Thumbs.db/";
      requires_vfs = none;
    }
    ∷ record {
      name = codes "follow symlinks";
      type = bool;
      group = files;
      default = some (codes "yes");
      choices = [];
      doc = "Whether symlinks are followed. Turning it off is a containment measure.";
      doc_de = "Ob symbolischen Links gefolgt wird. Abschalten ist eine Eingrenzungsmaßnahme.";
      requires_vfs = none;
    }
    ∷ []
