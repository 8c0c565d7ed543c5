-- ===== src/Srv/ShareConf/Catalogue/Advanced.antt =====
-- `CATALOGUE` of backend/samfscon/srv/shareconf.py: the rest.
use samfscon.Prelude.{none, some, List, [], ◌∷◌}
use samfscon.Prelude.Text.{codes}
use samfscon.Srv.ShareConf.Types.{ShareOption, advanced, bool, choice}

abbrev pub advanced_options : List ShareOption
advanced_options =
    record {
      name = codes "inherit acls";
      type = bool;
      group = advanced;
      default = some (codes "no");
      choices = [];
      doc = "New files and directories inherit the parent's ACL rather than the masks.";
      doc_de =
          "Neue Dateien und Verzeichnisse erben die ACL des übergeordneten Verzeichnisses statt der Masken.";
      requires_vfs = none;
    }
    ∷ record {
      name = codes "inherit permissions";
      type = bool;
      group = advanced;
      default = some (codes "no");
      choices = [];
      doc = "New entries inherit the parent's Unix mode instead of using the masks.";
      doc_de =
          "Neue Einträge erben die Unix-Rechte des übergeordneten Verzeichnisses, statt die Masken zu benutzen.";
      requires_vfs = none;
    }
    ∷ record {
      name = codes "inherit owner";
      type = choice;
      group = advanced;
      default = some (codes "no");
      choices = codes "no" ∷ codes "windows and unix" ∷ codes "unix only" ∷ [];
      doc = "New entries take the parent directory's owner rather than the creator's.";
      doc_de =
          "Neue Einträge übernehmen den Besitzer des übergeordneten Verzeichnisses statt den des Erzeugers.";
      requires_vfs = none;
    }
    ∷ record {
      name = codes "access based share enum";
      type = bool;
      group = advanced;
      default = some (codes "no");
      choices = [];
      doc = "Hide the share from anyone who could not open it anyway.";
      doc_de = "Die Freigabe vor allen verbergen, die sie ohnehin nicht öffnen könnten.";
      requires_vfs = none;
    }
    ∷ record {
      name = codes "store dos attributes";
      type = bool;
      group = advanced;
      default = some (codes "yes");
      choices = [];
      doc = "Keep the DOS attribute bits in an extended attribute rather than in the mode.";
      doc_de =
          "Die DOS-Attributbits in einem erweiterten Attribut halten statt in den Unix-Rechten.";
      requires_vfs = none;
    }
    ∷ record {
      name = codes "strict allocate";
      type = bool;
      group = advanced;
      default = some (codes "no");
      choices = [];
      doc = "Allocate the blocks for a file up front. Slower, but no sparse files.";
      doc_de = "Die Blöcke einer Datei sofort belegen. Langsamer, dafür keine Sparse-Dateien.";
      requires_vfs = none;
    }
    ∷ []
