-- ===== src/Srv/ShareConf/Catalogue/Vfs.antt =====
-- `CATALOGUE` of backend/samfscon/srv/shareconf.py: the modules and their options.
use samfscon.Prelude.{none, some, List, [], ◌∷◌}
use samfscon.Prelude.Text.{codes}
use samfscon.Srv.ShareConf.Types.{ShareOption, vfs, bool, choice, int, list, text}

abbrev pub vfs_options : List ShareOption
vfs_options =
    record {
      name = codes "vfs objects";
      type = list;
      group = vfs;
      default = none;
      choices = [];
      doc =
          "Modules layered over the file system, in order. The order matters: each sees what the one before it passed on.";
      doc_de =
          "Module, die über das Dateisystem gelegt werden, in dieser Reihenfolge. Die Reihenfolge zählt: jedes sieht, was das vorige durchgereicht hat.";
      requires_vfs = none;
    }
    ∷ record {
      name = codes "recycle:repository";
      type = text;
      group = vfs;
      default = some (codes ".recycle");
      choices = [];
      doc = "Where deleted files go, relative to the share root.";
      doc_de = "Wohin gelöschte Dateien wandern, relativ zur Wurzel der Freigabe.";
      requires_vfs = some (codes "recycle");
    }
    ∷ record {
      name = codes "recycle:keeptree";
      type = bool;
      group = vfs;
      default = some (codes "no");
      choices = [];
      doc = "Keep the directory structure inside the recycle bin.";
      doc_de = "Die Verzeichnisstruktur im Papierkorb erhalten.";
      requires_vfs = some (codes "recycle");
    }
    ∷ record {
      name = codes "recycle:versions";
      type = bool;
      group = vfs;
      default = some (codes "no");
      choices = [];
      doc = "Keep several deleted versions of the same name instead of overwriting.";
      doc_de = "Mehrere gelöschte Fassungen desselben Namens behalten, statt zu überschreiben.";
      requires_vfs = some (codes "recycle");
    }
    ∷ record {
      name = codes "recycle:exclude";
      type = list;
      group = vfs;
      default = none;
      choices = [];
      doc = "Patterns that are deleted outright rather than moved to the bin.";
      doc_de = "Muster, die sofort gelöscht statt in den Papierkorb verschoben werden.";
      requires_vfs = some (codes "recycle");
    }
    ∷ record {
      name = codes "recycle:maxsize";
      type = int;
      group = vfs;
      default = some (codes "0");
      choices = [];
      doc = "Files larger than this many bytes are deleted outright. 0 means no limit.";
      doc_de = "Dateien über dieser Größe in Bytes werden sofort gelöscht. 0 heißt: keine Grenze.";
      requires_vfs = some (codes "recycle");
    }
    ∷ record {
      name = codes "shadow:snapdir";
      type = text;
      group = vfs;
      default = some (codes ".snapshots");
      choices = [];
      doc = "Where the snapshots live, so Windows can offer 'Previous Versions'.";
      doc_de = "Wo die Snapshots liegen, damit Windows „Vorgängerversionen“ anbieten kann.";
      requires_vfs = some (codes "shadow_copy2");
    }
    ∷ record {
      name = codes "shadow:format";
      type = text;
      group = vfs;
      default = some (codes "@GMT-%Y.%m.%d-%H.%M.%S");
      choices = [];
      doc = "How a snapshot directory's name encodes its timestamp.";
      doc_de = "Wie der Name eines Snapshot-Verzeichnisses seinen Zeitstempel kodiert.";
      requires_vfs = some (codes "shadow_copy2");
    }
    ∷ record {
      name = codes "shadow:sort";
      type = choice;
      group = vfs;
      default = some (codes "desc");
      choices = codes "asc" ∷ codes "desc" ∷ [];
      doc = "The order snapshots are offered in.";
      doc_de = "Die Reihenfolge, in der Snapshots angeboten werden.";
      requires_vfs = some (codes "shadow_copy2");
    }
    ∷ record {
      name = codes "full_audit:success";
      type = list;
      group = vfs;
      default = none;
      choices = [];
      doc = "Which successful operations are logged, e.g. open unlink rename rmdir.";
      doc_de =
          "Welche erfolgreichen Vorgänge protokolliert werden, z. B. open unlink rename rmdir.";
      requires_vfs = some (codes "full_audit");
    }
    ∷ record {
      name = codes "full_audit:failure";
      type = list;
      group = vfs;
      default = none;
      choices = [];
      doc = "Which failed operations are logged.";
      doc_de = "Welche fehlgeschlagenen Vorgänge protokolliert werden.";
      requires_vfs = some (codes "full_audit");
    }
    ∷ record {
      name = codes "full_audit:facility";
      type = text;
      group = vfs;
      default = some (codes "USER");
      choices = [];
      doc = "The syslog facility the audit lines go to.";
      doc_de = "Die syslog-Facility, in die die Protokollzeilen gehen.";
      requires_vfs = some (codes "full_audit");
    }
    ∷ record {
      name = codes "full_audit:priority";
      type = text;
      group = vfs;
      default = some (codes "NOTICE");
      choices = [];
      doc = "The syslog priority the audit lines go to.";
      doc_de = "Die syslog-Priorität, mit der die Protokollzeilen geschrieben werden.";
      requires_vfs = some (codes "full_audit");
    }
    ∷ []
