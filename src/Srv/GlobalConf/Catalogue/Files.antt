-- ===== src/Srv/GlobalConf/Catalogue/Files.antt =====
-- `CATALOGUE` of backend/samfscon/srv/globalconf.py: the tab `files`.
use samfscon.Prelude.{none, some, List, [], ◌∷◌}
use samfscon.Prelude.Text.{codes}
use samfscon.Srv.ShareConf.Types.{bool, text}
use samfscon.Srv.GlobalConf.Types.{GlobalOption, files, safe, risky, connection, smbd}

abbrev pub files_options : List GlobalOption
files_options =
    record {
      name = codes "follow symlinks";
      type = bool;
      group = files;
      default = some (codes "yes");
      default_note = none;
      choices = [];
      doc = "Whether symlinks are followed, for shares that do not decide for themselves.";
      doc_de =
          "Ob symbolischen Links gefolgt wird — für Freigaben, die es nicht selbst entscheiden.";
      safety = safe;
      risk = none;
      read_only_reason = none;
      read_only_in = [];
      mode_only = none;
      effect = connection;
      daemons = (smbd ∷ []);
      live_source = none;
    }
    ∷ record {
      name = codes "wide links";
      type = bool;
      group = files;
      default = some (codes "no");
      default_note = none;
      choices = [];
      doc =
          "Whether a symlink may lead out of its own share. Anyone who can create one can then publish any directory on the server.";
      doc_de =
          "Ob ein symbolischer Link aus seiner Freigabe herausführen darf. Wer einen anlegen kann, veröffentlicht damit jedes Verzeichnis des Servers.";
      safety = risky;
      risk = some (codes "exposure_wide_links");
      read_only_reason = none;
      read_only_in = [];
      mode_only = none;
      effect = connection;
      daemons = (smbd ∷ []);
      live_source = none;
    }
    ∷ record {
      name = codes "veto files";
      type = text;
      group = files;
      default = none;
      default_note = none;
      choices = [];
      doc =
          "Patterns of files that do not exist as far as clients are concerned, separated by slashes: /.DS_Store/Thumbs.db/ — a vetoed file also cannot be deleted, so its directory stays undeletable.";
      doc_de =
          "Muster für Dateien, die es für Clients nicht gibt, durch Schrägstriche getrennt: /.DS_Store/Thumbs.db/ — eine solche Datei lässt sich auch nicht löschen, ihr Verzeichnis bleibt also unlöschbar.";
      safety = safe;
      risk = none;
      read_only_reason = none;
      read_only_in = [];
      mode_only = none;
      effect = connection;
      daemons = (smbd ∷ []);
      live_source = none;
    }
    ∷ []
