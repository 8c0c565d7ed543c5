-- ===== src/Srv/GlobalConf/Catalogue/Advanced.antt =====
-- `CATALOGUE` of backend/samfscon/srv/globalconf.py: the tab `advanced`.
use samfscon.Prelude.{none, some, List, [], ◌∷◌}
use samfscon.Prelude.Text.{codes}
use samfscon.Srv.ShareConf.Types.{bool, text, int, choice}
use samfscon.Srv.GlobalConf.Types.{
  GlobalOption, advanced, safe, risky, read_only, connection, reload, restart, smbd, nmbd, winbindd,
}

abbrev pub advanced_options : List GlobalOption
advanced_options =
    record {
      name = codes "log level";
      type = text;
      group = advanced;
      default = some (codes "0");
      default_note = none;
      choices = [];
      doc =
          "How much the server logs, optionally per area: `1 auth:3`. From level 3 the log grows fast and the server gets measurably slower.";
      doc_de =
          "Wie ausführlich der Server protokolliert, wahlweise pro Bereich: „1 auth:3“. Ab Stufe 3 wächst das Protokoll schnell und der Server wird messbar langsamer.";
      safety = safe;
      risk = none;
      read_only_reason = none;
      read_only_in = [];
      mode_only = none;
      effect = reload;
      daemons = (smbd ∷ nmbd ∷ winbindd ∷ []);
      live_source = none;
    }
    ∷ record {
      name = codes "max log size";
      type = int;
      group = advanced;
      default = some (codes "5000");
      default_note = none;
      choices = [];
      doc = "At what size in KiB the log file is rotated. 0 means no limit.";
      doc_de =
          "Ab welcher Größe in KiB die Protokolldatei umgebrochen wird. 0 heißt: keine Grenze.";
      safety = safe;
      risk = none;
      read_only_reason = none;
      read_only_in = [];
      mode_only = none;
      effect = reload;
      daemons = (smbd ∷ []);
      live_source = none;
    }
    ∷ record {
      name = codes "deadtime";
      type = int;
      group = advanced;
      default = some (codes "10080");
      default_note = none;
      choices = [];
      doc =
          "After how many idle minutes a session with no open files is disconnected. 0 means never. SAMFSCON's own connection idles while you read a permission list, so a low value disconnects this console repeatedly.";
      doc_de =
          "Nach wie vielen untätigen Minuten eine Sitzung ohne offene Dateien getrennt wird. 0 heißt: nie. Die Verbindung von SAMFSCON ist untätig, während Sie eine Rechteliste lesen — ein niedriger Wert trennt also immer wieder diese Konsole.";
      safety = risky;
      risk = some (codes "disconnects_this_console");
      read_only_reason = none;
      read_only_in = [];
      mode_only = none;
      effect = reload;
      daemons = (smbd ∷ []);
      live_source = none;
    }
    ∷ record {
      name = codes "usershare max shares";
      type = int;
      group = advanced;
      default = some (codes "0");
      default_note = none;
      choices = [];
      doc =
          "How many shares ordinary users may publish themselves. 0 means none. Whether the server's usershare directory is set up for it cannot be read from here.";
      doc_de =
          "Wie viele Freigaben gewöhnliche Benutzer selbst veröffentlichen dürfen. 0 heißt: keine. Ob das Usershare-Verzeichnis des Servers dafür eingerichtet ist, lässt sich von hier aus nicht lesen.";
      safety = risky;
      risk = some (codes "exposure_usershares");
      read_only_reason = none;
      read_only_in = [];
      mode_only = none;
      effect = reload;
      daemons = (smbd ∷ []);
      live_source = none;
    }
    ∷ record {
      name = codes "registry shares";
      type = bool;
      group = advanced;
      default = some (codes "no");
      default_note = none;
      choices = [];
      doc =
          "Whether the server serves the shares held in the registry — the ones this console writes.";
      doc_de =
          "Ob der Server die Freigaben ausliefert, die in der Registry stehen — also die, die diese Konsole schreibt.";
      safety = risky;
      risk = some (codes "registry_shares_toggle");
      read_only_reason = none;
      read_only_in = [];
      mode_only = none;
      effect = reload;
      daemons = (smbd ∷ []);
      live_source = some (codes "observed.registry_shares_served");
    }
    ∷ record {
      name = codes "socket options";
      type = text;
      group = advanced;
      default = some (codes "TCP_NODELAY");
      default_note = none;
      choices = [];
      doc =
          "TCP options for every connection. Shown, not edited: by consensus and by the manual's own warning every non-default value is worse than the default, and a mistyped option name degrades every connection the server makes.";
      doc_de =
          "TCP-Optionen für jede Verbindung. Wird angezeigt, nicht bearbeitet: nach allgemeiner Auffassung und nach der Warnung im Handbuch selbst ist jeder abweichende Wert schlechter als der Standard, und ein Tippfehler im Optionsnamen verschlechtert jede Verbindung des Servers.";
      safety = read_only;
      risk = none;
      read_only_reason = some (codes "no_value_improves_on_the_default");
      read_only_in = [];
      mode_only = none;
      effect = connection;
      daemons = (smbd ∷ []);
      live_source = none;
    }
    ∷ record {
      name = codes "include";
      type = text;
      group = advanced;
      default = none;
      default_note = none;
      choices = [];
      doc =
          "Which further configuration file is pulled in. Shown, not edited: `include = registry` written into the registry is circular and does nothing, and any other value pulls in a file this console cannot read — after which everything on this page may be overridden by content it has no way to see.";
      doc_de =
          "Welche weitere Konfigurationsdatei eingebunden wird. Wird angezeigt, nicht bearbeitet: „include = registry“ in die Registry geschrieben ist zirkulär und bewirkt nichts, und jeder andere Wert bindet eine Datei ein, die diese Konsole nicht lesen kann — danach kann alles auf dieser Seite von Inhalten überschrieben sein, die sie nicht sehen kann.";
      safety = read_only;
      risk = none;
      read_only_reason = some (codes "hides_configuration");
      read_only_in = [];
      mode_only = none;
      effect = reload;
      daemons = (smbd ∷ []);
      live_source = none;
    }
    ∷ record {
      name = codes "config backend";
      type = choice;
      group = advanced;
      default = some (codes "file");
      default_note = none;
      choices = (codes "file" ∷ codes "registry" ∷ []);
      doc =
          "Where the server takes its configuration from. Shown, not edited: `registry` cuts the text file out entirely, which is unrecoverable if the registry is then damaged.";
      doc_de =
          "Woher der Server seine Konfiguration nimmt. Wird angezeigt, nicht bearbeitet: „registry“ schneidet die Textdatei ganz heraus — nicht wiederherstellbar, wenn die Registry danach beschädigt wird.";
      safety = read_only;
      risk = none;
      read_only_reason = some (codes "hides_configuration");
      read_only_in = [];
      mode_only = none;
      effect = restart;
      daemons = (smbd ∷ []);
      live_source = none;
    }
    ∷ []
