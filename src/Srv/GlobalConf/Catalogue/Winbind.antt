-- ===== src/Srv/GlobalConf/Catalogue/Winbind.antt =====
-- `CATALOGUE` of backend/samfscon/srv/globalconf.py: the tab `winbind`.
use samfscon.Prelude.{none, some, List, [], ◌∷◌}
use samfscon.Prelude.Text.{codes}
use samfscon.Srv.ShareConf.Types.{bool, text, int}
use samfscon.Srv.GlobalConf.Types.{
  GlobalOption, winbind, safe, risky, read_only, reload, restart, winbindd, mode_ad_member,
}

abbrev pub winbind_options : List GlobalOption
winbind_options =
    record {
      name = codes "winbind use default domain";
      type = bool;
      group = winbind;
      default = some (codes "no");
      default_note = none;
      choices = [];
      doc =
          "Whether an unqualified name means a domain account. Turning it on changes who `Administrator` refers to, and with it who owns what in every permission list.";
      doc_de =
          "Ob ein Name ohne Domänenpräfix ein Domänenkonto meint. Eingeschaltet ändert sich, wen „Administrator“ bezeichnet — und damit, wem in jeder Rechteliste was gehört.";
      safety = risky;
      risk = some (codes "identity_meaning_changes");
      read_only_reason = none;
      read_only_in = [];
      mode_only = some mode_ad_member;
      effect = reload;
      daemons = (winbindd ∷ []);
      live_source = none;
    }
    ∷ record {
      name = codes "winbind enum users";
      type = bool;
      group = winbind;
      default = some (codes "no");
      default_note = none;
      choices = [];
      doc =
          "Whether the whole domain appears in the server's user list. On a large domain this makes ordinary tools hang.";
      doc_de =
          "Ob die ganze Domäne in der Benutzerliste des Servers erscheint. In einer großen Domäne bleiben gewöhnliche Werkzeuge damit hängen.";
      safety = safe;
      risk = none;
      read_only_reason = none;
      read_only_in = [];
      mode_only = some mode_ad_member;
      effect = reload;
      daemons = (winbindd ∷ []);
      live_source = none;
    }
    ∷ record {
      name = codes "winbind enum groups";
      type = bool;
      group = winbind;
      default = some (codes "no");
      default_note = none;
      choices = [];
      doc = "The same for groups, with the same cost.";
      doc_de = "Dasselbe für Gruppen, mit denselben Kosten.";
      safety = safe;
      risk = none;
      read_only_reason = none;
      read_only_in = [];
      mode_only = some mode_ad_member;
      effect = reload;
      daemons = (winbindd ∷ []);
      live_source = none;
    }
    ∷ record {
      name = codes "template shell";
      type = text;
      group = winbind;
      default = some (codes "/bin/false");
      default_note = none;
      choices = [];
      doc = "The login shell domain accounts get where none is stored for them.";
      doc_de = "Die Anmelde-Shell, die Domänenkonten bekommen, wenn keine für sie hinterlegt ist.";
      safety = safe;
      risk = none;
      read_only_reason = none;
      read_only_in = [];
      mode_only = some mode_ad_member;
      effect = reload;
      daemons = (winbindd ∷ []);
      live_source = none;
    }
    ∷ record {
      name = codes "template homedir";
      type = text;
      group = winbind;
      default = some (codes "/home/%D/%U");
      default_note = none;
      choices = [];
      doc = "The home directory path domain accounts get.";
      doc_de = "Der Pfad des Heimatverzeichnisses, den Domänenkonten bekommen.";
      safety = safe;
      risk = none;
      read_only_reason = none;
      read_only_in = [];
      mode_only = some mode_ad_member;
      effect = reload;
      daemons = (winbindd ∷ []);
      live_source = none;
    }
    ∷ record {
      name = codes "winbind cache time";
      type = int;
      group = winbind;
      default = some (codes "300");
      default_note = none;
      choices = [];
      doc = "How many seconds a looked-up name stays cached.";
      doc_de = "Wie viele Sekunden ein nachgeschlagener Name im Zwischenspeicher bleibt.";
      safety = safe;
      risk = none;
      read_only_reason = none;
      read_only_in = [];
      mode_only = some mode_ad_member;
      effect = reload;
      daemons = (winbindd ∷ []);
      live_source = none;
    }
    ∷ record {
      name = codes "winbind separator";
      type = text;
      group = winbind;
      default = some (codes "\\");
      default_note = none;
      choices = [];
      doc =
          "The character between domain and account name. Shown, not edited: changing it invalidates every stored name string and every ACL entry this console displays, and winbindd has to be restarted, which SAMFSCON cannot do.";
      doc_de =
          "Das Zeichen zwischen Domänen- und Kontoname. Wird angezeigt, nicht bearbeitet: eine Änderung entwertet jede gespeicherte Namenszeichenkette und jeden Rechteeintrag, den diese Konsole anzeigt, und winbindd muss neu gestartet werden — was SAMFSCON nicht kann.";
      safety = read_only;
      risk = none;
      read_only_reason = some (codes "invalidates_stored_names");
      read_only_in = [];
      mode_only = some mode_ad_member;
      effect = restart;
      daemons = (winbindd ∷ []);
      live_source = none;
    }
    ∷ []
