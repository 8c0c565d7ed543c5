-- ===== src/Srv/GlobalConf/Catalogue/Printing.antt =====
-- `CATALOGUE` of backend/samfscon/srv/globalconf.py: the tab `printing`.
use samfscon.Prelude.{none, some, List, [], ◌∷◌}
use samfscon.Prelude.Text.{codes}
use samfscon.Srv.ShareConf.Types.{bool, choice}
use samfscon.Srv.GlobalConf.Types.{GlobalOption, printing, safe, risky, connection, reload, smbd}

abbrev pub printing_options : List GlobalOption
printing_options =
    record {
      name = codes "load printers";
      type = bool;
      group = printing;
      default = some (codes "yes");
      default_note = none;
      choices = [];
      doc = "Whether every printer the print system knows is published automatically.";
      doc_de = "Ob jeder dem Drucksystem bekannte Drucker automatisch veröffentlicht wird.";
      safety = safe;
      risk = none;
      read_only_reason = none;
      read_only_in = [];
      mode_only = none;
      effect = reload;
      daemons = (smbd ∷ []);
      live_source = none;
    }
    ∷ record {
      name = codes "printing";
      type = choice;
      group = printing;
      default = none;
      default_note = some (codes "compiled_in");
      choices =
          (codes "bsd"
            ∷ codes "sysv"
            ∷ codes "plp"
            ∷ codes "lprng"
            ∷ codes "aix"
            ∷ codes "hpux"
            ∷ codes "qnx"
            ∷ codes "cups"
            ∷ codes "iprint"
            ∷ []);
      doc =
          "Which print system the server talks to. Choosing it also resets every print command that is not set explicitly. Samba's own default here is a build option, and no RPC call reports build options.";
      doc_de =
          "Mit welchem Drucksystem der Server spricht. Die Wahl setzt außerdem jeden nicht ausdrücklich gesetzten Druckbefehl zurück. Sambas eigener Standardwert ist hier eine Bauoption, und kein RPC-Aufruf meldet Bauoptionen.";
      safety = safe;
      risk = none;
      read_only_reason = none;
      read_only_in = [];
      mode_only = none;
      effect = reload;
      daemons = (smbd ∷ []);
      live_source = none;
    }
    ∷ record {
      name = codes "disable spoolss";
      type = bool;
      group = printing;
      default = some (codes "no");
      default_note = none;
      choices = [];
      doc =
          "Turns off the print-management interface. Printing keeps working; installing a printer from the server stops.";
      doc_de =
          "Schaltet die Druckverwaltungsschnittstelle ab. Drucken funktioniert weiter, das Einrichten eines Druckers vom Server aus nicht mehr.";
      safety = risky;
      risk = some (codes "printing_management_off");
      read_only_reason = none;
      read_only_in = [];
      mode_only = none;
      effect = connection;
      daemons = (smbd ∷ []);
      live_source = none;
    }
    ∷ []
