-- ===== src/Srv/GlobalConf/Catalogue/Protocol.antt =====
-- `CATALOGUE` of backend/samfscon/srv/globalconf.py: the tab `protocol`.
use samfscon.Prelude.{none, some, List, [], ◌∷◌}
use samfscon.Prelude.Text.{codes}
use samfscon.Srv.ShareConf.Types.{bool, choice}
use samfscon.Srv.GlobalConf.Types.{
  GlobalOption, protocol, safe, risky, connection, smbd, winbindd, dialects,
}

abbrev pub protocol_options : List GlobalOption
protocol_options =
    record {
      name = codes "server min protocol";
      type = choice;
      group = protocol;
      default = some (codes "SMB2_02");
      default_note = none;
      choices = dialects;
      doc =
          "The oldest SMB dialect the server accepts. Raising it refuses every client that cannot reach the new floor, with no message a user can act on.";
      doc_de =
          "Der älteste SMB-Dialekt, den der Server annimmt. Ein höherer Wert weist jeden Client ab, der die neue Untergrenze nicht erreicht — ohne Meldung, mit der ein Benutzer etwas anfangen kann.";
      safety = risky;
      risk = some (codes "lockout_dialect_floor");
      read_only_reason = none;
      read_only_in = [];
      mode_only = none;
      effect = connection;
      daemons = (smbd ∷ []);
      live_source = none;
    }
    ∷ record {
      name = codes "server max protocol";
      type = choice;
      group = protocol;
      default = some (codes "SMB3_11");
      default_note = none;
      choices = dialects;
      doc =
          "The newest dialect the server offers. Below SMB3 this console cannot connect at all: it speaks SMB3 and nothing older.";
      doc_de =
          "Der neueste Dialekt, den der Server anbietet. Unterhalb von SMB3 kann sich diese Konsole überhaupt nicht mehr verbinden: sie spricht SMB3 und nichts Älteres.";
      safety = risky;
      risk = some (codes "lockout_dialect_ceiling");
      read_only_reason = none;
      read_only_in = [];
      mode_only = none;
      effect = connection;
      daemons = (smbd ∷ []);
      live_source = none;
    }
    ∷ record {
      name = codes "client min protocol";
      type = choice;
      group = protocol;
      default = some (codes "SMB2_02");
      default_note = none;
      choices = dialects;
      doc =
          "The oldest dialect the server uses when it is itself a client — towards a domain controller, or another file server.";
      doc_de =
          "Der älteste Dialekt, den der Server benutzt, wenn er selbst Client ist — gegenüber einem Domänencontroller oder einem anderen Dateiserver.";
      safety = safe;
      risk = none;
      read_only_reason = none;
      read_only_in = [];
      mode_only = none;
      effect = connection;
      daemons = (smbd ∷ winbindd ∷ []);
      live_source = none;
    }
    ∷ record {
      name = codes "server signing";
      type = choice;
      group = protocol;
      default = some (codes "default");
      default_note = none;
      choices = (codes "default" ∷ codes "auto" ∷ codes "mandatory" ∷ codes "disabled" ∷ []);
      doc =
          "Whether the server requires its traffic to be signed. `disabled` is the dangerous value, not `mandatory`: a client that requires signing then cannot connect, and this console is one.";
      doc_de =
          "Ob der Server verlangt, dass sein Verkehr signiert wird. Der gefährliche Wert ist „disabled“, nicht „mandatory“: ein Client, der Signierung verlangt, kommt dann gar nicht mehr durch — und diese Konsole ist so einer.";
      safety = risky;
      risk = some (codes "lockout_signing");
      read_only_reason = none;
      read_only_in = [];
      mode_only = none;
      effect = connection;
      daemons = (smbd ∷ []);
      live_source = none;
    }
    ∷ record {
      name = codes "smb encrypt";
      type = choice;
      group = protocol;
      default = some (codes "default");
      default_note = none;
      choices = (codes "default" ∷ codes "off" ∷ codes "desired" ∷ codes "required" ∷ []);
      doc =
          "Whether SMB3 encryption is offered, wanted, or insisted on. `required` refuses everything that cannot encrypt, which is everything below SMB3.";
      doc_de =
          "Ob SMB3-Verschlüsselung angeboten, gewünscht oder verlangt wird. „required“ weist alles ab, was nicht verschlüsseln kann — also alles unterhalb von SMB3.";
      safety = risky;
      risk = some (codes "availability_encryption");
      read_only_reason = none;
      read_only_in = [];
      mode_only = none;
      effect = connection;
      daemons = (smbd ∷ []);
      live_source = none;
    }
    ∷ record {
      name = codes "unix extensions";
      type = bool;
      group = protocol;
      default = some (codes "yes");
      default_note = none;
      choices = [];
      doc =
          "POSIX semantics for Unix clients. While it is on, Samba ignores `wide links` everywhere, whatever the shares say.";
      doc_de =
          "POSIX-Semantik für Unix-Clients. Solange sie an ist, beachtet Samba „wide links“ nirgends, ganz gleich was die Freigaben sagen.";
      safety = risky;
      risk = some (codes "wide_links_disabled_by_unix_extensions");
      read_only_reason = none;
      read_only_in = [];
      mode_only = none;
      effect = connection;
      daemons = (smbd ∷ []);
      live_source = none;
    }
    ∷ []
