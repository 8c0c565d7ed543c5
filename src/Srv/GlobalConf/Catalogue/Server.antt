-- ===== src/Srv/GlobalConf/Catalogue/Server.antt =====
-- `CATALOGUE` of backend/samfscon/srv/globalconf.py: the tab `server`.
use samfscon.Prelude.{none, some, List, [], ◌∷◌}
use samfscon.Prelude.Text.{codes}
use samfscon.Srv.ShareConf.Types.{text, choice}
use samfscon.Srv.GlobalConf.Types.{
  GlobalOption, server, safe, risky, read_only, reload, restart, smbd, nmbd, winbindd,
  mode_ad_member,
}

abbrev pub server_options : List GlobalOption
server_options =
    record {
      name = codes "server string";
      type = text;
      group = server;
      default = some (codes "Samba");
      default_note = none;
      choices = [];
      doc = "What the server calls itself in browse lists and in a client's properties window.";
      doc_de =
          "Wie der Server sich in Netzwerklisten und im Eigenschaftenfenster eines Clients nennt.";
      safety = safe;
      risk = none;
      read_only_reason = none;
      read_only_in = [];
      mode_only = none;
      effect = reload;
      daemons = (smbd ∷ nmbd ∷ []);
      live_source = some (codes "srvsvc.comment");
    }
    ∷ record {
      name = codes "workgroup";
      type = text;
      group = server;
      default = some (codes "WORKGROUP");
      default_note = none;
      choices = [];
      doc =
          "The NetBIOS domain the server belongs to; on a domain member it has to stay exactly the joined domain's name.";
      doc_de =
          "Die NetBIOS-Domäne, zu der der Server gehört; auf einem Domänenmitglied muss sie genau der Name der beigetretenen Domäne bleiben.";
      safety = risky;
      risk = some (codes "standalone_domain_rename");
      read_only_reason = none;
      read_only_in = ((mode_ad_member, codes "member_workgroup_is_the_join") ∷ []);
      mode_only = none;
      effect = restart;
      daemons = (nmbd ∷ []);
      live_source = some (codes "session.workgroup");
    }
    ∷ record {
      name = codes "netbios name";
      type = text;
      group = server;
      default = none;
      default_note = some (codes "from_hostname");
      choices = [];
      doc =
          "The name the server answers to. Shown here and changed on the server: a new name invalidates the machine account and every Kerberos name built from it.";
      doc_de =
          "Der Name, unter dem der Server antwortet. Wird hier angezeigt und am Server geändert: ein neuer Name entwertet das Computerkonto und jeden daraus gebildeten Kerberos-Namen.";
      safety = read_only;
      risk = none;
      read_only_reason = some (codes "machine_account_identity");
      read_only_in = [];
      mode_only = none;
      effect = restart;
      daemons = (smbd ∷ nmbd ∷ []);
      live_source = some (codes "srvsvc.server_name");
    }
    ∷ record {
      name = codes "security";
      type = choice;
      group = server;
      default = some (codes "USER");
      default_note = none;
      choices = (codes "AUTO" ∷ codes "USER" ∷ codes "DOMAIN" ∷ codes "ADS" ∷ []);
      doc =
          "How the server authenticates: with its own accounts or with a domain's. Shown, not edited — the other half of that change is a domain join, and there is no RPC call for one.";
      doc_de =
          "Wie der Server authentifiziert: mit eigenen Konten oder mit denen einer Domäne. Wird angezeigt, nicht bearbeitet — die andere Hälfte dieser Änderung ist ein Domänenbeitritt, und dafür gibt es keinen RPC-Aufruf.";
      safety = read_only;
      risk = none;
      read_only_reason = some (codes "join_has_no_rpc");
      read_only_in = [];
      mode_only = none;
      effect = restart;
      daemons = (smbd ∷ winbindd ∷ []);
      live_source = some (codes "session.mode");
    }
    ∷ []
