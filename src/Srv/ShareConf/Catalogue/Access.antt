-- ===== src/Srv/ShareConf/Catalogue/Access.antt =====
-- `CATALOGUE` of backend/samfscon/srv/shareconf.py: who may connect.
use samfscon.Prelude.{none, some, List, [], ◌∷◌}
use samfscon.Prelude.Text.{codes}
use samfscon.Srv.ShareConf.Types.{ShareOption, access, int, list}

abbrev pub access_options : List ShareOption
access_options =
    record {
      name = codes "valid users";
      type = list;
      group = access;
      default = none;
      choices = [];
      doc =
          "Only these accounts and groups may connect at all. A group is written with a leading @. Empty means everyone the file permissions allow.";
      doc_de =
          "Nur diese Konten und Gruppen dürfen sich überhaupt verbinden. Eine Gruppe wird mit führendem @ geschrieben. Leer heißt: alle, die die Dateirechte zulassen.";
      requires_vfs = none;
    }
    ∷ record {
      name = codes "invalid users";
      type = list;
      group = access;
      default = none;
      choices = [];
      doc = "These accounts are refused even when everything else would allow them.";
      doc_de = "Diese Konten werden abgewiesen, auch wenn alles andere sie zulassen würde.";
      requires_vfs = none;
    }
    ∷ record {
      name = codes "write list";
      type = list;
      group = access;
      default = none;
      choices = [];
      doc = "Accounts that may write even on a read-only share.";
      doc_de = "Konten, die auch auf einer nur lesbaren Freigabe schreiben dürfen.";
      requires_vfs = none;
    }
    ∷ record {
      name = codes "read list";
      type = list;
      group = access;
      default = none;
      choices = [];
      doc = "Accounts that may only read, even on a writable share.";
      doc_de = "Konten, die nur lesen dürfen, auch auf einer beschreibbaren Freigabe.";
      requires_vfs = none;
    }
    ∷ record {
      name = codes "hosts allow";
      type = list;
      group = access;
      default = none;
      choices = [];
      doc = "Addresses or networks that may connect. Everything else is refused.";
      doc_de = "Adressen oder Netze, die sich verbinden dürfen. Alles andere wird abgewiesen.";
      requires_vfs = none;
    }
    ∷ record {
      name = codes "hosts deny";
      type = list;
      group = access;
      default = none;
      choices = [];
      doc = "Addresses or networks that are refused. Checked after hosts allow.";
      doc_de = "Adressen oder Netze, die abgewiesen werden. Wird nach „hosts allow“ geprüft.";
      requires_vfs = none;
    }
    ∷ record {
      name = codes "max connections";
      type = int;
      group = access;
      default = some (codes "0");
      choices = [];
      doc = "How many clients may be connected at once. 0 means no limit.";
      doc_de = "Wie viele Clients gleichzeitig verbunden sein dürfen. 0 heißt: unbegrenzt.";
      requires_vfs = none;
    }
    ∷ []
