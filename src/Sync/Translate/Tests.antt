-- ===== src/Sync/Translate/Tests.antt =====
-- Messages of a rule and of a change.
use sydom.Base.{◌≡◌, [], ◌∷◌, ◌++◌, map, ok}
use sydom.Base.Int.{pos, to_uint64}
use sydom.Kernel.Types.{change_update}
use sydom.Kernel.Engine.Example.{reader, writer}
use sydom.Controlplane.Types
use sydom.Controlplane.Translate.{delta_to_proto}
use sydom.Sync.Translate.{delta_from_proto}
use sydom.Sync.Translate.RoundTrip.{
  Named, added, removed, sent_data, delta_from_proto-delta_to_proto,
}

abbrev own_doc : Types.DataPolicy
own_doc = record {
  id = pos 7;
  subject_type = "user";
  subject_id = "bob";
  resource = "doc";
  condition = "{}";
  effect = "allow";
  description = "his own";
}

abbrev change : Types.Delta
change = record {
  app_id = pos 1;
  version = pos 2;
  rule_adds = writer ∷ [];
  rule_removes = reader ∷ [];
  data_changes = record { op = change_update; policy = own_doc } ∷ [];
}

change-Named : Named change.data_changes
change-Named = (λ n h. cc, tt)

delta_from_proto-delta_to_proto_example :
    delta_from_proto (delta_to_proto change)
    ≡ ok (record {
      version = to_uint64 change.version;
      policy_changes = map added change.rule_adds ++ (map removed change.rule_removes ++ []);
      data_changes = map sent_data change.data_changes;
    })
delta_from_proto-delta_to_proto_example = delta_from_proto-delta_to_proto change change-Named
