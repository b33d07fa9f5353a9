-- ===== src/Sync/Convergence/Tests.antt =====
-- A reader becomes a writer.
use sydom.Base.{String, ◌≡◌, refl, none, List, [], ◌∷◌, ok, string_eq, list_eq}
use sydom.Base.Dict.{lookup, insert}
use sydom.Base.Int.{pos, to_uint64}
use sydom.Kernel.Types.{values, domain_value, Delta}
use sydom.Kernel.Casbin.Rows.{rows_casbin, rows_casbin-IsLawful, last_applier}
use sydom.Kernel.Engine.{Engine, returned, apply_snapshot, apply_delta}
use sydom.Kernel.Engine.Snapshots.{row_of, apply_snapshot-Loaded}
use sydom.Kernel.Engine.Example.{
  reader, writer, writer_row, new_engine, first_snapshot, first_engine, second_engine,
}
use sydom.Controlplane.Types
use sydom.Controlplane.Translate.{delta_to_proto}
use sydom.Controlplane.Diff.{diff}
use sydom.Controlplane.Diff.Example.{current_rules, desired_rules, current-IsPlain, desired-IsPlain}
use sydom.Sync.Translate.{delta_from_proto}
use sydom.Sync.Translate.RoundTrip.{added, removed}
use sydom.Sync.Convergence.{apply_delta-converges}

abbrev before : Engine rows_casbin last_applier
before = first_engine last_applier []

abbrev after : Engine rows_casbin last_applier
after = second_engine last_applier []

abbrev sent : Types.Delta
sent = record {
  app_id = pos 1;
  version = pos 2;
  rule_adds = writer ∷ [];
  rule_removes = reader ∷ [];
  data_changes = [];
}

abbrev received : Delta
received = record {
  version = 2;
  policy_changes = added writer ∷ removed reader ∷ [];
  data_changes = [];
}

differs : (sent.rule_adds, sent.rule_removes) ≡ diff current_rules desired_rules
unfolding diff string_eq lookup insert
differs = refl

arrives : delta_from_proto (delta_to_proto sent) ≡ ok received
unfolding delta_from_proto delta_to_proto values string_eq to_uint64
arrives = refl

loads :
    apply_snapshot rows_casbin last_applier (new_engine last_applier []) first_snapshot
    ≡ returned none before
unfolding apply_snapshot values string_eq list_eq domain_value
loads = refl

changes : apply_delta rows_casbin last_applier before received ≡ returned none after
unfolding apply_delta values string_eq list_eq domain_value
changes = refl

holds :
    (q : String) (row : List String) → rows_casbin.has q row before.ce ≡ row_of current_rules q row
holds q row =
    let (version, ready, domain, applied, mine, rows) =
      apply_snapshot-Loaded rows_casbin last_applier rows_casbin-IsLawful
        (new_engine last_applier []) first_snapshot before loads in
    rows q row

apply_delta-converges_example :
    rows_casbin.has "p" writer_row after.ce ≡ row_of desired_rules "p" writer_row
apply_delta-converges_example =
    apply_delta-converges rows_casbin last_applier rows_casbin-IsLawful current_rules desired_rules
      sent received before after current-IsPlain desired-IsPlain differs tt arrives holds changes
      "p" writer_row
