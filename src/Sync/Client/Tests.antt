-- ===== src/Sync/Client/Tests.antt =====
-- A subscription that loads a snapshot, applies one change and then breaks.
use sydom.Base.{
  false, ℕ, ◌≡◌, refl, false, none, some, [], ◌∷◌, ok, err, string_eq, list_eq, nat_eq,
}
use sydom.Base.Int.{pos}
use sydom.Errors.{external}
use sydom.Kernel.Types.{values, domain_value}
use sydom.Kernel.Casbin.Rows.{rows_casbin, rows_casbin-IsLawful, last_applier}
use sydom.Kernel.Engine.{Engine}
use sydom.Kernel.Engine.Example.{reader, writer, member, new_engine, first_engine, second_engine}
use sydom.Controlplane.Translate.{rule_to_proto, add_message, remove_message}
use sydom.Sync.Backoff.{Backoff}
use sydom.Sync.Client.{SyncClient, Moment, ended, handle_event, connect_and_serve}
use sydom.Sync.Client.Progress.{Handled, handle_event-Handled}
use sydom.Sync.Client.Guarded.{IsGuarded, Keeps, connect_and_serve-Keeps}
use sydom.Wire
use sydom.Wire.{event_delta, event_heartbeat}

abbrev idle : Backoff
idle = record { initial = pos 3; max = pos 10; attempt = 0 }

abbrev client_with : Engine rows_casbin last_applier → ℕ → ℕ → SyncClient rows_casbin last_applier
client_with e last applied = record {
  engine = e;
  last_sync_at = last;
  connected = false;
  snapshots_applied = applied;
  backoff = idle;
}

abbrev start : SyncClient rows_casbin last_applier
start = client_with (new_engine last_applier []) 0 0

abbrev loaded : SyncClient rows_casbin last_applier
loaded = client_with (first_engine last_applier []) 10 1

abbrev finish : SyncClient rows_casbin last_applier
finish = client_with (second_engine last_applier []) 20 1

abbrev snapshot : Wire.Snapshot
snapshot = record {
  version = 1;
  rules = rule_to_proto reader ∷ rule_to_proto member ∷ [];
  data_policies = [];
}

abbrev change : Wire.Delta
change = record {
  version = 2;
  policy_changes = add_message writer ∷ remove_message reader ∷ [];
  data_changes = [];
}

abbrev at_start : Moment
at_start = record { now = 10; pulled = ok snapshot }

abbrev later : Moment
later = record { now = 20; pulled = err (external "unreachable") }

handles_change :
    handle_event rows_casbin last_applier later (event_delta change) loaded ≡ ended none finish
unfolding handle_event nat_eq values string_eq list_eq domain_value rule_to_proto
handles_change = refl

-- A heartbeat that is ahead wants a snapshot, which cannot be had.
missed :
    handle_event rows_casbin last_applier later (event_heartbeat 5) loaded
    ≡ ended (some (external "unreachable")) loaded
unfolding handle_event
missed = refl

serves :
    connect_and_serve rows_casbin last_applier at_start none false
      ((later, event_delta change) ∷ [])
      start
    ≡ ended (some (external "the stream broke")) finish
unfolding connect_and_serve nat_eq values string_eq list_eq domain_value rule_to_proto
serves = refl

start-IsGuarded : IsGuarded rows_casbin last_applier start.engine
start-IsGuarded on = cc

handle_event-Handled_example :
    Handled rows_casbin last_applier rows_casbin-IsLawful later loaded none finish
handle_event-Handled_example =
    handle_event-Handled rows_casbin last_applier rows_casbin-IsLawful later (event_delta change)
      loaded none finish handles_change

connect_and_serve-Keeps_example : Keeps rows_casbin last_applier start.engine finish.engine
connect_and_serve-Keeps_example =
    connect_and_serve-Keeps rows_casbin last_applier rows_casbin-IsLawful at_start none false
      ((later, event_delta change) ∷ []) start (some (external "the stream broke")) finish
      start-IsGuarded serves
