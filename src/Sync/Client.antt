-- ===== src/Sync/Client.antt =====
-- client.go: from the start of a subscription to its end. What comes from outside is an argument:
-- the clock, what PullSnapshot answers and the events of the stream.
pub mod Progress
pub mod Guarded
mod Tests
use sydom.Base.{
  ℕ, suc, ◌+◌, ◌%◌, ◌^◌, Bool, true, false, Option, none, some, List, [], ◌∷◌, Result, ok, err,
  ◌==◌, nat_eq, leb, ltb, if◌then◌else◌,
}
use sydom.Errors.{Error, stale_version, external}
use sydom.Kernel.Types.{Delta, Snapshot}
use sydom.Kernel.Casbin.{Casbin, Applier}
use sydom.Kernel.Engine.{Engine, Outcome, returned, panicked, apply_snapshot, apply_delta}
use sydom.Sync.Translate.{snapshot_from_proto, delta_from_proto}
use sydom.Sync.Backoff.{Backoff, reset}
use sydom.Wire
use sydom.Wire.{event_delta, event_heartbeat, event_snapshot_required, event_other}

-- `Run`'s backoff is kept with the client, and the calls of the hook are counted.
pub record SyncClient (C : Casbin) (A : Applier) : Type 0 where
  pub engine : Engine C A
  pub last_sync_at : ℕ
  pub connected : Bool
  pub snapshots_applied : ℕ
  pub backoff : Backoff

-- The time, and the answer of a PullSnapshot at that time.
pub record Moment : Type 0 where
  pub now : ℕ
  pub pulled : Result Error Wire.Snapshot

-- How a call ends: it returns an error or none, or the process is down.
pub data Ending (C : Casbin) (A : Applier) : Type 0 where
  ended : Option Error → SyncClient C A → Ending C A
  died : Ending C A

-- `errors.Is(err, kernel.ErrStaleVersion)`
abbrev pub is_stale : Error → Bool
is_stale stale_version = true
is_stale _ = false

module _ (C : Casbin) (A : Applier) (m : Moment) (c : SyncClient C A) where
  abbrev pub with_engine : Engine C A → SyncClient C A
  with_engine e = record c { engine = e }

  abbrev pub synced : Engine C A → SyncClient C A
  synced e = record c { engine = e; last_sync_at = m.now }

  -- `resync` after `ApplySnapshot`, and after the translation.
  abbrev pub loaded : Outcome C A → Ending C A
  loaded (returned none e) =
      ended none
        (record c { engine = e; last_sync_at = m.now; snapshots_applied = suc c.snapshots_applied })
  loaded (returned (some x) e) = ended (some x) (with_engine e)
  loaded panicked = died

  abbrev pub load : Result Error Snapshot → Ending C A
  load (ok s) = loaded (apply_snapshot C A c.engine s)
  load (err x) = ended (some x) c

  abbrev pub pull : Result Error Wire.Snapshot → Ending C A
  pull (ok ws) = load (snapshot_from_proto ws)
  pull (err x) = ended (some x) c

  unfoldable pub resync : Ending C A
  unfolding apply_snapshot snapshot_from_proto
  resync = pull m.pulled

module _ (C : Casbin) (A : Applier) (m : Moment) where
  -- `handleDelta` after `ApplyDelta`, and after the translation.
  abbrev pub delta_applied : SyncClient C A → Outcome C A → Ending C A
  delta_applied c (returned none e) = ended none (synced C A m c e)
  delta_applied c (returned (some x) e) =
      if is_stale x then ended none (synced C A m c e) else resync C A m (with_engine C A m c e)
  delta_applied c panicked = died

  abbrev pub delta_read : SyncClient C A → Result Error Delta → Ending C A
  delta_read c (ok kd) = delta_applied c (apply_delta C A c.engine kd)
  delta_read c (err x) = resync C A m c

  unfoldable pub handle_delta : Wire.Delta → SyncClient C A → Ending C A
  unfolding resync apply_delta delta_from_proto
  handle_delta d c =
      if leb d.version c.engine.version
      then ended none (synced C A m c c.engine)
      else if d.version == (c.engine.version + 1) % 2 ^ 64
      then delta_read c (delta_from_proto d)
      else resync C A m c

  unfoldable pub handle_event : Wire.SyncEvent → SyncClient C A → Ending C A
  unfolding handle_delta resync
  handle_event (event_delta d) c = handle_delta d c
  handle_event (event_heartbeat current_version) c =
      if ltb c.engine.version current_version
      then resync C A m c
      else ended none (synced C A m c c.engine)
  handle_event event_snapshot_required c = resync C A m c
  handle_event event_other c = ended none c

module _ (C : Casbin) (A : Applier) where
  abbrev pub disconnected : Option Error → SyncClient C A → Ending C A
  disconnected x c = ended x (record c { connected = false })

  -- The error of a stream that broke: none where the context was cancelled.
  abbrev pub broken : Bool → Option Error
  broken true = none
  broken false = some (external "the stream broke")

  -- The loop over the stream, which breaks after its last event; `cancelled` is whether the context
  -- has an error then.
  unfoldable pub serve : Bool → List (Moment × Wire.SyncEvent) → SyncClient C A → Ending C A
  unfolding handle_event reset
  serve cancelled [] c = disconnected (broken cancelled) c
  serve cancelled ((m, ev) ∷ events) c =
      elim (handle_event C A m ev (record c { backoff = reset c.backoff })) [
        | ended none c' ↦ serve cancelled events c'
        | ended (some x) c' ↦ disconnected (some x) c'
        | died ↦ died
      ]

  -- `subscribed` is the error of Subscribe.
  unfoldable pub connect_and_serve :
      Moment → Option Error → Bool → List (Moment × Wire.SyncEvent) → SyncClient C A → Ending C A
  unfolding resync serve
  connect_and_serve m subscribed cancelled events c = elim (resync C A m c) [
    | ended none c' ↦ elim subscribed [
      | none ↦ serve cancelled events (record c' { connected = true })
      | some x ↦ ended (some x) c'
    ]
    | ended (some x) c' ↦ ended (some x) c'
    | died ↦ died
  ]
