-- ===== src/Controlplane/Hub.antt =====
-- policysync/hub.go: the local streams of each application. The pointer of a subscriber is its
-- number here, and stands in its stream's set with what it points to; `E` is a SyncEvent. A channel
-- is the list of what it buffers: the server gives NewHub a size of at least 1, and what a receiver
-- that waits takes over has been in the buffer first.
pub mod Delivery
mod Tests
use mathlib.Core.Option.{get_or}
use sydom.Base.{
  ℕ, suc, ◌+◌, Bool, true, false, Option, none, some, List, [], ◌∷◌, ◌++◌, length, ltb, nat_eq,
  if◌then◌else◌,
}
use sydom.Base.Dict.{Dict, lookup, insert, erase}

-- The bounded channel of events, and whether the size-1 channel of the overflow is full.
pub record Subscriber (E : Type 0) : Type 0 where
  pub events : List E
  pub overflow : Bool

-- An application's identifier is only compared. `allocated` counts the subscribers made.
pub record Hub (E : Type 0) : Type 0 where
  pub streams : Dict ℕ (Dict ℕ (Subscriber E))
  pub buf_size : ℕ
  pub allocated : ℕ

module _ {E : Type 0} where
  unfoldable pub new_hub : ℕ → Hub E
  new_hub buf_size = record { streams = []; buf_size = buf_size; allocated = 0 }

  abbrev pub stream_of : ℕ → Hub E → Dict ℕ (Subscriber E)
  stream_of app h = get_or (lookup app h.streams) []

  abbrev pub subscriber_of : ℕ → ℕ → Hub E → Option (Subscriber E)
  subscriber_of app s h = lookup s (stream_of app h)

  unfoldable pub register : ℕ → Hub E → ℕ × Hub E
  register app h =
      let s : Subscriber E = record { events = []; overflow = false } in
      (
        h.allocated,
        record h {
          streams = insert app (insert h.allocated s (stream_of app h)) h.streams;
          allocated = suc h.allocated;
        },
      )

  abbrev put_stream : ℕ → Dict ℕ (Subscriber E) → Hub E → Hub E
  put_stream app [] h = record h { streams = erase app h.streams }
  put_stream app (x ∷ xs) h = record h { streams = insert app (x ∷ xs) h.streams }

  unfoldable pub unregister : ℕ → ℕ → Hub E → Hub E
  unregister app s h = elim (lookup app h.streams) [
    | none ↦ h
    | some stream ↦ put_stream app (erase s stream) h
  ]

  -- `select` on the one channel, and by default on the other.
  unfoldable pub deliver : ℕ → E → Subscriber E → Subscriber E
  deliver buf_size ev s =
      if ltb (length s.events) buf_size
      then record s { events = s.events ++ ev ∷ [] }
      else record s { overflow = true }

  unfoldable pub deliver_all : ℕ → E → Dict ℕ (Subscriber E) → Dict ℕ (Subscriber E)
  unfolding deliver
  deliver_all buf_size ev [] = []
  deliver_all buf_size ev ((i, s) ∷ rest) =
      (i, deliver buf_size ev s) ∷ deliver_all buf_size ev rest

  unfoldable pub dispatch : ℕ → E → Hub E → Hub E
  unfolding deliver_all
  dispatch app ev h = elim (lookup app h.streams) [
    | none ↦ h
    | some stream ↦ record h { streams = insert app (deliver_all h.buf_size ev stream) h.streams }
  ]
