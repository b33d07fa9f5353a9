-- ===== src/Controlplane/Hub/Tests.antt =====
-- A stream with room for one event gets two.
use sydom.Base.{ℕ, ◌≡◌, refl, true, false, some, [], ◌∷◌, nat_eq, ◌==◌}
use sydom.Base.Dict.{lookup, insert}
use sydom.Controlplane.Hub.{Subscriber, Hub, new_hub, stream_of, subscriber_of, register, dispatch}
use sydom.Controlplane.Hub.Delivery.{Delivered, dispatch-Delivered}

abbrev fresh : Subscriber ℕ
fresh = record { events = []; overflow = false }

abbrev lagging : Subscriber ℕ
lagging = record { events = 10 ∷ []; overflow = true }

abbrev one_stream : Hub ℕ
one_stream = record { streams = (7, (0, fresh) ∷ []) ∷ []; buf_size = 1; allocated = 1 }

registered : register 7 (new_hub {E = ℕ} 1) ≡ (0, one_stream)
unfolding register new_hub lookup insert nat_eq
registered = refl

overflows : subscriber_of 7 0 (dispatch 7 11 (dispatch 7 10 one_stream)) ≡ some lagging
unfolding dispatch lookup insert nat_eq
overflows = refl

fresh_there : subscriber_of 7 0 one_stream ≡ some fresh
unfolding lookup nat_eq
fresh_there = refl

dispatch-Delivered_example :
    ((s' : Subscriber ℕ) × (subscriber_of 7 0 (dispatch 7 10 one_stream) ≡ some s')
      × Delivered 1 10 fresh s')
    × ((j : ℕ) → (j == 7) ≡ false → stream_of j (dispatch 7 10 one_stream) ≡ stream_of j one_stream)
dispatch-Delivered_example = dispatch-Delivered 7 10 one_stream 0 fresh fresh_there
