-- ===== src/Controlplane/Hub/Delivery.antt =====
-- What a dispatch does to each subscriber.
use mathlib.Core.Option.{get_or}
use sydom.Base.{
  ℕ, ◌≤◌, ◌<◌, ◌≡◌, refl, sym, ap, ◌∙◌, ◌⊎◌, inl, inr, true, false, none, some, [], ◌∷◌, ◌++◌,
  length, ltb, ◌==◌, nat_eq, ==_refl, Option-cases, Bool-cases, arith, if◌then◌else◌,
}
use sydom.Base.Dict.{Dict, lookup, lookup-insert}
use sydom.Controlplane.Hub.{
  Subscriber, Hub, stream_of, subscriber_of, deliver, deliver_all, dispatch,
}

module _ {E : Type 0} where
  -- The event is queued behind the others, or the queue is full and the overflow signalled: no
  -- event is lost in silence.
  abbrev pub Delivered : ℕ → E → Subscriber E → Subscriber E → Type 0
  Delivered buf_size ev s s' =
      ((length s.events < buf_size)
        × (s'.events ≡ s.events ++ ev ∷ [])
        × (s'.overflow ≡ s.overflow))
      ⊎ ((buf_size ≤ length s.events) × (s'.events ≡ s.events) × (s'.overflow ≡ true))

  deliver-Delivered : (n : ℕ) (ev : E) (s : Subscriber E) → Delivered n ev s (deliver n ev s)
  unfolding deliver
  deliver-Delivered n ev s = elim (Bool-cases (ltb (length s.events) n)) [
    | inl room ↦ rw (room, deliver) (inl (ground arith, refl, refl))
    | inr full ↦ rw (full, deliver) (inr (ground arith, refl, refl))
  ]

  lookup-deliver_all :
      (n : ℕ) (ev : E) (i : ℕ) (stream : Dict ℕ (Subscriber E)) {s : Subscriber E}
      → lookup i stream ≡ some s
      → lookup i (deliver_all n ev stream) ≡ some (deliver n ev s)
  unfolding deliver_all lookup
  lookup-deliver_all n ev i [] h = cc
  lookup-deliver_all n ev i ((j, s) ∷ stream) {s = t} h = elim (Bool-cases (i == j)) [
    | inl same ↦ let e : some s ≡ some t = rw same at h in rw same (cc e)
    | inr differ ↦ rw differ (lookup-deliver_all n ev i stream (rw differ at h))
  ]

  -- A dispatch reaches each stream of the application: the event stands behind those before it,
  -- or the buffer was full and the overflow is signalled. Other applications' streams stay.
  pub dispatch-Delivered :
      (app : ℕ) (ev : E) (h : Hub E) (i : ℕ) (s : Subscriber E)
      → subscriber_of app i h ≡ some s
      → ((s' : Subscriber E) × (subscriber_of app i (dispatch app ev h) ≡ some s')
          × Delivered h.buf_size ev s s')
        × ((j : ℕ) → (j == app) ≡ false → stream_of j (dispatch app ev h) ≡ stream_of j h)
  unfolding dispatch lookup
  dispatch-Delivered app ev h i s found = elim (Option-cases (lookup app h.streams)) [
    | inl nobody ↦ absurd (nothing_there nobody)
    | inr (stream, known) ↦
        let reached = lookup-deliver_all h.buf_size ev i stream (there stream known) in
        (
          (
            deliver h.buf_size ev s,
            ap (lookup i) (after stream known app ∙ rw (==_refl app) refl) ∙ reached,
            deliver-Delivered h.buf_size ev s,
          ),
          λ j other. after stream known j ∙ rw other refl,
        )
  ]
    where
      nothing_there : lookup app h.streams ≡ none → ⊥
      nothing_there nobody =
          let e : none ≡ some s = sym (ap (λ o. lookup i (get_or o [])) nobody) ∙ found in cc e

      there :
          (stream : Dict ℕ (Subscriber E))
          → lookup app h.streams ≡ some stream
          → lookup i stream ≡ some s
      there stream known = sym (ap (λ o. lookup i (get_or o [])) known) ∙ found

      after :
          (stream : Dict ℕ (Subscriber E))
          → lookup app h.streams ≡ some stream
          → (j : ℕ)
          → stream_of j (dispatch app ev h)
            ≡ get_or
                (if j == app then some (deliver_all h.buf_size ev stream) else lookup j h.streams)
                []
      after stream known j =
          rw (known, dispatch)
            (ap (λ o. get_or o [])
              (lookup-insert j app (deliver_all h.buf_size ev stream) h.streams))
