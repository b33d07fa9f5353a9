-- ===== src/Sync/Client/Progress.antt =====
-- How the version of the engine moves with the events.
use sydom.Base.{
  ◌+◌, ◌%◌, ◌^◌, ◌≡◌, ◌∙◌, subst, refl, sym, ap, ap₂, ◌⊎◌, inl, inr, Option, none, some, Result, ok,
  err, >>=-eq-ok, ok-injective, ◌==◌, nat_eq, leb, ltb, Bool-cases, arith,
}
use sydom.Errors.{Error}
use sydom.Kernel.Types.{Delta, Snapshot}
use sydom.Kernel.Casbin.{Casbin, IsLawful, Applier}
use sydom.Kernel.Engine.{Engine, Outcome, returned, panicked, apply_snapshot, apply_delta}
use sydom.Kernel.Engine.Deltas.{Advanced, apply_delta-Advanced}
use sydom.Kernel.Engine.FailClosed.{Refused, apply_snapshot-Refused, apply_delta-Refused}
use sydom.Sync.Translate.{
  each, policy_change_from_proto, data_policy_change_from_proto, snapshot_from_proto,
  delta_from_proto,
}
use sydom.Sync.Client.{
  SyncClient, Moment, Ending, ended, is_stale, with_engine, synced, loaded, load, pull, resync,
  delta_applied, delta_read, handle_delta, handle_event,
}
use sydom.Wire
use sydom.Wire.{event_delta, event_heartbeat, event_snapshot_required, event_other}

module _ (C : Casbin) (A : Applier) where
  pub ended-injective :
      {x y : Option Error} {c c' : SyncClient C A}
      → ◌≡◌ {A = Ending C A} (ended x c) (ended y c')
      → (x ≡ y) × (c ≡ c')
  ended-injective h = (cc, cc)

  module _ (m : Moment) (c : SyncClient C A) where
    loaded-eq :
        (o : Outcome C A) (x : Option Error) (c' : SyncClient C A)
        → loaded C A m c o ≡ ended x c'
        → o ≡ returned x c'.engine
    loaded-eq (returned none e) x c' h =
        let (p, q) = ended-injective h in ap₂ returned p (ap (λ c. c.engine) q)
    loaded-eq (returned (some y) e) x c' h =
        let (p, q) = ended-injective h in ap₂ returned p (ap (λ c. c.engine) q)
    loaded-eq panicked x c' h = cc

    -- What a resync without an error did.
    abbrev pub Pulled : Engine C A → Type 0
    Pulled e =
        (ws : Wire.Snapshot) × (s : Snapshot) × (m.pulled ≡ ok ws)
        × (snapshot_from_proto ws ≡ ok s)
        × (apply_snapshot C A c.engine s ≡ returned none e)

    load-none :
        (r : Result Error Snapshot) (c' : SyncClient C A)
        → load C A m c r ≡ ended none c'
        → (s : Snapshot) × (r ≡ ok s) × (apply_snapshot C A c.engine s ≡ returned none c'.engine)
    load-none (ok s) c' h = (s, refl, loaded-eq (apply_snapshot C A c.engine s) none c' h)
    load-none (err y) c' h = cc

    pull-none :
        (r : Result Error Wire.Snapshot) (c' : SyncClient C A)
        → pull C A m c r ≡ ended none c'
        → (ws : Wire.Snapshot) × (s : Snapshot) × (r ≡ ok ws)
          × (snapshot_from_proto ws ≡ ok s)
          × (apply_snapshot C A c.engine s ≡ returned none c'.engine)
    pull-none (ok ws) c' h =
        let (s, read, applied) = load-none (snapshot_from_proto ws) c' h in
        (ws, s, refl, read, applied)
    pull-none (err y) c' h = cc

    pub resync-none : (c' : SyncClient C A) → resync C A m c ≡ ended none c' → Pulled c'.engine
    unfolding resync
    resync-none c' h = pull-none m.pulled c' h

    load-some :
        (r : Result Error Snapshot) (x : Error) (c' : SyncClient C A)
        → load C A m c r ≡ ended (some x) c'
        → Refused C A c.engine c'.engine
    load-some (ok s) x c' h =
        apply_snapshot-Refused C A c.engine s x c'.engine
          (loaded-eq (apply_snapshot C A c.engine s) (some x) c' h)
    load-some (err y) x c' h = kept (ended-injective h).1
      where
        kept : c ≡ c' → Refused C A c.engine c'.engine
        kept e = (
          inl (ap (λ c. c.engine) (sym e)),
          ap (λ c. c.engine.version) (sym e),
          ap (λ c. c.engine.domain) (sym e),
        )

    pull-some :
        (r : Result Error Wire.Snapshot) (x : Error) (c' : SyncClient C A)
        → pull C A m c r ≡ ended (some x) c'
        → Refused C A c.engine c'.engine
    pull-some (ok ws) x c' h = load-some (snapshot_from_proto ws) x c' h
    pull-some (err y) x c' h = load-some (err y) x c' h

    pub resync-some :
        (x : Error) (c' : SyncClient C A)
        → resync C A m c ≡ ended (some x) c'
        → Refused C A c.engine c'.engine
    unfolding resync
    resync-some x c' h = pull-some m.pulled x c' h

  same-Refused : (e : Engine C A) → Refused C A e e
  same-Refused e = (inl refl, refl, refl)

  trans-Refused :
      {e₁ e₂ e₃ : Engine C A} → Refused C A e₁ e₂ → Refused C A e₂ e₃ → Refused C A e₁ e₃
  trans-Refused (h, v, d) (inl e, v', d') =
      (elim h [ inl k ↦ inl (e ∙ k) | inr off ↦ inr (ap (λ e. e.ready) e ∙ off) ], v' ∙ v, d' ∙ d)
  trans-Refused (h, v, d) (inr off, v', d') = (inr off, v' ∙ v, d' ∙ d)

  module _ (L : IsLawful C) (m : Moment) where
    -- What an event without an error does to the engine: nothing, or a refusal; one change of the
    -- next version; or a load of the snapshot that the control plane answers with.
    abbrev pub Progress : SyncClient C A → SyncClient C A → Type 0
    Progress c c' =
        Refused C A c.engine c'.engine
        ⊎ ((d : Delta) × (d.version ≡ (c.engine.version + 1) % 2 ^ 64)
            × Advanced C A L d c.engine c'.engine)
        ⊎ ((base : Engine C A) × Refused C A c.engine base
            × Pulled m (with_engine C A m c base) c'.engine)

    -- What an event leaves, by the error that it gives.
    abbrev pub Handled : SyncClient C A → Option Error → SyncClient C A → Type 0
    Handled c none c' = Progress c c'
    Handled c (some x) c' = Refused C A c.engine c'.engine

    resync-Handled :
        (c : SyncClient C A) (base : Engine C A) (x : Option Error) (c' : SyncClient C A)
        → Refused C A c.engine base
        → resync C A m (with_engine C A m c base) ≡ ended x c'
        → Handled c x c'
    resync-Handled c base none c' r h =
        inr (inr (base, r, resync-none m (with_engine C A m c base) c' h))
    resync-Handled c base (some x) c' r h =
        trans-Refused r (resync-some m (with_engine C A m c base) x c' h)

    Refused-Handled :
        (c : SyncClient C A) (e : Engine C A) (x : Option Error) (c' : SyncClient C A)
        → Refused C A c.engine e
        → ended none (synced C A m c e) ≡ ended x c'
        → Handled c x c'
    Refused-Handled c e none c' r h =
        inl (subst (λ c'. Refused C A c.engine c'.engine) (ended-injective h).1 r)
    Refused-Handled c e (some y) c' r h = cc

    delta_applied-Handled :
        (c : SyncClient C A) (d : Delta) (o : Outcome C A) (x : Option Error) (c' : SyncClient C A)
        → d.version ≡ (c.engine.version + 1) % 2 ^ 64
        → apply_delta C A c.engine d ≡ o
        → delta_applied C A m c o ≡ ended x c'
        → Handled c x c'
    delta_applied-Handled c d (returned none e) none c' v a h = inr (
        inl (
          d,
          v,
          apply_delta-Advanced C A L c.engine d c'.engine
              (a ∙ ap (λ c. returned none c.engine) (ended-injective h).1),
        ))
    delta_applied-Handled c d (returned none e) (some x) c' v a h = cc
    delta_applied-Handled c d (returned (some y) e) x c' v a h =
        let r = apply_delta-Refused C A c.engine d y e a in
        elim (Bool-cases (is_stale y)) [
          | inl stale ↦ Refused-Handled c e x c' r (rw stale at h)
          | inr other ↦ resync-Handled c e x c' r (rw other at h)
        ]
    delta_applied-Handled c d panicked x c' v a h = cc

    delta_read-Handled :
        (c : SyncClient C A) (r : Result Error Delta) (x : Option Error) (c' : SyncClient C A)
        → ((d : Delta) → r ≡ ok d → d.version ≡ (c.engine.version + 1) % 2 ^ 64)
        → delta_read C A m c r ≡ ended x c'
        → Handled c x c'
    delta_read-Handled c (ok d) x c' v h =
        delta_applied-Handled c d (apply_delta C A c.engine d) x c' (v d refl) refl h
    delta_read-Handled c (err y) x c' v h = resync-Handled c c.engine x c' (same-Refused c.engine) h

    -- The version comes through the translation.
    delta_version : (w : Wire.Delta) (d : Delta) → delta_from_proto w ≡ ok d → d.version ≡ w.version
    unfolding delta_from_proto
    delta_version w d h =
        let (changes, _, h₁) = >>=-eq-ok (each policy_change_from_proto w.policy_changes) _ h in
        let (data_changes, _, h₂) =
          >>=-eq-ok (each data_policy_change_from_proto w.data_changes)
            (λ data_changes. ok (record {
              version = w.version;
              policy_changes = changes;
              data_changes = data_changes;
            }))
            h₁ in
        ap (λ d. d.version) (sym (ok-injective h₂))

    handle_delta-Handled :
        (w : Wire.Delta) (c : SyncClient C A) (x : Option Error) (c' : SyncClient C A)
        → handle_delta C A m w c ≡ ended x c'
        → Handled c x c'
    unfolding handle_delta
    handle_delta-Handled w c x c' h = elim (Bool-cases (leb w.version c.engine.version)) [
      | inl old ↦
          Refused-Handled c c.engine x c' (same-Refused c.engine) (rw (old, handle_delta) at h)
      | inr new ↦ elim (Bool-cases (w.version == (c.engine.version + 1) % 2 ^ 64)) [
        | inl next ↦
            delta_read-Handled c (delta_from_proto w) x c'
              (λ d r. delta_version w d r ∙ ground arith) (rw (new, next, handle_delta) at h)
        | inr gap ↦
            resync-Handled c c.engine x c' (same-Refused c.engine)
              (rw (new, gap, handle_delta) at h)
      ]
    ]

    -- Whatever the stream delivers, the engine never jumps: an event that is handled without an
    -- error leaves the engine as it was (or, where an apply fails as stale, as a refusal does),
    -- applies one change of the next version, or loads a pulled snapshot. An error leaves the engine
    -- as it was, or not ready, at the old version.
    pub handle_event-Handled :
        (ev : Wire.SyncEvent) (c : SyncClient C A) (x : Option Error) (c' : SyncClient C A)
        → handle_event C A m ev c ≡ ended x c'
        → Handled c x c'
    unfolding handle_event
    handle_event-Handled (event_delta w) c x c' h = handle_delta-Handled w c x c' h
    handle_event-Handled (event_heartbeat v) c x c' h = elim (Bool-cases (ltb c.engine.version v)) [
      | inl missed ↦
          resync-Handled c c.engine x c' (same-Refused c.engine) (rw (missed, handle_event) at h)
      | inr alive ↦
          Refused-Handled c c.engine x c' (same-Refused c.engine) (rw (alive, handle_event) at h)
    ]
    handle_event-Handled event_snapshot_required c x c' h =
        resync-Handled c c.engine x c' (same-Refused c.engine) h
    handle_event-Handled event_other c none c' h =
        inl (
          subst (λ c'. Refused C A c.engine c'.engine) (ended-injective h).1
            (same-Refused c.engine))
    handle_event-Handled event_other c (some y) c' h = cc
