-- ===== src/Sync/Client/Guarded.antt =====
-- A subscription never lets a row of another domain be enforced.
use sydom.Base.{
  Bool, ◌≡◌, refl, sym, ap, ◌∙◌, subst, inl, inr, true, Option, none, some, List, [], ◌∷◌,
}
use sydom.Errors.{Error}
use sydom.Kernel.Casbin.{Casbin, IsLawful, Applier}
use sydom.Kernel.Engine.{Engine}
use sydom.Kernel.Engine.Isolation.{IsIsolated, apply_snapshot-IsIsolated, Advanced-IsIsolated}
use sydom.Kernel.Engine.Snapshots.{apply_snapshot-Loaded}
use sydom.Kernel.Engine.FailClosed.{Refused}
use sydom.Sync.Backoff.{reset}
use sydom.Sync.Client.{
  SyncClient, Moment, Ending, ended, died, with_engine, resync, handle_event, disconnected, serve,
  connect_and_serve,
}
use sydom.Sync.Client.Progress.{
  Pulled, Handled, resync-none, resync-some, ended-injective, handle_event-Handled,
}
use sydom.Wire

module _ (C : Casbin) (A : Applier) where
  -- An engine that is ready holds rows of its domain only.
  abbrev pub IsGuarded : Engine C A → Type 0
  IsGuarded e = e.ready ≡ true → IsIsolated C A e

  -- The guard is up, and the engine's domain is the one before.
  abbrev pub Keeps : Engine C A → Engine C A → Type 0
  Keeps e e' = IsGuarded e' × (e'.domain ≡ e.domain)

  Refused-Keeps : (e e' : Engine C A) → IsGuarded e → Refused C A e e' → Keeps e e'
  Refused-Keeps e e' g (inl same, v, d) = (subst IsGuarded (sym same) g, d)
  Refused-Keeps e e' g (inr off, v, d) = (λ on. cc (sym on ∙ off), d)

  module _ (L : IsLawful C) where
    Pulled-Keeps :
        (m : Moment) (c : SyncClient C A) (e' : Engine C A) → Pulled C A m c e' → Keeps c.engine e'
    Pulled-Keeps m c e' (ws, s, pulled, read, loaded) =
        let (version, ready, domain, applied, mine, rows) =
          apply_snapshot-Loaded C A L c.engine s e' loaded in
        (λ on. apply_snapshot-IsIsolated C A L c.engine s e' loaded, domain)

    Handled-Keeps :
        (m : Moment) (c : SyncClient C A) (x : Option Error) (c' : SyncClient C A)
        → IsGuarded c.engine
        → Handled C A L m c x c'
        → Keeps c.engine c'.engine
    Handled-Keeps m c none c' g (inl r) = Refused-Keeps c.engine c'.engine g r
    Handled-Keeps m c none c' g (inr (inl (d, v, advanced))) =
        let (newer, version, ready, domain, rest, mine, rows) = advanced in
        (λ on. Advanced-IsIsolated C A L c.engine d c'.engine (g (sym ready ∙ on)) advanced, domain)
    Handled-Keeps m c none c' g (inr (inr (base, (how, v, d), pulled))) =
        let (guarded, domain) = Pulled-Keeps m (with_engine C A m c base) c'.engine pulled in
        (guarded, domain ∙ d)
    Handled-Keeps m c (some y) c' g r = Refused-Keeps c.engine c'.engine g r

    resync-Keeps :
        (m : Moment) (c : SyncClient C A) (x : Option Error) (c' : SyncClient C A)
        → IsGuarded c.engine
        → resync C A m c ≡ ended x c'
        → Keeps c.engine c'.engine
    resync-Keeps m c none c' g h = Pulled-Keeps m c c'.engine (resync-none C A m c c' h)
    resync-Keeps m c (some y) c' g h =
        Refused-Keeps c.engine c'.engine g (resync-some C A m c y c' h)

    ended-Keeps :
        (e : Engine C A) (x y : Option Error) (c c' : SyncClient C A)
        → Keeps e c.engine
        → ended y c ≡ ended x c'
        → Keeps e c'.engine
    ended-Keeps e x y c c' k h = subst (λ c. Keeps e c.engine) (ended-injective C A h).1 k

    disconnected-Keeps :
        (x y : Option Error) (c c' : SyncClient C A)
        → IsGuarded c.engine
        → disconnected C A x c ≡ ended y c'
        → Keeps c.engine c'.engine
    disconnected-Keeps x y c c' g h =
        let same = (ended-injective C A h).1 in
        (subst (λ c. IsGuarded c.engine) same g, ap (λ c. c.engine.domain) (sym same))

    serve-Keeps :
        (cancelled : Bool) (events : List (Moment × Wire.SyncEvent)) (c : SyncClient C A)
        (x : Option Error) (c' : SyncClient C A)
        → IsGuarded c.engine
        → serve C A cancelled events c ≡ ended x c'
        → Keeps c.engine c'.engine
    unfolding serve
    serve-Keeps cancelled [] c x c' g h = disconnected-Keeps _ x c c' g h
    serve-Keeps cancelled ((m, ev) ∷ events) c x c' g h =
        go (λ c₁ g₁ k. serve-Keeps cancelled events c₁ x c' g₁ k)
          (handle_event C A m ev (record c { backoff = reset c.backoff })) refl h
      where
        go :
            ((c₁ : SyncClient C A)
              → IsGuarded c₁.engine
              → serve C A cancelled events c₁ ≡ ended x c'
              → Keeps c₁.engine c'.engine)
            → (o : Ending C A) → handle_event C A m ev (record c { backoff = reset c.backoff }) ≡ o
            → (elim o [
              | ended none c' ↦ serve C A cancelled events c'
              | ended (some x) c' ↦ disconnected C A (some x) c'
              | died ↦ died
            ])
              ≡ ended x c'
            → Keeps c.engine c'.engine
        go ih (ended none c₁) e h =
            let (g₁, d₁) =
              Handled-Keeps m (record c { backoff = reset c.backoff }) none c₁ g
                (handle_event-Handled C A L m ev (record c { backoff = reset c.backoff }) none c₁
                  e) in
            let (g₂, d₂) = ih c₁ g₁ h in (g₂, d₂ ∙ d₁)
        go ih (ended (some y) c₁) e h =
            let (g₁, d₁) =
              Handled-Keeps m (record c { backoff = reset c.backoff }) (some y) c₁ g
                (handle_event-Handled C A L m ev (record c { backoff = reset c.backoff }) (some y)
                  c₁ e) in
            let (g₂, d₂) = disconnected-Keeps (some y) x c₁ c' g₁ h in (g₂, d₂ ∙ d₁)
        go ih died e h = cc

    -- From a guarded engine (a new one, which is not ready, is guarded), every run of a subscription
    -- over any events and answers of the control plane ends with a guarded engine of the same domain:
    -- one that is ready holds rows of its own domain only.
    pub connect_and_serve-Keeps :
        (m : Moment) (subscribed : Option Error) (cancelled : Bool)
        (events : List (Moment × Wire.SyncEvent)) (c : SyncClient C A) (x : Option Error)
        (c' : SyncClient C A)
        → IsGuarded c.engine
        → connect_and_serve C A m subscribed cancelled events c ≡ ended x c'
        → Keeps c.engine c'.engine
    unfolding connect_and_serve
    connect_and_serve-Keeps m subscribed cancelled events c x c' g h =
        go (resync C A m c) refl subscribed h
      where
        go :
            (o : Ending C A)
            → resync C A m c ≡ o
            → (subscribed : Option Error)
            → (elim o [
              | ended none c' ↦ elim subscribed [
                | none ↦ serve C A cancelled events (record c' { connected = true })
                | some x ↦ ended (some x) c'
              ]
              | ended (some x) c' ↦ ended (some x) c'
              | died ↦ died
            ])
              ≡ ended x c'
            → Keeps c.engine c'.engine
        go (ended none c₁) e none h =
            let (g₁, d₁) = resync-Keeps m c none c₁ g e in
            let (g₂, d₂) =
              serve-Keeps cancelled events (record c₁ { connected = true }) x c' g₁ h in
            (g₂, d₂ ∙ d₁)
        go (ended none c₁) e (some y) h =
            ended-Keeps c.engine x (some y) c₁ c' (resync-Keeps m c none c₁ g e) h
        go (ended (some y) c₁) e s h =
            ended-Keeps c.engine x (some y) c₁ c' (resync-Keeps m c (some y) c₁ g e) h
        go died e s h = cc
