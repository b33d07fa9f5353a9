-- ===== src/Dataperm/Table/Invariant.antt =====
-- What holds of the policy table at every time: a key has a bucket that is not empty, and an
-- entry that is not poisoned has a valid condition and a known effect.
use sydom.Base.{
  ℕ, String, ◌≡◌, refl, subst, sym, ◌∙◌, ◌≢◌, ◌⊎◌, inl, inr, Option, none, some, List, [], ◌∷◌,
  ◌++◌, Result, ok, err, ◌==◌, string_eq, nat_eq, arith, All, All-append, >>=-eq-ok, Option-cases,
  Bool-cases,
}
use sydom.Base.Dict.{lookup, insert, erase, lookup-insert, lookup-erase, lookup-nil}
use sydom.Errors.{Error, invalid_policy, panic}
use sydom.Kernel.Types.{
  DataPolicy, ChangeOp, change_add, change_update, change_remove, change_other,
}
use sydom.Dataperm.Condition.{Condition, null, parse_condition, validate}
use sydom.Dataperm.Condition.Valid.{Valid, validate_iff}
use sydom.Dataperm.Table.{
  Stored, Table, entry, normalize_effect, to_stored, bucket, append_to, remove_first, remove_locked,
  load, apply_snapshot, apply_change, store_parsed, put_bucket,
}

pub record IsSound (s : Stored) : Type 0 where
  pub cond_valid : s.parse_err ≡ none → Valid s.cond
  pub effect_known : s.parse_err ≡ none → (s.effect ≡ "allow") ⊎ (s.effect ≡ "deny")
  pub no_panic : s.parse_err ≢ some panic

pub record IsWellFormed (t : Table) : Type 0 where
  pub nonempty : (r : String) (b : List Stored) → lookup r t ≡ some b → b ≢ []
  pub sound : (r : String) (b : List Stored) → lookup r t ≡ some b → All IsSound b

normalize_effect_known :
    (e : String) {f : String} → normalize_effect e ≡ some f → (f ≡ "allow") ⊎ (f ≡ "deny")
unfolding normalize_effect
normalize_effect_known e h = ground arith

parse_condition-Valid :
    (unmarshal : String → Option Condition) (raw : String) {c : Condition}
    → parse_condition unmarshal raw ≡ ok c
    → Valid c
unfolding parse_condition
parse_condition-Valid unmarshal raw {c} h = elim (Option-cases (unmarshal raw)) [
  | inl missing ↦ cc (rw (missing, parse_condition) at h)
  | inr (d, found) ↦
      let (u, fine, same) = >>=-eq-ok (validate d) _ (rw (found, parse_condition) at h) in
      let e : d ≡ c = cc same in subst Valid e ((validate_iff d).0 fine)
]

bucket-IsSound : (t : Table) (r : String) → IsWellFormed t → All IsSound (bucket r t)
bucket-IsSound t r w = elim (Option-cases (lookup r t)) [
  | inl missing ↦ rw missing tt
  | inr (b, found) ↦ rw found (w.sound r b found)
]

store_parsed-IsSound :
    (p : DataPolicy) (e : String) (m : Result Error Condition) {s : Stored}
    → ((c : Condition) → m ≡ ok c → Valid c)
    → (e ≡ "allow") ⊎ (e ≡ "deny")
    → store_parsed p e m ≡ ok s
    → IsSound s
store_parsed-IsSound p e (ok c) {s} valid known h =
    let same : entry p e c none ≡ s = cc h in
    subst IsSound same
      (record { cond_valid = λ _. valid c refl; effect_known = λ _. known; no_panic = λ q. cc })
store_parsed-IsSound p e (err panic) valid known h = cc
store_parsed-IsSound p e (err x) {s} valid known h =
    let same : entry p e null (some x) ≡ s = ground arith in
    subst IsSound same (record { cond_valid = λ q. cc; effect_known = λ q. cc; no_panic = λ q. cc })

module _ (unmarshal : String → Option Condition) where
  to_stored-IsSound : (p : DataPolicy) {s : Stored} → to_stored unmarshal p ≡ ok s → IsSound s
  unfolding to_stored
  to_stored-IsSound p {s} h = elim (Option-cases (normalize_effect p.effect)) [
    | inl bad ↦
        let same : entry p "" null (some invalid_policy) ≡ s = cc (rw (bad, to_stored) at h) in
        subst IsSound same
          (record { cond_valid = λ q. cc; effect_known = λ q. cc; no_panic = λ q. cc })
    | inr (e, good) ↦
        store_parsed-IsSound p e (parse_condition unmarshal p.condition)
          (λ c q. parse_condition-Valid unmarshal p.condition q)
          (normalize_effect_known p.effect good) (rw (good, to_stored) at h)
  ]

append-ne-nil : (b : List Stored) (s : Stored) → b ++ s ∷ [] ≢ []
append-ne-nil [] s = λ e. cc
append-ne-nil (x ∷ b) s = λ e. cc

empty-IsWellFormed : IsWellFormed []
empty-IsWellFormed = record {
  nonempty = λ r b h. cc (sym (lookup-nil r) ∙ h);
  sound = λ r b h. cc (sym (lookup-nil r) ∙ h);
}

insert-IsWellFormed :
    (t : Table) (r : String) (b : List Stored)
    → IsWellFormed t
    → b ≢ []
    → All IsSound b
    → IsWellFormed (insert r b t)
insert-IsWellFormed t r b w full sound = record {
  nonempty = λ j c h. ground (arith, lookup-insert j r b t, w.nonempty j c);
  sound = λ j c h. elim (Bool-cases (j == r)) [
    | inl same ↦
        let e : b ≡ c = ground (arith, lookup-insert j r b t) in subst (All IsSound) e sound
    | inr differ ↦ w.sound j c (ground (arith, lookup-insert j r b t))
  ];
}

erase-IsWellFormed : (t : Table) (r : String) → IsWellFormed t → IsWellFormed (erase r t)
erase-IsWellFormed t r w = record {
  nonempty = λ j c h. ground (arith, lookup-erase j r t, w.nonempty j c);
  sound = λ j c h. w.sound j c (ground (arith, lookup-erase j r t));
}

append_to-IsWellFormed :
    (t : Table) (r : String) (s : Stored)
    → IsWellFormed t
    → IsSound s
    → IsWellFormed (append_to r s t)
unfolding append_to
append_to-IsWellFormed t r s w h =
    insert-IsWellFormed t r (bucket r t ++ s ∷ []) w (append-ne-nil (bucket r t) s)
      (All-append IsSound (bucket r t) (s ∷ []) (bucket-IsSound t r w) (h, tt))

remove_first-IsSound :
    (id : ℕ) (ss : List Stored) → All IsSound ss → All IsSound (remove_first id ss)
unfolding remove_first
remove_first-IsSound id [] h = tt
remove_first-IsSound id (s ∷ ss) (p, h) = elim (Bool-cases (s.id == id)) [
  | inl same ↦ rw same h
  | inr differ ↦ rw differ (p, remove_first-IsSound id ss h)
]

put_bucket-IsWellFormed :
    (t : Table) (r : String) (b : List Stored)
    → IsWellFormed t
    → All IsSound b
    → IsWellFormed (put_bucket r b t)
put_bucket-IsWellFormed t r [] w h = erase-IsWellFormed t r w
put_bucket-IsWellFormed t r (s ∷ ss) w h = insert-IsWellFormed t r (s ∷ ss) w (λ e. cc) h

remove_locked-IsWellFormed :
    (t : Table) (r : String) (id : ℕ) → IsWellFormed t → IsWellFormed (remove_locked r id t)
unfolding remove_locked
remove_locked-IsWellFormed t r id w =
    put_bucket-IsWellFormed t r _ w (remove_first-IsSound id _ (bucket-IsSound t r w))

module _ (unmarshal : String → Option Condition) where
  load-IsWellFormed :
      (ps : List DataPolicy) (next : Table) {t : Table}
      → IsWellFormed next
      → load unmarshal ps next ≡ ok t
      → IsWellFormed t
  unfolding load
  load-IsWellFormed [] next w h = subst IsWellFormed (cc h) w
  load-IsWellFormed (p ∷ ps) next w h =
      let (s, stored, rest) = >>=-eq-ok (to_stored unmarshal p) _ h in
      load-IsWellFormed ps (append_to p.resource s next)
        (append_to-IsWellFormed next p.resource s w (to_stored-IsSound unmarshal p stored)) rest

  -- A full load gives a well-formed table, whatever policies it is given.
  pub apply_snapshot-IsWellFormed :
      (ps : List DataPolicy) (t : Table) {t' : Table}
      → apply_snapshot unmarshal ps t ≡ ok t'
      → IsWellFormed t'
  unfolding apply_snapshot
  apply_snapshot-IsWellFormed ps t h = load-IsWellFormed ps [] empty-IsWellFormed h

  -- Each change that comes to its end keeps the table well formed.
  pub apply_change-IsWellFormed :
      (op : ChangeOp) (p : DataPolicy) (t : Table) {t' : Table}
      → IsWellFormed t
      → apply_change unmarshal op p t ≡ ok t'
      → IsWellFormed t'
  unfolding apply_change
  apply_change-IsWellFormed change_add p t w h =
      let (s, stored, rest) = >>=-eq-ok (to_stored unmarshal p) _ h in
      subst IsWellFormed (cc rest)
        (append_to-IsWellFormed t p.resource s w (to_stored-IsSound unmarshal p stored))
  apply_change-IsWellFormed change_remove p t w h =
      subst IsWellFormed (cc h) (remove_locked-IsWellFormed t p.resource p.id w)
  apply_change-IsWellFormed change_update p t w h =
      let (s, stored, rest) = >>=-eq-ok (to_stored unmarshal p) _ h in
      subst IsWellFormed (cc rest) (
        append_to-IsWellFormed _ p.resource s (remove_locked-IsWellFormed t p.resource p.id w)
          (to_stored-IsSound unmarshal p stored))
  apply_change-IsWellFormed (change_other n) p t w h = subst IsWellFormed (cc h) w
