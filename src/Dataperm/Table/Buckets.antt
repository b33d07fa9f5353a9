-- ===== src/Dataperm/Table/Buckets.antt =====
-- What the operations of the policy table do to the bucket of each resource.
use mathlib.Core.Option.{get_or}
use mathlib.Core.List.{append_assoc, append-nil}
use sydom.Base.{
  ℕ, String, ◌≡◌, refl, sym, ap, ◌∙◌, ◌≢◌, inl, inr, false, Option, none, some, List, [], ◌∷◌, ◌++◌,
  Result, ok, ◌>>=◌, ◌==◌, string_eq, nat_eq, arith, any, >>=-eq-ok, ok-injective, Option-cases,
  Bool-cases, if◌then◌else◌,
}
use sydom.Base.Dict.{lookup, lookup-insert, lookup-erase, lookup-nil}
use sydom.Errors.{Error}
use sydom.Kernel.Types.{
  DataPolicy, ChangeOp, change_add, change_update, change_remove, change_other,
}
use sydom.Dataperm.Condition.{Condition}
use sydom.Dataperm.Table.{
  Stored, Table, to_stored, bucket, append_to, remove_first, remove_locked, put_bucket, load,
  apply_snapshot, apply_change, find,
}
use sydom.Dataperm.Table.Invariant.{
  IsWellFormed, apply_snapshot-IsWellFormed, apply_change-IsWellFormed,
}

-- The bucket of a resource without entries is no bucket.
abbrev pub bucket_of : List Stored → Option (List Stored)
bucket_of [] = none
bucket_of (s ∷ ss) = some (s ∷ ss)

pub find_lem : (t : Table) (r : String) → IsWellFormed t → find r t ≡ bucket_of (bucket r t)
unfolding find
find_lem t r w = elim (Option-cases (lookup r t)) [
  | inl missing ↦ rw missing
  | inr (b, found) ↦ rw found (bucket_of-nonempty b (w.nonempty r b found))
]
  where
    bucket_of-nonempty : (b : List Stored) → b ≢ [] → some b ≡ bucket_of b
    bucket_of-nonempty [] h = absurd (h refl)
    bucket_of-nonempty (s ∷ ss) h = refl

pub bucket-append_to :
    (j r : String) (s : Stored) (t : Table)
    → bucket j (append_to r s t) ≡ (if j == r then bucket j t ++ s ∷ [] else bucket j t)
unfolding append_to
bucket-append_to j r s t =
    rw lookup-insert
      (elim (Bool-cases (j == r)) [ inl same ↦ ground arith | inr differ ↦ ground arith ])

bucket-put_bucket :
    (j r : String) (b : List Stored) (t : Table)
    → bucket j (put_bucket r b t) ≡ (if j == r then b else bucket j t)
bucket-put_bucket j r [] t = ground (arith, lookup-erase j r t)
bucket-put_bucket j r (s ∷ ss) t = ground (arith, lookup-insert j r (s ∷ ss) t)

pub bucket-remove_locked :
    (j r : String) (id : ℕ) (t : Table)
    → bucket j (remove_locked r id t)
      ≡ (if j == r then remove_first id (bucket j t) else bucket j t)
unfolding remove_locked
bucket-remove_locked j r id t =
    ground (arith, bucket-put_bucket j r (remove_first id (bucket r t)) t)

remove_first-absent :
    (id : ℕ) (ss : List Stored) → any (λ s. s.id == id) ss ≡ false → remove_first id ss ≡ ss
unfolding remove_first
remove_first-absent id [] h = refl
remove_first-absent id (s ∷ ss) h = ground (arith, remove_first-absent id ss)

abbrev pub policies_of : String → List DataPolicy → List DataPolicy
policies_of r [] = []
policies_of r (p ∷ ps) = let rest = policies_of r ps in if r == p.resource then p ∷ rest else rest

module _ (unmarshal : String → Option Condition) where
  -- What the entries of these policies are.
  abbrev pub stored_all : List DataPolicy → Result Error (List Stored)
  stored_all [] = ok []
  stored_all (p ∷ ps) = do s ← to_stored unmarshal p; ss ← stored_all ps; ok (s ∷ ss)

  bucket-load_nil :
      (next : Table) {t : Table} (r : String)
      → load unmarshal [] next ≡ ok t
      → bucket r t ≡ bucket r next ++ []
  unfolding load
  bucket-load_nil next r h = ap (bucket r) (ok-injective (sym h)) ∙ sym (append-nil _)

  bucket-load :
      (ps : List DataPolicy) (next : Table) {t : Table} (r : String)
      → load unmarshal ps next ≡ ok t
      → (ss : List Stored) × (stored_all (policies_of r ps) ≡ ok ss)
        × (bucket r t ≡ bucket r next ++ ss)
  unfolding load
  bucket-load [] next r h = ([], refl, bucket-load_nil next r h)
  bucket-load (p ∷ ps) next r h =
      let (s, stored, rest) = >>=-eq-ok (to_stored unmarshal p) _ h in
      let (ss, each, e) = bucket-load ps (append_to p.resource s next) r rest in
      elim (Bool-cases (r == p.resource)) [
        | inl same ↦ (
          s ∷ ss,
          rw (same, stored, each) refl,
          e
              ∙ ap (λ b. b ++ ss) (bucket-append_to r p.resource s next ∙ rw same)
              ∙ append_assoc (bucket r next) (s ∷ []) ss,
        )
        | inr differ ↦ (
          ss,
          rw differ each,
          e ∙ ap (λ b. b ++ ss) (bucket-append_to r p.resource s next ∙ rw differ),
        )
      ]

  -- After a full load the bucket of a resource is the parse of its policies in their order, and
  -- a resource without policies is not configured.
  pub find-apply_snapshot :
      (ps : List DataPolicy) (t : Table) {t' : Table} (r : String)
      → apply_snapshot unmarshal ps t ≡ ok t'
      → (ss : List Stored) × (stored_all (policies_of r ps) ≡ ok ss) × (find r t' ≡ bucket_of ss)
  unfolding apply_snapshot
  find-apply_snapshot ps t {t'} r h =
      let (ss, each, e) = bucket-load ps [] r h in
      (
        ss,
        each,
        find_lem t' r (apply_snapshot-IsWellFormed unmarshal ps t h)
            ∙ ap bucket_of (e ∙ ap (λ b. get_or b [] ++ ss) (lookup-nil r)),
      )

  -- What a change makes of the bucket of each resource. A removal and an update look for the
  -- identifier in the bucket of the resource that the change names, and nowhere else.
  abbrev pub Changed : ChangeOp → DataPolicy → String → List Stored → List Stored → Type 0
  Changed change_add p j before after =
      (s : Stored) × (to_stored unmarshal p ≡ ok s)
      × (after ≡ (if j == p.resource then before ++ s ∷ [] else before))
  Changed change_remove p j before after =
      after ≡ (if j == p.resource then remove_first p.id before else before)
  Changed change_update p j before after =
      (s : Stored) × (to_stored unmarshal p ≡ ok s)
      × (after ≡ (if j == p.resource then remove_first p.id before ++ s ∷ [] else before))
  Changed (change_other n) p j before after = after ≡ before

  -- Each change does to each bucket what `Changed` says.
  pub bucket-apply_change :
      (op : ChangeOp) (p : DataPolicy) (t : Table) {t' : Table} (j : String)
      → apply_change unmarshal op p t ≡ ok t'
      → Changed op p j (bucket j t) (bucket j t')
  unfolding apply_change
  bucket-apply_change change_add p t j h =
      let (s, stored, rest) = >>=-eq-ok (to_stored unmarshal p) _ h in
      (s, stored, ap (bucket j) (ok-injective (sym rest)) ∙ bucket-append_to j p.resource s t)
  bucket-apply_change change_remove p t j h =
      ap (bucket j) (ok-injective (sym h)) ∙ bucket-remove_locked j p.resource p.id t
  bucket-apply_change change_update p t j h =
      let (s, stored, rest) = >>=-eq-ok (to_stored unmarshal p) _ h in
      (
        s,
        stored,
        ap (bucket j) (ok-injective (sym rest))
            ∙ bucket-append_to j p.resource s (remove_locked p.resource p.id t)
            ∙ ground (arith, bucket-remove_locked j p.resource p.id t),
      )
  bucket-apply_change (change_other n) p t j h = ap (bucket j) (ok-injective (sym h))

  -- A removal that names a resource without that identifier changes the policies of no resource.
  pub apply_change-remove_absent :
      (p : DataPolicy) (t : Table) {t' : Table} (j : String)
      → IsWellFormed t
      → any (λ s. s.id == p.id) (bucket p.resource t) ≡ false
      → apply_change unmarshal change_remove p t ≡ ok t'
      → find j t' ≡ find j t
  apply_change-remove_absent p t {t'} j w absent h =
      find_lem t' j (apply_change-IsWellFormed unmarshal change_remove p t w h)
      ∙ ap bucket_of (
          bucket-apply_change change_remove p t j h
          ∙ ground (arith, remove_first-absent p.id (bucket p.resource t) absent))
      ∙ sym (find_lem t j w)
