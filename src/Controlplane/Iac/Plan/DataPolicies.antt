-- ===== src/Controlplane/Iac/Plan/DataPolicies.antt =====
-- The part of a plan about data policies, whose identity need not be unique on either side.
use sydom.Base.{
  String, ◌≡◌, refl, sym, ◌∙◌, ◌↔◌, ◌⊎◌, inl, inr, Bool, true, false, Option, none, some, List, [],
  ◌∷◌, map, ◌==◌, ==_eq, string_eq, In, Bool-cases, swap_places, arith, ◌<◌, ◌≤◌, length, any,
}
use sydom.Base.Keyed.{rows_by, In-rows_by}
use sydom.Base.Dict.{Dict, insert}
use sydom.Controlplane.Iac.{DataPolicy, CurrentDataPolicy, PlanItem, Kind, EntityType}
use sydom.Controlplane.Iac.Compare.{dp_fields_equal, dp_update_detail}
use sydom.Controlplane.Iac.Plan.{
  item, adopted, declared_id, current_id, single_policy, policy_items, key_set, keys,
  diff_data_policies,
}
use sydom.Controlplane.Iac.Plan.Gathered.{In-gather_sorted, In-one}

-- The items that a plan may have for an identity, from the rows of that identity in the document
-- and in the state.
pub data PolicyChange (normalise : String → Option String) (id : String) (ds : List DataPolicy)
    (cs : List CurrentDataPolicy) (x : PlanItem) : Type 0 where
  created :
      (dp : DataPolicy)
      → ds ≡ dp ∷ []
      → cs ≡ []
      → x ≡ item Kind.create EntityType.data_policy id "新建"
      → PolicyChange normalise id ds cs x
  adopted_manual :
      (cdp : CurrentDataPolicy) (dp : DataPolicy)
      → cs ≡ cdp ∷ []
      → ds ≡ dp ∷ []
      → cdp.source ≡ "manual"
      → x ≡ item Kind.adopt EntityType.data_policy id adopted
      → PolicyChange normalise id ds cs x
  updated :
      (cdp : CurrentDataPolicy) (dp : DataPolicy)
      → cs ≡ cdp ∷ []
      → ds ≡ dp ∷ []
      → cdp.source ≡ "iac"
      → dp_fields_equal normalise cdp dp ≡ false
      → x ≡ item Kind.update EntityType.data_policy id (dp_update_detail normalise cdp dp)
      → PolicyChange normalise id ds cs x
  deleted :
      (cdp : CurrentDataPolicy)
      → cs ≡ cdp ∷ []
      → ds ≡ []
      → cdp.source ≡ "iac"
      → x ≡ item Kind.delete EntityType.data_policy id "删除"
      → PolicyChange normalise id ds cs x
  ambiguous_document :
      1 < length ds
      → x ≡ item Kind.conflict EntityType.data_policy id "文件中数据策略身份不唯一，无法安全收敛"
      → PolicyChange normalise id ds cs x
  ambiguous_state :
      length ds ≤ 1
      → 1 < length cs
      → (0 < length ds) ⊎ (any (λ (c : CurrentDataPolicy). c.source == "iac") cs ≡ true)
      → x ≡ item Kind.conflict EntityType.data_policy id "库中数据策略身份不唯一，无法安全收敛，请人工厘清"
      → PolicyChange normalise id ds cs x

module _ (normalise : String → Option String) (id : String) (x : PlanItem) where
  from_single :
      (cdp : CurrentDataPolicy) (dp : DataPolicy)
      → In x (single_policy normalise id (some cdp) (some dp))
      → PolicyChange normalise id (dp ∷ []) (cdp ∷ []) x
  unfolding single_policy
  from_single cdp dp i = elim (Bool-cases (cdp.source == "iac")) [
    | inl iac ↦ elim (Bool-cases (dp_fields_equal normalise cdp dp)) [
      | inl same ↦ absurd (rw (iac, same) at i)
      | inr differ ↦ updated cdp dp refl refl (==_eq iac) differ (In-one (rw (iac, differ) at i))
    ]
    | inr other ↦ elim (Bool-cases (cdp.source == "manual")) [
      | inl manual ↦
          adopted_manual cdp dp refl refl (==_eq manual) (In-one (rw (other, manual) at i))
      | inr neither ↦ absurd (rw (other, neither) at i)
    ]
  ]

  from_undeclared :
      (cdp : CurrentDataPolicy)
      → In x (single_policy normalise id (some cdp) none)
      → PolicyChange normalise id [] (cdp ∷ []) x
  unfolding single_policy
  from_undeclared cdp i = elim (Bool-cases (cdp.source == "iac")) [
    | inl iac ↦ deleted cdp refl refl (==_eq iac) (In-one (rw iac at i))
    | inr other ↦ elim (Bool-cases (cdp.source == "manual")) [
      | inl manual ↦ absurd (rw (other, manual) at i)
      | inr neither ↦ absurd (rw (other, neither) at i)
    ]
  ]

  from_many :
      (ds : List DataPolicy) (c c' : CurrentDataPolicy) (cs : List CurrentDataPolicy)
      → length ds ≤ 1
      → In x (policy_items normalise id ds (c ∷ (c' ∷ cs)))
      → PolicyChange normalise id ds (c ∷ (c' ∷ cs)) x
  unfolding policy_items
  from_many (d ∷ (d' ∷ ds)) c c' cs few i = absurd (omega arith)
  from_many (d ∷ []) c c' cs few i =
      ambiguous_state few (omega arith) (inl (omega arith)) (In-one i)
  from_many [] c c' cs few i =
      elim (Bool-cases (any (λ (c : CurrentDataPolicy). c.source == "iac") (c ∷ (c' ∷ cs)))) [
        | inl iac ↦ ambiguous_state few (omega arith) (inr iac) (In-one (rw iac at i))
        | inr free ↦ absurd (rw free at i)
      ]

  from_items :
      (ds : List DataPolicy) (cs : List CurrentDataPolicy)
      → In x (policy_items normalise id ds cs)
      → PolicyChange normalise id ds cs x
  unfolding policy_items
  from_items (d ∷ (d' ∷ ds)) cs i = ambiguous_document (omega arith) (In-one i)
  from_items [] (c ∷ (c' ∷ cs)) i = from_many [] c c' cs (omega arith) i
  from_items (d ∷ []) (c ∷ (c' ∷ cs)) i = from_many (d ∷ []) c c' cs (omega arith) i
  from_items [] [] i = absurd i
  from_items [] (c ∷ []) i = from_undeclared c i
  from_items (d ∷ []) [] i = created d refl refl (In-one i)
  from_items (d ∷ []) (c ∷ []) i = from_single c d i

  make_document :
      (ds : List DataPolicy) (cs : List CurrentDataPolicy)
      → 1 < length ds
      → x ≡ item Kind.conflict EntityType.data_policy id "文件中数据策略身份不唯一，无法安全收敛"
      → In x (policy_items normalise id ds cs)
  unfolding policy_items
  make_document [] cs many e = absurd (omega arith)
  make_document (d ∷ []) cs many e = absurd (omega arith)
  make_document (d ∷ (d' ∷ ds)) cs many e = inl e

  make_state :
      (ds : List DataPolicy) (cs : List CurrentDataPolicy)
      → length ds ≤ 1
      → 1 < length cs
      → (0 < length ds) ⊎ (any (λ (c : CurrentDataPolicy). c.source == "iac") cs ≡ true)
      → x ≡ item Kind.conflict EntityType.data_policy id "库中数据策略身份不唯一，无法安全收敛，请人工厘清"
      → In x (policy_items normalise id ds cs)
  unfolding policy_items
  make_state (d ∷ (d' ∷ ds)) cs few many why e = absurd (omega arith)
  make_state ds [] few many why e = absurd (omega arith)
  make_state ds (c ∷ []) few many why e = absurd (omega arith)
  make_state (d ∷ []) (c ∷ (c' ∷ cs)) few many why e = inl e
  make_state [] (c ∷ (c' ∷ cs)) few many (inl none_declared) e = absurd (omega arith)
  make_state [] (c ∷ (c' ∷ cs)) few many (inr iac) e = rw iac (inl e)

  make :
      (ds : List DataPolicy) (cs : List CurrentDataPolicy)
      → PolicyChange normalise id ds cs x
      → In x (policy_items normalise id ds cs)
  unfolding policy_items single_policy string_eq
  make ds cs (created dp d c e) = rw (d, c) (inl e)
  make ds cs (adopted_manual cdp dp c d source e) = rw (d, c) (simp source (inl e))
  make ds cs (updated cdp dp c d source differ e) = rw (d, c) (simp (source, differ) (inl e))
  make ds cs (deleted cdp c d source e) = rw (d, c) (simp source (inl e))
  make ds cs (ambiguous_document many e) = make_document ds cs many e
  make ds cs (ambiguous_state few many why e) = make_state ds cs few many why e

In-insert :
    (k j : String) (s : Dict String Bool)
    → In k (keys (insert j true s)) ↔ ((k ≡ j) ⊎ In k (keys s))
unfolding keys insert
In-insert k j [] = (λ i. i, λ i. i)
In-insert k j ((h, b) ∷ s) = elim (Bool-cases (j == h)) [
  | inl same ↦ rw same (
    λ i. elim i [ inl e ↦ inl e | inr r ↦ inr (inr r) ],
    λ i. elim i [
      | inl e ↦ inl e
      | inr r ↦ elim r [ inl e ↦ inl (e ∙ sym (==_eq same)) | inr q ↦ inr q ]
    ],
  )
  | inr differ ↦ rw differ (swap_places (In-insert k j s))
]

In-key_set :
    (k : String) (ks : List String) (s : Dict String Bool)
    → In k ks ⊎ In k (keys s)
    → In k (keys (key_set ks s))
unfolding key_set
In-key_set k [] s (inl i) = absurd i
In-key_set k [] s (inr i) = i
In-key_set k (j ∷ ks) s (inl (inl e)) =
    In-key_set k ks (insert j true s) (inr ((In-insert k j s).1 (inl e)))
In-key_set k (j ∷ ks) s (inl (inr i)) = In-key_set k ks (insert j true s) (inl i)
In-key_set k (j ∷ ks) s (inr i) =
    In-key_set k ks (insert j true s) (inr ((In-insert k j s).1 (inr i)))

-- An identity that needs something has a row on one of the sides.
some_row :
    (normalise : String → Option String) (id : String) (ds : List DataPolicy)
    (cs : List CurrentDataPolicy) (x : PlanItem)
    → PolicyChange normalise id ds cs x
    → (0 < length ds) ⊎ (0 < length cs)
some_row n id ds cs x (created dp d c e) = inl (rw d (omega arith))
some_row n id ds cs x (adopted_manual cdp dp c d source e) = inl (rw d (omega arith))
some_row n id ds cs x (updated cdp dp c d source differ e) = inl (rw d (omega arith))
some_row n id ds cs x (deleted cdp c d source e) = inr (rw c (omega arith))
some_row n id ds cs x (ambiguous_document many e) = inl (omega arith)
some_row n id ds cs x (ambiguous_state few many why e) = inr (omega arith)

pub In-diff_data_policies :
    (normalise : String → Option String) (ds : List DataPolicy) (cs : List CurrentDataPolicy)
    (x : PlanItem)
    → In x (diff_data_policies normalise ds cs) ↔ (
        (id : String) × PolicyChange normalise id
          (rows_by declared_id id ds)
          (rows_by current_id id cs)
          x)
unfolding diff_data_policies
In-diff_data_policies normalise ds cs x = (
  λ i.
      let (id, there, made) = (In-gather_sorted items x ids).0 i in
      (id, from_items normalise id x (rows_by declared_id id ds) (rows_by current_id id cs) made),
  λ change.
      let (id, c) = change in
      (In-gather_sorted items x ids).1 (
        id,
        listed id
            (some_row normalise id (rows_by declared_id id ds) (rows_by current_id id cs) x c),
        make normalise id x (rows_by declared_id id ds) (rows_by current_id id cs) c,
      ),
)
  where
    items : String → List PlanItem
    items id = policy_items normalise id (rows_by declared_id id ds) (rows_by current_id id cs)

    ids : List String
    ids = keys (key_set (map current_id cs) (key_set (map declared_id ds) []))

    listed :
        (id : String)
        → (0 < length (rows_by declared_id id ds)) ⊎ (0 < length (rows_by current_id id cs))
        → In id ids
    listed id (inl declared) =
        In-key_set id (map current_id cs) (key_set (map declared_id ds) []) (
          inr (In-key_set id (map declared_id ds) [] (inl (In-rows_by declared_id id ds declared))))
    listed id (inr stored) =
        In-key_set id (map current_id cs) (key_set (map declared_id ds) [])
          (inl (In-rows_by current_id id cs stored))
