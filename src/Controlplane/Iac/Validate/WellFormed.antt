-- ===== src/Controlplane/Iac/Validate/WellFormed.antt =====
-- The documents that `Validate` lets pass.
use sydom.Base.{
  String, ◌≡◌, refl, ◌↔◌, ◌⊎◌, inl, inr, Bool, List, [], ◌∷◌, map, string_eq, In, All, ok,
}
use sydom.Base.Text.{trim, contains_rune}
use sydom.Controlplane.Iac.{Document, Permission, Role, DataScope, DataPolicy, api_version}
use sydom.Controlplane.Iac.Plan.{declared_id}
use sydom.Controlplane.Iac.Validate.Guards.{
  neither, either, test_ne, test_eq, test_fresh, test_not, guarded, in_turn, bound,
}
use sydom.Controlplane.Iac.Validate.{
  validate_scopes, validate_roles, validate_data_policies, validate,
}
use sydom.Controlplane.Iac.Validate.Parts.{
  All-weaken, Fresh, In-all_codes, IsDataPolicy, IsPermission, IsRole, IsScope, IsWellFormed,
  all_codes, each_data_policy, each_role, each_scope, valid_condition-SomeJson,
  valid_effect-IsEffect, validate_codes-ok, validate_permissions-codes, validate_permissions-ok,
  via,
}

module _ (valid_json : String → Bool) where
  validate_scopes-ok :
      (role : String) (scopes : List DataScope)
      → (validate_scopes valid_json role scopes ≡ ok tt) ↔ All (IsScope valid_json) scopes
  unfolding validate_scopes
  validate_scopes-ok role [] = (λ h. tt, λ h. refl)
  validate_scopes-ok role (ds ∷ rest) =
      via
        (in_turn _ _ tt (guarded _ _ (test_ne (trim ds.resource) "")) (
          in_turn _ _ tt (valid_condition-SomeJson valid_json ds.condition)
            (in_turn _ _ tt (valid_effect-IsEffect ds.effect) (validate_scopes-ok role rest))))
        each_scope

  validate_roles-ok :
      (codes : List String) (rs : List Role) (seen : List String)
      → (validate_roles valid_json codes rs seen ≡ ok tt)
        ↔ (All (IsRole valid_json codes) rs × Fresh seen (map (λ (r : Role). r.key) rs))
  unfolding validate_roles
  validate_roles-ok codes [] seen = (λ h. (tt, tt), λ h. refl)
  validate_roles-ok codes (r ∷ rs) seen =
      via
        (in_turn _ _ tt (guarded _ _ (test_ne r.key "")) (
          in_turn _ _ tt (guarded _ _ (test_not (contains_rune r.key b':'))) (
            in_turn _ _ tt (guarded _ _ (test_fresh seen r.key)) (
              in_turn _ _ tt (guarded _ _ (test_ne (trim r.name) "")) (
                in_turn _ _ tt (validate_codes-ok r.key codes r.permission_codes) (
                  in_turn _ _ tt (validate_scopes-ok r.key r.data_scopes)
                    (validate_roles-ok codes rs (r.key ∷ seen))))))))
        each_role

  validate_data_policies-ok :
      (dps : List DataPolicy) (seen : List String)
      → (validate_data_policies valid_json dps seen ≡ ok tt)
        ↔ (All (IsDataPolicy valid_json) dps × Fresh seen (map declared_id dps))
  unfolding validate_data_policies
  validate_data_policies-ok [] seen = (λ h. (tt, tt), λ h. refl)
  validate_data_policies-ok (dp ∷ dps) seen =
      via
        (in_turn _ _ tt
          (guarded _ _ (
            neither _ _
              (neither _ _ (test_ne (trim dp.subject_type) "") (test_ne (trim dp.subject_id) ""))
              (test_ne (trim dp.resource) "")))
          (in_turn _ _ tt (valid_condition-SomeJson valid_json dp.condition) (
            in_turn _ _ tt (valid_effect-IsEffect dp.effect) (
              in_turn _ _ tt (guarded _ _ (test_fresh seen (declared_id dp)))
                (validate_data_policies-ok dps (declared_id dp ∷ seen))))))
        each_data_policy

  -- A role is well formed by the codes alone, in whatever order.
  roles_over :
      (codes codes' : List String) (rs : List Role)
      → ((c : String) → In c codes → In c codes')
      → All (IsRole valid_json codes) rs
      → All (IsRole valid_json codes') rs
  roles_over codes codes' rs f =
      All-weaken (IsRole valid_json codes) (IsRole valid_json codes') rs
        λ r h. (h.0, (h.1.0, (h.1.1.0, (All-weaken _ _ r.permission_codes f h.1.1.1.0, h.1.1.1.1))))

  -- `Validate` passes exactly the documents that are well formed.
  pub validate-IsWellFormed :
      (d : Document) → (validate valid_json d ≡ ok tt) ↔ IsWellFormed valid_json d
  unfolding validate
  validate-IsWellFormed d = (λ h. formed (whole.0 h), λ w. whole.1 (parts w))
    where
      codes : List String
      codes = all_codes d.permissions []

      Parts : Type 0
      Parts =
          ((d.api_version ≡ "") ⊎ (d.api_version ≡ api_version))
          × ((All IsPermission d.permissions
                × Fresh [] (map (λ (p : Permission). p.code) d.permissions))
              × ((All (IsRole valid_json codes) d.roles
                    × Fresh [] (map (λ (r : Role). r.key) d.roles))
                  × (All (IsDataPolicy valid_json) d.data_policies
                      × Fresh [] (map declared_id d.data_policies))))

      whole : (validate valid_json d ≡ ok tt) ↔ Parts
      whole =
          in_turn _ _ tt
            (guarded _ _
              (either _ _ (test_eq d.api_version "") (test_eq d.api_version api_version)))
            (bound _ _ codes (λ out h. validate_permissions-codes d.permissions [] h)
              (validate_permissions-ok d.permissions [])
              (in_turn _ _ tt (validate_roles-ok codes d.roles [])
                (validate_data_policies-ok d.data_policies [])))

      formed : Parts → IsWellFormed valid_json d
      formed (v, ((ps, pd), ((rs, rd), (ds, dd)))) = record {
        version = v;
        permissions = ps;
        codes_distinct = pd;
        roles =
            roles_over codes (map (λ (p : Permission). p.code) d.permissions) d.roles
              (λ c i. elim ((In-all_codes d.permissions [] c).0 i) [ inl i ↦ i | inr i ↦ absurd i ])
              rs;
        keys_distinct = rd;
        data_policies = ds;
        identities_distinct = dd;
      }

      parts : IsWellFormed valid_json d → Parts
      parts w = (
        w.version,
        (
          (w.permissions, w.codes_distinct),
          (
            (
              roles_over (map (λ (p : Permission). p.code) d.permissions) codes d.roles
                  (λ c i. (In-all_codes d.permissions [] c).1 (inl i)) w.roles,
              w.keys_distinct,
            ),
            (w.data_policies, w.identities_distinct),
          ),
        ),
      )
