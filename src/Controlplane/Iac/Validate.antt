-- ===== src/Controlplane/Iac/Validate.antt =====
-- iac/parse.go, `Validate`: what a document must meet before it is compared with a state. Go's sets
-- of the codes and keys so far are lists here. `valid_json` is `json.Valid`.
mod Guards
pub mod Parts
pub mod WellFormed
use sydom.Base.{
  String, Bool, true, false, ◌&&◌, ◌||◌, not, List, [], ◌∷◌, ◌==◌, string_eq, if◌then◌else◌,
  contains, Result, ok, err, require, ◌>>=◌, ◌>>◌,
}
use sydom.Base.Text.{trim, contains_rune}
use sydom.Controlplane.Iac.{
  Document, Permission, Role, DataScope, DataPolicy, api_version, policy_id,
}

-- The errors, by what their texts name.
pub data Invalid : Type 0 where
  unsupported_api_version : String → Invalid
  permission_code_empty : Invalid
  duplicate_permission : String → Invalid
  permission_missing_field : String → Invalid
  role_key_empty : Invalid
  role_key_colon : String → Invalid
  duplicate_role : String → Invalid
  role_missing_name : String → Invalid
  undeclared_permission : String → String → Invalid
  scope_missing_resource : String → Invalid
  data_policy_missing_field : Invalid
  duplicate_data_policy : String → Invalid
  condition_empty : Invalid
  condition_not_json : Invalid
  condition_null : Invalid
  invalid_effect : String → Invalid

abbrev pub blank : String → Bool
blank s = trim s == ""

unfoldable pub valid_condition : (String → Bool) → String → Result Invalid (Unit {0})
valid_condition valid_json c =
    let raw = trim c in
    require (not (raw == "")) condition_empty
    >> (require (valid_json raw) condition_not_json >> require (not (raw == "null")) condition_null)

unfoldable pub valid_effect : String → Result Invalid (Unit {0})
valid_effect e = require (e == "allow" || e == "deny") (invalid_effect e)

permission_fields : Permission → Bool
permission_fields p = not (blank p.resource || blank p.action || blank p.type || blank p.name)

-- The loop over the permissions, from the codes so far to all codes.
unfoldable pub validate_permissions : List Permission → List String → Result Invalid (List String)
unfolding permission_fields
validate_permissions [] codes = ok codes
validate_permissions (p ∷ ps) codes =
    require (not (blank p.code)) permission_code_empty
    >> (require (not (contains codes p.code)) (duplicate_permission p.code)
        >> (require (permission_fields p) (permission_missing_field p.code)
            >> validate_permissions ps (p.code ∷ codes)))

unfoldable pub validate_codes : String → List String → List String → Result Invalid (Unit {0})
validate_codes role codes [] = ok tt
validate_codes role codes (c ∷ cs) =
    require (contains codes c) (undeclared_permission role c) >> validate_codes role codes cs

module _ (valid_json : String → Bool) where
  unfoldable pub validate_scopes : String → List DataScope → Result Invalid (Unit {0})
  unfolding valid_condition valid_effect
  validate_scopes role [] = ok tt
  validate_scopes role (ds ∷ rest) =
      require (not (blank ds.resource)) (scope_missing_resource role)
      >> (valid_condition valid_json ds.condition
          >> (valid_effect ds.effect >> validate_scopes role rest))

  unfoldable pub validate_roles : List String → List Role → List String → Result Invalid (Unit {0})
  unfolding validate_codes validate_scopes
  validate_roles codes [] seen = ok tt
  validate_roles codes (r ∷ rs) seen =
      require (not (r.key == "")) role_key_empty
      >> (require (not (contains_rune r.key b':')) (role_key_colon r.key)
          >> (require (not (contains seen r.key)) (duplicate_role r.key)
              >> (require (not (blank r.name)) (role_missing_name r.key)
                  >> (validate_codes r.key codes r.permission_codes
                      >> (validate_scopes r.key r.data_scopes
                          >> validate_roles codes rs (r.key ∷ seen))))))

  unfoldable pub validate_data_policies : List DataPolicy → List String → Result Invalid (Unit {0})
  unfolding valid_condition valid_effect
  validate_data_policies [] seen = ok tt
  validate_data_policies (dp ∷ dps) seen =
      let id = policy_id dp.subject_type dp.subject_id dp.resource in
      require (not (blank dp.subject_type || blank dp.subject_id || blank dp.resource))
        data_policy_missing_field
      >> (valid_condition valid_json dp.condition
          >> (valid_effect dp.effect
              >> (require (not (contains seen id)) (duplicate_data_policy id)
                  >> validate_data_policies dps (id ∷ seen))))

  unfoldable pub validate : Document → Result Invalid (Unit {0})
  unfolding validate_permissions validate_roles validate_data_policies
  validate d =
      require (d.api_version == "" || d.api_version == api_version)
        (unsupported_api_version d.api_version)
      >> (validate_permissions d.permissions [] >>= λ codes.
          validate_roles codes d.roles [] >> validate_data_policies d.data_policies [])
