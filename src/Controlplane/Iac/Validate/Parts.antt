-- ===== src/Controlplane/Iac/Validate/Parts.antt =====
-- What a valid document is made of, and the checks of its parts.
use sydom.Base.{
  String, ◌≡◌, ◌≢◌, refl, sym, ◌↔◌, ◌⊎◌, inl, inr, Bool, true, false, not, List, [], ◌∷◌, map,
  string_eq, contains, In, In-of_contains, contains-of_In, All, Result, ok, require, ◌>>◌,
  ok-injective,
}
use sydom.Base.Text.{trim, contains_rune}
use sydom.Controlplane.Iac.{Document, Permission, Role, DataScope, DataPolicy, api_version}
use sydom.Controlplane.Iac.Plan.{declared_id}
use sydom.Controlplane.Iac.Validate.Guards.{
  Tests, neither, either, test_ne, test_eq, test_fresh, plainly, guarded, in_turn,
}
use sydom.Controlplane.Iac.Validate.{
  Invalid, blank, valid_condition, valid_effect, validate_permissions, validate_codes,
  permission_fields,
}

-- Something other than white space.
abbrev pub Given : String → Type 0
Given s = trim s ≢ ""

-- Each text differs from those before it, and from the ones seen.
abbrev pub Fresh : List String → List String → Type 0
Fresh seen [] = Unit
Fresh seen (x ∷ xs) = (¬ In x seen) × Fresh (x ∷ seen) xs

-- A JSON text, and not the text `null`.
abbrev pub SomeJson : (String → Bool) → String → Type 0
SomeJson valid_json c = Given c × ((valid_json (trim c) ≡ true) × (trim c ≢ "null"))

abbrev pub IsEffect : String → Type 0
IsEffect e = (e ≡ "allow") ⊎ (e ≡ "deny")

abbrev pub IsPermission : Permission → Type 0
IsPermission p =
    Given p.code × (((Given p.resource × Given p.action) × Given p.type) × Given p.name)

module _ (valid_json : String → Bool) where
  abbrev pub IsScope : DataScope → Type 0
  IsScope ds = Given ds.resource × (SomeJson valid_json ds.condition × IsEffect ds.effect)

  abbrev pub IsRole : List String → Role → Type 0
  IsRole codes r =
      (r.key ≢ "")
      × ((contains_rune r.key b':' ≡ false)
          × (Given r.name × (All (λ c. In c codes) r.permission_codes × All IsScope r.data_scopes)))

  abbrev pub IsDataPolicy : DataPolicy → Type 0
  IsDataPolicy dp =
      ((Given dp.subject_type × Given dp.subject_id) × Given dp.resource)
      × (SomeJson valid_json dp.condition × IsEffect dp.effect)

  pub record IsWellFormed (d : Document) : Type 0 where
    pub version : (d.api_version ≡ "") ⊎ (d.api_version ≡ api_version)
    pub permissions : All IsPermission d.permissions
    pub codes_distinct : Fresh [] (map (λ (p : Permission). p.code) d.permissions)
    pub roles : All (IsRole (map (λ (p : Permission). p.code) d.permissions)) d.roles
    pub keys_distinct : Fresh [] (map (λ (r : Role). r.key) d.roles)
    pub data_policies : All IsDataPolicy d.data_policies
    pub identities_distinct : Fresh [] (map declared_id d.data_policies)

pub valid_condition-SomeJson :
    (valid_json : String → Bool) (c : String)
    → (valid_condition valid_json c ≡ ok tt) ↔ SomeJson valid_json c
unfolding valid_condition
valid_condition-SomeJson valid_json c =
    in_turn _ _ tt (guarded _ _ (test_ne (trim c) ""))
      (in_turn _ _ tt (guarded _ _ (plainly _)) (guarded _ _ (test_ne (trim c) "null")))

pub valid_effect-IsEffect : (e : String) → (valid_effect e ≡ ok tt) ↔ IsEffect e
unfolding valid_effect
valid_effect-IsEffect e = guarded _ _ (either _ _ (test_eq e "allow") (test_eq e "deny"))

last_part :
    {A : Type 0} (a b c : Bool) (e e' e'' : Invalid) (rest : Result Invalid A) {y : A}
    → (require a e >> (require b e' >> (require c e'' >> rest))) ≡ ok y
    → rest ≡ ok y
last_part true true true e e' e'' rest h = h
last_part true true false e e' e'' rest h = cc
last_part true false c e e' e'' rest h = cc
last_part false b c e e' e'' rest h = cc

-- The codes that the loop over the permissions ends with.
pub all_codes : List Permission → List String → List String
all_codes [] codes = codes
all_codes (p ∷ ps) codes = all_codes ps (p.code ∷ codes)

pub validate_permissions-codes :
    (ps : List Permission) (codes : List String) {out : List String}
    → validate_permissions ps codes ≡ ok out
    → out ≡ all_codes ps codes
unfolding validate_permissions all_codes
validate_permissions-codes [] codes h = sym (ok-injective h)
validate_permissions-codes (p ∷ ps) codes h = validate_permissions-codes ps (p.code ∷ codes) (
    last_part (not (blank p.code)) (not (contains codes p.code)) (permission_fields p) _ _ _
      (validate_permissions ps (p.code ∷ codes)) h)

permission_fields-Given :
    (p : Permission)
    → Tests
        (permission_fields p)
        (((Given p.resource × Given p.action) × Given p.type) × Given p.name)
unfolding permission_fields
permission_fields-Given p =
    neither _ _
      (neither _ _ (neither _ _ (test_ne (trim p.resource) "") (test_ne (trim p.action) ""))
        (test_ne (trim p.type) ""))
      (test_ne (trim p.name) "")

pub via : {P Q R : Type 0} → P ↔ Q → Q ↔ R → P ↔ R
via (to, from) (to', from') = (λ p. to' (to p), λ r. from (from' r))

each_permission : {P Q R S T : Type 0} → (P × (Q × (R × (S × T)))) ↔ (((P × R) × S) × (Q × T))
each_permission = (
  λ h. (((h.0, h.1.1.0), h.1.1.1.0), (h.1.0, h.1.1.1.1)),
  λ h. (h.0.0.0, (h.1.0, (h.0.0.1, (h.0.1, h.1.1)))),
)

pub validate_permissions-ok :
    (ps : List Permission) (codes : List String)
    → (validate_permissions ps codes ≡ ok (all_codes ps codes))
      ↔ (All IsPermission ps × Fresh codes (map (λ (p : Permission). p.code) ps))
unfolding validate_permissions all_codes
validate_permissions-ok [] codes = (λ h. (tt, tt), λ h. refl)
validate_permissions-ok (p ∷ ps) codes =
    via
      (in_turn _ _ _ (guarded _ _ (test_ne (trim p.code) "")) (
        in_turn _ _ _ (guarded _ _ (test_fresh codes p.code)) (
          in_turn _ _ _ (guarded _ _ (permission_fields-Given p))
            (validate_permissions-ok ps (p.code ∷ codes)))))
      each_permission

pub validate_codes-ok :
    (role : String) (codes cs : List String)
    → (validate_codes role codes cs ≡ ok tt) ↔ All (λ c. In c codes) cs
unfolding validate_codes
validate_codes-ok role codes [] = (λ h. tt, λ h. refl)
validate_codes-ok role codes (c ∷ cs) =
    in_turn _ _ tt (guarded _ _ (In-of_contains codes c, contains-of_In codes c))
      (validate_codes-ok role codes cs)

-- The codes of the loop are those of the document.
pub In-all_codes :
    (ps : List Permission) (codes : List String) (c : String)
    → In c (all_codes ps codes) ↔ (In c (map (λ (p : Permission). p.code) ps) ⊎ In c codes)
unfolding all_codes
In-all_codes [] codes c = (λ i. inr i, λ s. elim s [ inl i ↦ absurd i | inr i ↦ i ])
In-all_codes (p ∷ ps) codes c = via (In-all_codes ps (p.code ∷ codes) c) (
  λ s. elim s [ inl i ↦ inl (inr i) | inr i ↦ elim i [ inl e ↦ inl (inl e) | inr i ↦ inr i ] ],
  λ s. elim s [ inl i ↦ elim i [ inl e ↦ inr (inl e) | inr i ↦ inl i ] | inr i ↦ inr (inr i) ],
)

pub All-weaken :
    {A : Type 0} (P Q : A → Type 0) (xs : List A) → ((x : A) → P x → Q x) → All P xs → All Q xs
All-weaken P Q [] f h = tt
All-weaken P Q (x ∷ xs) f (p, h) = (f x p, All-weaken P Q xs f h)

pub each_scope : {P Q R S : Type 0} → (P × (Q × (R × S))) ↔ ((P × (Q × R)) × S)
each_scope = (λ h. ((h.0, (h.1.0, h.1.1.0)), h.1.1.1), λ h. (h.0.0, (h.0.1.0, (h.0.1.1, h.1))))

pub each_role :
    {A B C D E F S T : Type 0}
    → (A × (B × (C × (D × (E × (F × (S × T))))))) ↔ (((A × (B × (D × (E × F)))) × S) × (C × T))
each_role = (
  λ h. let (a, (b, (c, (d, (e, (f, (s, t))))))) = h in (((a, (b, (d, (e, f)))), s), (c, t)),
  λ h. let (((a, (b, (d, (e, f)))), s), (c, t)) = h in (a, (b, (c, (d, (e, (f, (s, t))))))),
)

pub each_data_policy :
    {A B C D S T : Type 0} → (A × (B × (C × (D × (S × T))))) ↔ (((A × (B × C)) × S) × (D × T))
each_data_policy = (
  λ h. let (a, (b, (c, (d, (s, t))))) = h in (((a, (b, c)), s), (d, t)),
  λ h. let (((a, (b, c)), s), (d, t)) = h in (a, (b, (c, (d, (s, t))))),
)
