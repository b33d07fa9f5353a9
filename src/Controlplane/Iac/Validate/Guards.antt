-- ===== src/Controlplane/Iac/Validate/Guards.antt =====
-- The tests of `Validate` with what they are tests of, and the sequences of guards.
use sydom.Base.{
  String, ◌≡◌, ◌≢◌, refl, sym, ap, subst, ◌↔◌, ◌⊎◌, inl, inr, Bool, true, false, ◌||◌, not, List,
  ◌==◌, ==_refl, ==_eq, ==_ne, string_eq, contains, In, In-of_contains, not_In-of_contains, Result,
  ok, err, require, ◌>>=◌, ◌>>◌, Bool-cases,
}
use sydom.Controlplane.Iac.Validate.{Invalid}

-- A test and what it is a test of.
abbrev pub Tests : Bool → Type 0 → Type 0
Tests b P = (b ≡ true) ↔ P

pub neither :
    {P Q : Type 0} (a b : Bool) → Tests (not a) P → Tests (not b) Q → Tests (not (a || b)) (P × Q)
neither true b p q = (λ h. cc, λ h. p.1 h.0)
neither false b p q = (λ h. (p.0 refl, q.0 h), λ h. q.1 h.1)

pub either : {P Q : Type 0} (a b : Bool) → Tests a P → Tests b Q → Tests (a || b) (P ⊎ Q)
either true b p q = (λ h. inl (p.0 refl), λ h. refl)
either false b p q = (λ h. inr (q.0 h), λ s. elim s [ inl x ↦ cc (p.1 x) | inr x ↦ q.1 x ])

pub test_ne : (s t : String) → Tests (not (s == t)) (s ≢ t)
test_ne s t = elim (Bool-cases (s == t)) [
  | inl same ↦ rw same (λ h. cc, λ h. absurd (h (==_eq same)))
  | inr differ ↦ rw differ (λ h. ==_ne differ, λ h. refl)
]

pub test_eq : (s t : String) → Tests (s == t) (s ≡ t)
test_eq s t = (==_eq, λ e. rw e (==_refl t))

pub test_fresh : (xs : List String) (x : String) → Tests (not (contains xs x)) (¬ In x xs)
test_fresh xs x = elim (Bool-cases (contains xs x)) [
  | inl there ↦ rw there (λ h. cc, λ h. absurd (h (In-of_contains xs x there)))
  | inr gone ↦ rw gone (λ h. not_In-of_contains xs x gone, λ h. refl)
]

pub plainly : (b : Bool) → Tests b (b ≡ true)
plainly b = (λ h. h, λ h. h)

pub test_not : (b : Bool) → Tests (not b) (b ≡ false)
test_not true = (λ h. cc, λ h. cc)
test_not false = (λ h. refl, λ h. refl)

-- A sequence passes where its parts do.
pub guarded : {P : Type 0} (b : Bool) (e : Invalid) → Tests b P → (require b e ≡ ok tt) ↔ P
guarded true e p = (λ h. p.0 refl, λ h. refl)
guarded false e p = (λ h. cc, λ h. cc (p.1 h))

pub in_turn :
    {A P Q : Type 0} (first : Result Invalid (Unit {0})) (second : Result Invalid A) (y : A)
    → (first ≡ ok tt) ↔ P
    → (second ≡ ok y) ↔ Q
    → ((first >> second) ≡ ok y) ↔ (P × Q)
in_turn (err e) second y p q = (λ h. cc, λ h. cc (p.1 h.0))
in_turn (ok tt) second y p q = (λ h. (p.0 refl, q.0 h), λ h. q.1 h.1)

pub bound :
    {A B P Q : Type 0} (m : Result Invalid A) (f : A → Result Invalid B) (a : A) {y : B}
    → ((x : A) → m ≡ ok x → x ≡ a)
    → (m ≡ ok a) ↔ P
    → (f a ≡ ok y) ↔ Q
    → ((m >>= f) ≡ ok y) ↔ (P × Q)
bound (err e) f a only p q = (λ h. cc, λ h. cc (p.1 h.0))
bound (ok x) f a {y} only p q = (
  λ h. (p.0 (ap ok (only x refl)), q.0 (subst (λ z. f z ≡ ok y) (only x refl) h)),
  λ h. subst (λ z. f z ≡ ok y) (sym (only x refl)) (q.1 h.1),
)
