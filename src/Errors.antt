-- ===== src/Errors.antt =====
-- The errors of the sidecar's packages: internal/sidecar/kernel/errors.go,
-- internal/sidecar/dataperm/errors.go and internal/sidecar/authz/errors.go. A formatted message
-- is told by its sentinel (`errors.Is`) alone.
use sydom.Base.{String, ◌≡◌, refl, ◌≢◌, Result, ok, err, ◌>>=◌}

pub data Error : Type 0 where
  not_ready foreign_domain stale_version too_stale invalid_policy : Error
  missing_var : String → Error
  -- An error of a library that the code calls, or of the connection.
  external : String → Error
  -- No error value of the code: the run-time panic of a nil dereference or of an index out of
  -- range, which ends the process.
  panic : Error

-- The call comes to its end, with a value or with an error.
abbrev pub NoPanic {ℓ} : {A : Type ℓ} → Result Error A → Type 0
NoPanic (ok a) = Unit
NoPanic (err e) = e ≢ panic

pub >>=-NoPanic {ℓ κ} :
    {A : Type ℓ} {B : Type κ} (m : Result Error A) (f : A → Result Error B)
    → NoPanic m
    → ((a : A) → m ≡ ok a → NoPanic (f a))
    → NoPanic (m >>= f)
>>=-NoPanic (ok a) f h k = k a refl
>>=-NoPanic (err e) f h k = h

-- As `NoPanic`, and a value has the property.
abbrev pub Ensures {ℓ} : {A : Type ℓ} → (A → Type 0) → Result Error A → Type 0
Ensures P (ok a) = P a
Ensures P (err e) = e ≢ panic

pub >>=-Ensures {ℓ κ} :
    {A : Type ℓ} {B : Type κ} (P : B → Type 0) (m : Result Error A) (f : A → Result Error B)
    → NoPanic m
    → ((a : A) → m ≡ ok a → Ensures P (f a))
    → Ensures P (m >>= f)
>>=-Ensures P (ok a) f h k = k a refl
>>=-Ensures P (err e) f h k = h
