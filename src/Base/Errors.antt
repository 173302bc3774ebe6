-- ===== src/Base/Errors.antt =====
-- Exceptions, and methods that change a database and may raise.
use mathlib.Core.Path.{◌≡◌, refl}
use mathlib.Core.Logic.{◌⊎◌, inl, inr}
use mathlib.Core.Bool.{Bool, true, false}
use mathlib.Core.Option.{Option, none, some}
use Prim.Native.String.{String}
use Prim.Native.Nat.{ℕ}

-- The exceptions that the program raises or meets, with their messages. `duplicate_version`,
-- `version_not_found`, `model_not_found` and `no_active_version` keep what their messages are made of;
-- the last three of these are messages of one class, ModelVersionNotFoundError. `text_limit` is an
-- ExtractionRequestError and `volume_limit` an ExtractionVolumeError, each with its limit;
-- `provider_error` is any exception of an injected provider, with the text that `str` gives it.
pub data Error : Type 0 where
  value_error : String → Error
  runtime_error : String → Error
  type_error : Error
  key_error : Error
  index_error : Error
  overflow_error : Error
  integrity_error : Error
  commit_error : Error
  invalid_registration : String → Error
  artifact_too_large : ℕ → Error
  duplicate_version : ℕ → String → Error
  version_not_found : ℕ → String → Error
  model_not_found : String → Error
  no_active_version : String → Error
  text_limit : ℕ → Error
  volume_limit : ℕ → Error
  provider_error : String → Error
  unauthorized : String → Error
  task_not_found : Error
  task_expired : Error
  results_pending : String → Error

pub data Result {ℓ} (A : Type ℓ) : Type ℓ where
  ok : A → Result A
  err : Error → Result A

infixl 10 ◌>>=◌ ◌>>◌
abbrev pub ◌>>=◌ {ℓ κ} : {A : Type ℓ} {B : Type κ} → Result A → (A → Result B) → Result B
ok a >>= f = f a
err e >>= f = err e

abbrev pub or_raise {ℓ} : {A : Type ℓ} → Option A → Error → Result A
or_raise none e = err e
or_raise (some a) e = ok a

abbrev pub raise_if : Bool → Error → Result (Unit {0})
raise_if true e = err e
raise_if false e = ok tt

abbrev pub ◌>>◌ {ℓ κ} : {A : Type ℓ} {B : Type κ} → Result A → Result B → Result B
m >> n = m >>= λ _. n

-- A method that changes the state: the state comes back beside a raised exception too.
abbrev pub Exec {ℓ} : Type ℓ → Type ℓ → Type ℓ
Exec S A = S → Result A × S

-- `with self.connection()` round BEGIN IMMEDIATE ... commit: a body that raises is rolled back.
abbrev pub settle {ℓ} : {S A : Type ℓ} → S → Result (A × S) → Result A × S
settle s (ok (a, s')) = (ok a, s')
settle s (err e) = (err e, s)

abbrev pub transaction {ℓ} : {S A : Type ℓ} → (S → Result (A × S)) → Exec S A
transaction body s = settle s (body s)

-- What a method does with the value of a finished transaction, outside of it.
abbrev pub afterwards {ℓ} : {S A B : Type ℓ} → Result A × S → (A → Result B) → Result B × S
afterwards (r, s) f = (r >>= f, s)

pub Result-cases {ℓ} :
    {A : Type ℓ} (r : Result A) → ((e : Error) × (r ≡ err e)) ⊎ ((a : A) × (r ≡ ok a))
Result-cases (ok a) = inr (a, refl)
Result-cases (err e) = inl (e, refl)

err_not_ok : {A : Type 0} {e : Error} {a : A} → ◌≡◌ {A = Result A} (err e) (ok a) → ⊥
err_not_ok h = cc

-- Where a chain has a result, so has its head, and the rest has it for that.
pub bind_ok :
    {A B : Type 0} (m : Result A) (f : A → Result B) (b : B)
    → (m >>= f) ≡ ok b
    → (a : A) × (m ≡ ok a) × (f a ≡ ok b)
bind_ok (ok a) f b h = (a, refl, h)
bind_ok (err e) f b h = absurd (err_not_ok h)

pub raise_if_ok : (c : Bool) (e : Error) (t : Unit {0}) → raise_if c e ≡ ok t → c ≡ false
raise_if_ok true e t h = absurd (err_not_ok h)
raise_if_ok false e t h = refl
