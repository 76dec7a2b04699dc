-- ===== src/Base/Fallible.antt =====
-- Python code that may raise and changes no object: a chain of results.
use mathlib.Core.Bool.{Bool, true, false}
use mathlib.Core.Path.{◌≡◌, refl, sym, subst}
use tls_dvnizk.Base.Results.{Result, ok, err, Error}
use tls_dvnizk.Base.Tests.{if◌then◌else◌}

-- Goes on with the value, or passes the exception up.
abbrev pub bind_result {ℓ κ} : {B : Type κ} {A : Type ℓ} → (A → Result B) → Result A → Result B
bind_result next step = elim step [ err problem ↦ err problem | ok value ↦ next value ]

infixl 5 ◌>>=◌
abbrev pub ◌>>=◌ {κ ℓ} : {A : Type ℓ} {B : Type κ} → Result A → (A → Result B) → Result B
step >>= next = bind_result next step

infixl 5 ◌>>◌
abbrev pub ◌>>◌ {κ} : {B : Type κ} → Result (Unit {0}) → Result B → Result B
step >> after = bind_result (λ nothing. after) step

abbrev pub fail_if : Bool → Error → Result (Unit {0})
fail_if condition problem = if condition then err problem else ok tt

-- What a result that is a value says of its parts.
IsOk {ℓ} : {A : Type ℓ} → Result A → Type 0
IsOk (ok a) = Unit {0}
IsOk (err e) = ⊥

never_ok {ℓ} : {A : Type ℓ} {e : Error} {a : A} → err e ≡ ok a → ⊥
unfolding IsOk
never_ok h = subst IsOk (sym h) tt

unfoldable pub value_or {ℓ} : {A : Type ℓ} → A → Result A → A
value_or a (ok b) = b
value_or a (err e) = a

pub if_ok {ℓ} :
    {A : Type ℓ} (b : Bool) (e : Error) (r : Result A) (y : A)
    → (if b then err e else r) ≡ ok y
    → (b ≡ false) × (r ≡ ok y)
if_ok true e r y h = absurd (never_ok h)
if_ok false e r y h = (refl, h)

pub step_ok {ℓ κ} :
    {A : Type ℓ} {B : Type κ} (q : Result A) (f : A → Result B) (y : B)
    → (q >>= f) ≡ ok y
    → (a : A) × (q ≡ ok a) × (f a ≡ ok y)
step_ok (ok a) f y h = (a, refl, h)
step_ok (err e) f y h = absurd (never_ok h)

pub test_ok {ℓ} :
    {A : Type ℓ} (b : Bool) (e : Error) (r : Result A) (y : A)
    → (fail_if b e >> r) ≡ ok y
    → (b ≡ false) × (r ≡ ok y)
test_ok true e r y h = absurd (never_ok h)
test_ok false e r y h = (refl, h)
