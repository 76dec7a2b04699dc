-- ===== src/Base/Results.antt =====
-- Python's exceptions as values, and methods that change an object and may raise: the object comes
-- back after a raise too, since what was written stays written.
use mathlib.Core.Bool.{Bool, true, false}

-- The exception classes that the modelled code raises.
pub data Error : Type 0 where
  value_error decode_error zero_division index_error key_error assertion_error : Error
  overflow_error crypto_error : Error
  bad_record_mac decryption_failed record_overflow unexpected_message : Error
  illegal_parameter abrupt_close not_implemented type_error internal_error : Error
  insufficient_security unknown_psk_identity : Error

pub data Result {ℓ} (A : Type ℓ) : Type ℓ where
  ok : A → Result A
  err : Error → Result A

-- A method of an object with state `S`.
abbrev pub Method {ℓ κ} : Type ℓ → Type κ → Type (ℓ ⊔ κ)
Method S A = S → Result A × S

-- What follows a step that has ended in `r`.
abbrev pub continue {ℓ κ μ} :
    {S : Type ℓ} {A : Type κ} {B : Type μ} → Result A × S → (A → Method S B) → Result B × S
continue (ok a, s) f = f a s
continue (err e, s) f = (err e, s)

infixl 5 ◌>>=◌ ◌>>◌
abbrev pub ◌>>=◌ {ℓ κ μ} :
    {S : Type ℓ} {A : Type κ} {B : Type μ} → Method S A → (A → Method S B) → Method S B
◌>>=◌ m f s = continue (m s) f

abbrev pub ◌>>◌ {ℓ κ μ} :
    {S : Type ℓ} {A : Type κ} {B : Type μ} → Method S A → Method S B → Method S B
m >> k = m >>= λ _. k

module _ {ℓ} {S : Type ℓ} where
  abbrev pub pure {κ} : {A : Type κ} → A → Method S A
  pure a s = (ok a, s)

  abbrev pub raise {κ} : {A : Type κ} → Error → Method S A
  raise e s = (err e, s)

  abbrev pub raise_if : Bool → Error → Method S (Unit {0})
  raise_if true e s = (err e, s)
  raise_if false e s = (ok tt, s)

  abbrev pub gets {κ} : {A : Type κ} → (S → A) → Method S A
  gets f s = (ok (f s), s)

  abbrev pub modify : (S → S) → Method S (Unit {0})
  modify f s = (ok tt, f s)
