-- ===== src/Prelude/Calls.antt =====
-- How a Go call ends: with a value, with a returned error, or in a run-time panic.
use mathlib.Core.Path.{◌≡◌, refl}
use mathlib.Core.Bool.{Bool, true, false}
use mathlib.Core.Option.{Option, none, some}

pub data Run {ℓ} (E : Type 0) (A : Type ℓ) : Type ℓ where
  ok : A → Run E A
  err : E → Run E A
  panic : Run E A

-- `if failed { return err }`
abbrev pub refuse_if : {E : Type 0} → Bool → E → Run E (Unit {0})
refuse_if false _ = ok tt
refuse_if true fault = err fault

-- `if !condition { panic(...) }`
abbrev pub panic_unless : {E : Type 0} → Bool → Run E (Unit {0})
panic_unless true = ok tt
panic_unless false = panic

-- A call whose failure the caller answers with `panic`.
abbrev pub or_panic {ℓ} : {E : Type 0} {A : Type ℓ} → Option A → Run E A
or_panic none = panic
or_panic (some a) = ok a

abbrev pub or_fail {ℓ} : {E : Type 0} {A : Type ℓ} → Option A → E → Run E A
or_fail none e = err e
or_fail (some a) e = ok a

-- The rest of a function after a call that returned.
infixl 5 ◌>>=◌
abbrev pub ◌>>=◌ {ℓ κ} : {E : Type 0} {A : Type ℓ} {B : Type κ} → Run E A → (A → Run E B) → Run E B
panic >>= rest = panic
err fault >>= rest = err fault
ok value >>= rest = rest value

infixl 5 ◌>>◌
abbrev pub ◌>>◌ {ℓ} : {E : Type 0} {B : Type ℓ} → Run E (Unit {0}) → Run E B → Run E B
check >> rest = check >>= λ done. rest

-- Two continuations that agree may be exchanged.
pub >>=-cong {ℓ κ} :
    {E : Type 0} {A : Type ℓ} {B : Type κ} (m : Run E A) (f g : A → Run E B)
    → ((a : A) → f a ≡ g a)
    → (m >>= f) ≡ (m >>= g)
>>=-cong panic f g agree = refl
>>=-cong (err fault) f g agree = refl
>>=-cong (ok value) f g agree = agree value

-- A sequence that returned a value did so in both of its parts.
pub >>=-eq-ok {ℓ κ} :
    {E : Type 0} {A : Type ℓ} {B : Type κ} {b : B} (m : Run E A) (f : A → Run E B)
    → (m >>= f) ≡ ok b
    → (a : A) × (f a ≡ ok b) × (m ≡ ok a)
>>=-eq-ok panic f returned = cc
>>=-eq-ok (err fault) f returned = cc
>>=-eq-ok (ok value) f returned = (value, returned, refl)
