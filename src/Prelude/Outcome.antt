-- ===== src/Prelude/Outcome.antt =====
-- `Result<T, String>` of code that may also panic. The texts of errors are those of the source.
use mathlib.Core.Path.{◌≡◌, refl}
use mathlib.Core.Bool.{Bool, true, false}
use mathlib.Core.Option.{Option, none, some}
use native.Mathlib.Omega.{arith}
use starframe.Prelude.Bytes.{Text}

pub data Outcome {ℓ} (A : Type ℓ) : Type ℓ where
  ok : A → Outcome A
  err : Text → Outcome A
  panicked : Outcome A

infixl 5 ◌>>=◌ ◌>>◌
abbrev pub ◌>>=◌ {ℓ κ} :
    {A : Type ℓ} {B : Type κ} (outcome : Outcome A) (next : A → Outcome B) → Outcome B
panicked >>= next = panicked
err message >>= next = err message
ok value >>= next = next value

abbrev pub ◌>>◌ {ℓ κ} : {A : Type ℓ} {B : Type κ} (first : Outcome A) (then : Outcome B) → Outcome B
first >> then = first >>= λ _. then

-- `if !condition { return Err(message); }`
abbrev pub ensure : Bool → Text → Outcome (Unit {0})
ensure true message = ok tt
ensure false message = err message

-- `option.ok_or(message)?`
abbrev pub ok_or {ℓ} : {A : Type ℓ} → Option A → Text → Outcome A
ok_or none message = err message
ok_or (some a) message = ok a

-- A value that a panic may withhold: an index expression, an `unwrap`.
abbrev pub or_panic {ℓ} : {A : Type ℓ} → Option A → Outcome A
or_panic none = panicked
or_panic (some a) = ok a

-- What a successful chain has gone through.
pub >>=-eq-ok {ℓ κ} :
    {A : Type ℓ} {B : Type κ} (outcome : Outcome A) (next : A → Outcome B) {result : B}
    → (outcome >>= next) ≡ ok result
    → (value : A) × (outcome ≡ ok value) × (next value ≡ ok result)
>>=-eq-ok panicked next e = cc
>>=-eq-ok (err message) next e = cc
>>=-eq-ok (ok value) next e = (value, refl, e)

pub ensure-eq-ok : (b : Bool) (message : Text) {u : Unit {0}} → ensure b message ≡ ok u → b ≡ true
ensure-eq-ok true message h = refl
ensure-eq-ok false message h = cc

pub or_panic-eq-ok {ℓ} : {A : Type ℓ} (o : Option A) {a : A} → or_panic o ≡ ok a → o ≡ some a
or_panic-eq-ok none h = cc
or_panic-eq-ok (some a) h = ground arith

pub ok_or-eq-ok {ℓ} :
    {A : Type ℓ} (o : Option A) (message : Text) {a : A} → ok_or o message ≡ ok a → o ≡ some a
ok_or-eq-ok none message h = cc
ok_or-eq-ok (some a) message h = ground arith

pub ok_inj {ℓ} : {A : Type ℓ} (a b : A) → ok a ≡ ok b → a ≡ b
ok_inj a b h = ground arith

-- A value or an error, and no panic.
abbrev pub IsPanicFree {ℓ} : {A : Type ℓ} → Outcome A → Type 0
IsPanicFree (ok a) = Unit
IsPanicFree (err message) = Unit
IsPanicFree panicked = ⊥

pub >>=-IsPanicFree {ℓ κ} :
    {A : Type ℓ} {B : Type κ} (outcome : Outcome A) (next : A → Outcome B)
    → IsPanicFree outcome
    → ((value : A) → outcome ≡ ok value → IsPanicFree (next value))
    → IsPanicFree (outcome >>= next)
>>=-IsPanicFree (ok value) next p h = h value refl
>>=-IsPanicFree (err message) next p h = tt
>>=-IsPanicFree panicked next p h = p

pub ensure-IsPanicFree : (b : Bool) (message : Text) → IsPanicFree (ensure b message)
ensure-IsPanicFree true message = tt
ensure-IsPanicFree false message = tt

pub ok_or-IsPanicFree {ℓ} :
    {A : Type ℓ} (o : Option A) (message : Text) → IsPanicFree (ok_or o message)
ok_or-IsPanicFree none message = tt
ok_or-IsPanicFree (some a) message = tt

pub or_panic-IsPanicFree {ℓ} :
    {A : Type ℓ} (o : Option A) {a : A} → o ≡ some a → IsPanicFree (or_panic o)
or_panic-IsPanicFree none e = cc
or_panic-IsPanicFree (some a) e = tt

-- The same for a step that only tests, and for one that takes an optional value.
pub ensure->>-eq-ok {ℓ} :
    {A : Type ℓ} (b : Bool) (message : Text) (rest : Outcome A) {result : A}
    → (ensure b message >> rest) ≡ ok result
    → (b ≡ true) × (rest ≡ ok result)
ensure->>-eq-ok true message rest h = (refl, h)
ensure->>-eq-ok false message rest h = cc

pub ok_or->>=-eq-ok {ℓ κ} :
    {A : Type ℓ} {B : Type κ} (o : Option A) (message : Text) (next : A → Outcome B) {result : B}
    → (ok_or o message >>= next) ≡ ok result
    → (a : A) × (o ≡ some a) × (next a ≡ ok result)
ok_or->>=-eq-ok none message next h = cc
ok_or->>=-eq-ok (some a) message next h = (a, refl, h)

pub >>-eq-ok {ℓ κ} :
    {A : Type ℓ} {B : Type κ} (first : Outcome A) (rest : Outcome B) {result : B}
    → (first >> rest) ≡ ok result
    → (value : A) × (first ≡ ok value) × (rest ≡ ok result)
>>-eq-ok panicked rest h = cc
>>-eq-ok (err message) rest h = cc
>>-eq-ok (ok value) rest h = (value, refl, h)

-- `outcome.map_err(|_| message)`
abbrev pub replace_err {ℓ} : {A : Type ℓ} → Outcome A → Text → Outcome A
replace_err (ok a) message = ok a
replace_err (err old) message = err message
replace_err panicked message = panicked

pub replace_err-eq-ok {ℓ} :
    {A : Type ℓ} (o : Outcome A) (message : Text) {a : A} → replace_err o message ≡ ok a → o ≡ ok a
replace_err-eq-ok (ok b) message h = h
replace_err-eq-ok (err old) message h = cc
replace_err-eq-ok panicked message h = cc
