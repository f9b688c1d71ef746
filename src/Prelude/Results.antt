-- ===== src/Prelude/Results.antt =====
-- Python exceptions as values. A handler's failure is an HTTP answer or another exception, named by
-- its class or message.
use Prim.Native.Nat.{ℕ}
use Prim.Native.String.{String}
use mathlib.Core.Path.{◌≡◌, refl}
use mathlib.Core.Bool.{Bool, true, false}

pub data Fault : Type 0 where
  http : ℕ → String → Fault
  raised : String → Fault

pub data Result {ℓ} (Value : Type ℓ) : Type ℓ where
  err : Fault → Result Value
  ok : Value → Result Value

-- `if not b: raise e`
abbrev pub require : Bool → Fault → Result (Unit {0})
require false fault = err fault
require true fault = ok tt

-- an exception ends the rest
infixl 5 ◌>>=◌
abbrev pub ◌>>=◌ {ℓ κ} : {V : Type ℓ} {W : Type κ} → Result V → (V → Result W) → Result W
err fault >>= rest = err fault
ok v >>= rest = rest v

infixl 5 ◌>>◌
abbrev pub ◌>>◌ {ℓ} : {W : Type ℓ} → Result (Unit {0}) → Result W → Result W
err fault >> rest = err fault
ok _ >> rest = rest

pub require-eq-ok :
    (test : Bool) (fault : Fault) {u : Unit {0}} → require test fault ≡ ok u → test ≡ true
require-eq-ok false fault done = cc
require-eq-ok true fault done = refl

-- a check that precedes a success was passed
pub require->>-eq-ok {ℓ} :
    {V : Type ℓ} (test : Bool) (fault : Fault) (rest : Result V) {v : V}
    → (require test fault >> rest) ≡ ok v
    → (test ≡ true) × (rest ≡ ok v)
require->>-eq-ok false fault rest done = cc
require->>-eq-ok true fault rest done = (refl, done)

-- the value that a successful computation handed on
pub >>=-eq-ok {ℓ κ} :
    {V : Type ℓ} {W : Type κ} (first : Result V) (rest : V → Result W) {w : W}
    → (first >>= rest) ≡ ok w
    → (v : V) × (first ≡ ok v) × (rest v ≡ ok w)
>>=-eq-ok (err fault) rest done = cc
>>=-eq-ok (ok v) rest done = (v, refl, done)

pub >>-eq-ok {ℓ} :
    {V : Type ℓ} (first : Result (Unit {0})) (rest : Result V) {v : V}
    → (first >> rest) ≡ ok v
    → (first ≡ ok tt) × (rest ≡ ok v)
>>-eq-ok (err fault) rest done = cc
>>-eq-ok (ok tt) rest done = (refl, done)
