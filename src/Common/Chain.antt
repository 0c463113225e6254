-- ===== src/Common/Chain.antt =====
-- Chains of steps that may fail, for do blocks, and codecs of the libraries.
use mathlib.Core.Path.{◌≡◌, refl, ap}
use native.Mathlib.Omega.{arith}
use mathlib.Core.Bool.{Bool, true, false}
use mathlib.Core.Option.{Option, none, some}
use rdoc_cam_hub.Common.Bytes.{Text}

infixl 5 ◌>>=◌ ◌>>◌
abbrev pub ◌>>=◌ {ℓ κ} : {A : Type ℓ} {B : Type κ} → Option A → (A → Option B) → Option B
none >>= f = none
some a >>= f = f a

abbrev pub ◌>>◌ {ℓ} : {B : Type ℓ} → Option (Unit {0}) → Option B → Option B
m >> k = m >>= λ _. k

-- An early return with an error, where the test fails.
abbrev pub require : Bool → Option (Unit {0})
require true = some tt
require false = none

-- An encoding to text, such as base64 or hex.
pub record Encoding : Type 0 where
  pub encode : Text → Text
  pub decode : Text → Option Text

abbrev pub IsInverse : Encoding → Type 0
IsInverse e = (s : Text) → e.decode (e.encode s) ≡ some s

-- json.Marshal and json.Unmarshal at a type.
pub record Json (A : Type 0) : Type 0 where
  pub marshal : A → Option Text
  pub unmarshal : Text → Option A

-- A value that can be read back: one whose texts are valid UTF-8.
abbrev pub IsReadable : {A : Type 0} → Json A → A → Type 0
IsReadable j a = (s : Text) → j.marshal a ≡ some s → j.unmarshal s ≡ some a

-- A chain that succeeds has succeeded at each step.
pub chain-some {ℓ κ} :
    {A : Type ℓ} {B : Type κ} (m : Option A) (f : A → Option B) (b : B)
    → (m >>= f) ≡ some b
    → (a : A) × (m ≡ some a) × (f a ≡ some b)
chain-some none f b h = ground arith
chain-some (some a) f b h = (a, refl, h)

pub require-some {ℓ} :
    {B : Type ℓ} (t : Bool) (k : Option B) (b : B)
    → (require t >> k) ≡ some b
    → (t ≡ true) × (k ≡ some b)
require-some true k b h = (refl, h)
require-some false k b h = ground arith

pub some_injective {ℓ} : {A : Type ℓ} (a b : A) → some a ≡ some b → a ≡ b
some_injective a b e = ap (λ o. elim o [ none ↦ a | some x ↦ x ]) e
