-- ===== src/Base/Outcome.antt =====
-- `Result<A, E>` for the crates that have error types of their own.
use mathlib.Core.Path.{◌≡◌, refl}
use mathlib.Core.Bool.{Bool, true, false}
use mathlib.Core.Option.{Option, none, some}

-- `panicked` is a failed `expect`.
pub data Outcome (E : Type 0) (A : Type 0) : Type 0 where
  done : A → Outcome E A
  failed : E → Outcome E A
  panicked : Outcome E A

infixl 5 ◌>>=◌ ◌>>◌
abbrev pub ◌>>=◌ : {E X Y : Type 0} → Outcome E X → (X → Outcome E Y) → Outcome E Y
done x >>= next = next x
failed e >>= next = failed e
panicked >>= next = panicked

abbrev pub ◌>>◌ : {E Y : Type 0} → Outcome E (Unit {0}) → Outcome E Y → Outcome E Y
first >> next = first >>= λ _. next

-- `if !test { return Err(e) }`
abbrev pub require : {E : Type 0} → Bool → E → Outcome E (Unit {0})
require true refusal = done tt
require false refusal = failed refusal

-- `option.ok_or(e)?`
abbrev pub some_or : {E A : Type 0} → Option A → E → Outcome E A
some_or (some a) e = done a
some_or none e = failed e

-- `option.expect(…)`
abbrev pub expect_some : {E A : Type 0} → Option A → Outcome E A
expect_some (some a) = done a
expect_some none = panicked

-- A chain that ends well began well.
pub >>=-eq-done :
    {E X Y : Type 0} (first : Outcome E X) (next : X → Outcome E Y) {y : Y}
    → (first >>= next) ≡ done y
    → (x : X) × (first ≡ done x) × (next x ≡ done y)
>>=-eq-done (done x) next h = (x, refl, h)
>>=-eq-done (failed e) next h = cc
>>=-eq-done panicked next h = cc

pub require-eq-done :
    {E : Type 0} (test : Bool) (e : E) {u : Unit {0}} → require test e ≡ done u → test ≡ true
require-eq-done true e h = refl
require-eq-done false e h = cc

pub some_or-eq-done :
    {E A : Type 0} (o : Option A) (e : E) {a : A} → some_or o e ≡ done a → o ≡ some a
some_or-eq-done (some b) e h = cc
some_or-eq-done none e h = cc

-- A test that a chain passed, and the rest of the chain.
pub require_then :
    {E Y : Type 0} (test : Bool) (e : E) (next : Outcome E Y) {y : Y}
    → (require test e >> next) ≡ done y
    → (test ≡ true) × (next ≡ done y)
require_then true e next h = (refl, h)
require_then false e next h = cc

-- A lookup that a chain passed, and the rest of the chain.
pub some_or_then :
    {E A Y : Type 0} (o : Option A) (e : E) (next : A → Outcome E Y) {y : Y}
    → (some_or o e >>= next) ≡ done y
    → (a : A) × (o ≡ some a) × (next a ≡ done y)
some_or_then (some a) e next h = (a, refl, h)
some_or_then none e next h = cc

pub done-injective : {E A : Type 0} {x y : A} → ◌≡◌ {A = Outcome E A} (done x) (done y) → x ≡ y
done-injective h = cc

pub some-injective : {A : Type 0} {x y : A} → ◌≡◌ {A = Option A} (some x) (some y) → x ≡ y
some-injective h = cc
