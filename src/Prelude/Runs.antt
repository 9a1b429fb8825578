-- ===== src/Prelude/Runs.antt =====
-- What holds of the result of a run, if it does not fault.
use mathlib.Core.Path.{◌≡◌, subst}
use mathlib.Core.Bool.{Bool, true, false}
use mathlib.Core.Option.{Option, none, some}
use trtp_network.Prelude.Tests.{◌>>=◌, if◌then◌else◌}

unfoldable pub Ends {ℓ} : {A : Type ℓ} → (A → Type 0) → Option A → Type 0
Ends P none = Unit
Ends P (some a) = P a

pub Ends-done {ℓ} : {A : Type ℓ} (P : A → Type 0) (a : A) → P a → Ends P (some a)
unfolding Ends
Ends-done P a h = h

-- Whatever the first part of a run gives, the second part ends well.
pub Ends-any {ℓ κ} :
    {A : Type ℓ} {B : Type κ} (P : B → Type 0) (o : Option A) (f : A → Option B)
    → ((a : A) → Ends P (f a))
    → Ends P (o >>= f)
unfolding Ends
Ends-any P none f h = tt
Ends-any P (some a) f h = h a

pub Ends-bind {ℓ κ} :
    {A : Type ℓ} {B : Type κ} (Q : A → Type 0) (P : B → Type 0) (o : Option A) (f : A → Option B)
    → Ends Q o
    → ((a : A) → Q a → Ends P (f a))
    → Ends P (o >>= f)
unfolding Ends
Ends-bind Q P none f h k = tt
Ends-bind Q P (some a) f h k = k a h

pub Ends-if {ℓ} :
    {A : Type ℓ} (P : A → Type 0) (b : Bool) (x y : Option A)
    → Ends P x
    → Ends P y
    → Ends P (if b then x else y)
unfolding Ends
Ends-if P true x y h k = h
Ends-if P false x y h k = k

pub Ends-some {ℓ} :
    {A : Type ℓ} (P : A → Type 0) (o : Option A) {a : A} → Ends P o → o ≡ some a → P a
unfolding Ends
Ends-some P o h e = subst (Ends P) e h

pub Ends-option {ℓ κ} :
    {A : Type ℓ} {B : Type κ} (P : B → Type 0) (o : Option A) (x : Option B) (f : A → Option B)
    → Ends P x
    → ((a : A) → Ends P (f a))
    → Ends P (elim o [ none ↦ x | some a ↦ f a ])
Ends-option P none x f h k = h
Ends-option P (some a) x f h k = k a
