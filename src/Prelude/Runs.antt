-- ===== src/Prelude/Runs.antt =====
-- Outcomes of code that may stop: a value, an assertion that fails (the kernel then spins in
-- `while(1)`), an access outside an array, or fuel that ran out.
use mathlib.Core.Path.{◌≡◌, refl, subst}
use mathlib.Core.Logic.{◌≢◌}

pub data Run {ℓ} (A : Type ℓ) : Type ℓ where
  ok : A → Run A
  halt : Run A
  fault : Run A
  timeout : Run A

infixl 5 ◌>>=◌
abbrev pub ◌>>=◌ {ℓ κ} : {A : Type ℓ} {B : Type κ} → Run A → (A → Run B) → Run B
ok a >>= f = f a
halt >>= f = halt
fault >>= f = fault
timeout >>= f = timeout

pub bind_assoc {ℓ κ μ} :
    {A : Type ℓ} {B : Type κ} {C : Type μ} (r : Run A) (f : A → Run B) (g : B → Run C)
    → (r >>= f >>= g) ≡ (r >>= λ a. f a >>= g)
bind_assoc (ok a) f g = refl
bind_assoc halt f g = refl
bind_assoc fault f g = refl
bind_assoc timeout f g = refl

-- The code faults, or it returns a value that satisfies `P`: it neither halts nor runs out of fuel.
abbrev pub Ends {ℓ} : {A : Type ℓ} → (A → Type 0) → Run A → Type 0
Ends P (ok a) = P a
Ends P halt = ⊥
Ends P fault = Unit
Ends P timeout = ⊥

pub Ends-bind {ℓ κ} :
    {A : Type ℓ} {B : Type κ} {P : A → Type 0} (Q : B → Type 0) (r : Run A) (f : A → Run B)
    → Ends P r
    → ((a : A) → P a → Ends Q (f a))
    → Ends Q (r >>= f)
Ends-bind Q (ok a) f h next = next a h
Ends-bind Q halt f h next = h
Ends-bind Q fault f h next = tt
Ends-bind Q timeout f h next = h

pub Ends-mono {ℓ} :
    {A : Type ℓ} {P : A → Type 0} (Q : A → Type 0) (r : Run A)
    → Ends P r
    → ((a : A) → P a → Q a)
    → Ends Q r
Ends-mono Q (ok a) h weaken = weaken a h
Ends-mono Q halt h weaken = h
Ends-mono Q fault h weaken = tt
Ends-mono Q timeout h weaken = h

-- The code halts at an assertion, or it returns a value that satisfies `P`: neither a fault nor a loop
-- without end.
abbrev pub Safe {ℓ} : {A : Type ℓ} → (A → Type 0) → Run A → Type 0
Safe P (ok a) = P a
Safe P halt = Unit
Safe P fault = ⊥
Safe P timeout = ⊥

pub Safe-bind {ℓ κ} :
    {A : Type ℓ} {B : Type κ} {P : A → Type 0} (Q : B → Type 0) (r : Run A) (f : A → Run B)
    → Safe P r
    → ((a : A) → P a → Safe Q (f a))
    → Safe Q (r >>= f)
Safe-bind Q (ok a) f h next = next a h
Safe-bind Q halt f h next = tt
Safe-bind Q fault f h next = h
Safe-bind Q timeout f h next = h

pub Safe-mono {ℓ} :
    {A : Type ℓ} {P : A → Type 0} (Q : A → Type 0) (r : Run A)
    → Safe P r
    → ((a : A) → P a → Q a)
    → Safe Q r
Safe-mono Q (ok a) h weaken = weaken a h
Safe-mono Q halt h weaken = tt
Safe-mono Q fault h weaken = h
Safe-mono Q timeout h weaken = h

-- Total correctness: the code returns, and what it returns satisfies `P`.
pub record Returns {ℓ κ} {A : Type ℓ} (P : A → Type κ) (r : Run A) : Type (ℓ ⊔ κ) where
  pub value : A
  pub runs : r ≡ ok value
  pub holds : P value

pub returns {ℓ κ} : {A : Type ℓ} {P : A → Type κ} (a : A) → P a → Returns P (ok a)
returns a p = record { value = a; runs = refl; holds = p }

-- Whether a run has returned.
abbrev Ok {ℓ} : {A : Type ℓ} → Run A → Type 0
Ok (ok a) = Unit
Ok halt = ⊥
Ok fault = ⊥
Ok timeout = ⊥

pub ok≢halt {ℓ} : {A : Type ℓ} {a : A} → ok a ≢ halt
ok≢halt e = subst Ok e tt

pub ok≢fault {ℓ} : {A : Type ℓ} {a : A} → ok a ≢ fault
ok≢fault e = subst Ok e tt

-- Safe code that does not halt returns.
pub Safe-Returns {ℓ} : {A : Type ℓ} {P : A → Type 0} (r : Run A) → Safe P r → r ≢ halt → Returns P r
Safe-Returns (ok a) h no_halt = returns a h
Safe-Returns halt h no_halt = absurd (no_halt refl)
Safe-Returns fault h no_halt = absurd h
Safe-Returns timeout h no_halt = absurd h

-- Code that ends and does not fault returns.
pub Ends-Returns {ℓ} :
    {A : Type ℓ} {P : A → Type 0} (r : Run A) → Ends P r → r ≢ fault → Returns P r
Ends-Returns (ok a) h no_fault = returns a h
Ends-Returns halt h no_fault = absurd h
Ends-Returns fault h no_fault = absurd (no_fault refl)
Ends-Returns timeout h no_fault = absurd h

-- The rule of the sequence.
pub Returns-bind {ℓ κ μ ν} :
    {A : Type ℓ} {B : Type κ} {P : A → Type μ} (Q : B → Type ν) {r : Run A} (f : A → Run B)
    → Returns P r
    → ((a : A) → P a → Returns Q (f a))
    → Returns Q (r >>= f)
Returns-bind Q f m next = rw m.runs (next m.value m.holds)

pub Returns_mono {ℓ κ μ} :
    {A : Type ℓ} {P : A → Type κ} {Q : A → Type μ} {r : Run A}
    → Returns P r
    → ((a : A) → P a → Q a)
    → Returns Q r
Returns_mono m weaken = record { value = m.value; runs = m.runs; holds = weaken m.value m.holds }
