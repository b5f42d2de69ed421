-- ===== src/Prelude/Outcomes.antt =====
-- What a call of the program comes to: a value, or one of the ways in which the process leaves it.
use mathlib.Core.Path.{refl, ◌≡◌, ◌∙◌, sym, ap, subst}
use mathlib.Core.Bool.{Bool, true, false}

-- `exit(EXIT_FAILURE)`, a failed `assert`, `longjmp(env, 1)`, undefined behaviour such as an access
-- out of bounds, and a loop that is still running when its fuel is spent.
pub data Stop : Type 0 where
  exit_failure aborted jumped undefined out_of_fuel : Stop

pub data Outcome {ℓ} (A : Type ℓ) : Type ℓ where
  ok : A → Outcome A
  stop : Stop → Outcome A

infixl 5 ◌>>=◌ ◌>>◌
abbrev pub ◌>>=◌ {ℓ κ} : {A : Type ℓ} {B : Type κ} → Outcome A → (A → Outcome B) → Outcome B
ok a >>= f = f a
stop s >>= f = stop s

abbrev pub ◌>>◌ {ℓ} : {B : Type ℓ} → Outcome (Unit {0}) → Outcome B → Outcome B
m >> k = m >>= λ _. k

-- Carry on if the test holds, and stop otherwise.
abbrev pub require : Bool → Stop → Outcome (Unit {0})
require true s = ok tt
require false s = stop s

-- The call returns, and what it returns satisfies `P`.
abbrev pub Returns {ℓ κ} : {A : Type ℓ} → Outcome A → (A → Type κ) → Type (ℓ ⊔ κ)
Returns {A} m P = (a : A) × (m ≡ ok a) × P a

-- A call that computes to one that returns.
pub returns_of_eq {ℓ κ} :
    {A : Type ℓ} {P : A → Type κ} {m n : Outcome A} → m ≡ n → Returns n P → Returns m P
returns_of_eq e (a, runs, p) = (a, e ∙ runs, p)

pub returns_map {ℓ κ ν} :
    {A : Type ℓ} {P : A → Type κ} {Q : A → Type ν} {m : Outcome A}
    → ((a : A) → P a → Q a)
    → Returns m P
    → Returns m Q
returns_map f (a, runs, p) = (a, runs, f a p)

-- A chain returns if its first part does, and the rest from there.
pub returns_bind {ℓ κ ν π} :
    {A : Type ℓ} {B : Type ν} {P : A → Type κ} {Q : B → Type π} {m : Outcome A} (f : A → Outcome B)
    → Returns m P
    → ((a : A) → P a → Returns (f a) Q)
    → Returns (m >>= f) Q
returns_bind {Q = Q} f (a, runs, p) rest = subst (λ n. Returns (n >>= f) Q) (sym runs) (rest a p)

pub bind_assoc {ℓ κ ν} :
    {A : Type ℓ} {B : Type κ} {C : Type ν} (m : Outcome A) (f : A → Outcome B) (g : B → Outcome C)
    → Path (Outcome C) ((m >>= f) >>= g) (m >>= (λ a. f a >>= g))
bind_assoc (ok a) f g = refl
bind_assoc (stop e) f g = refl

pub bind_ok {ℓ} : {A : Type ℓ} (m : Outcome A) → Path (Outcome A) (m >>= (λ a. ok a)) m
bind_ok (ok a) = refl
bind_ok (stop e) = refl

-- `P` of what the call returns, if it returns.
abbrev pub Holds {ℓ κ} : {A : Type ℓ} → (A → Type κ) → Outcome A → Type κ
Holds P (ok a) = P a
Holds P (stop s) = Unit

pub Holds-bind {ℓ κ ν} :
    {A : Type ℓ} {B : Type ν} (P : B → Type κ) (m : Outcome A) (f : A → Outcome B)
    → ((a : A) → Holds P (f a))
    → Holds P (m >>= f)
Holds-bind P (ok a) f h = h a
Holds-bind P (stop s) f h = tt

pub Holds-chain {ℓ κ ν π} :
    {A : Type ℓ} {B : Type ν} {P : A → Type κ} (Q : B → Type π) (m : Outcome A) (f : A → Outcome B)
    → Holds P m
    → ((a : A) → P a → Holds Q (f a))
    → Holds Q (m >>= f)
Holds-chain Q (ok a) f p h = h a p
Holds-chain Q (stop s) f p h = tt

pub Holds-ok {ℓ κ} :
    {A : Type ℓ} (P : A → Type κ) {m : Outcome A} {a : A} → Holds P m → m ≡ ok a → P a
Holds-ok P h e = subst (Holds P) e h

abbrev value {ℓ} : {A : Type ℓ} → A → Outcome A → A
value a (ok x) = x
value a (stop s) = a

pub ok-injective {ℓ} : {A : Type ℓ} {a b : A} → Path (Outcome A) (ok a) (ok b) → a ≡ b
ok-injective {a = a} e = ap (value a) e
