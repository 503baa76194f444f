-- ===== src/Base/Runs.antt =====
-- The result of code that may fault.
use mathlib.Core.Path.{◌≡◌, refl, subst}

-- `dangling`: a read, a write or a `free` through a pointer to memory that is not allocated.
-- `out_of_fuel` is no behaviour of the program.
pub data Fault : Type 0 where
  dangling division_by_zero out_of_fuel : Fault

pub data Run {ℓ} (A : Type ℓ) : Type ℓ where
  ok : A → Run A
  fault : Fault → Run A

infixl 5 ◌>>=◌
abbrev pub ◌>>=◌ {ℓ κ} : {A : Type ℓ} {B : Type κ} → Run A → (A → Run B) → Run B
ok a >>= f = f a
fault e >>= f = fault e

-- Total correctness of a run: it returns a value that meets the postcondition.
pub data Returns {ℓ κ} {A : Type ℓ} (P : A → Type κ) : Run A → Type (ℓ ⊔ κ) where
  returns : {a : A} → P a → Returns P (ok a)

module _ {ℓ κ} {A : Type ℓ} {P : A → Type κ} where
  pub Returns-value : {r : Run A} → Returns P r → (a : A) × (r ≡ ok a) × P a
  Returns-value (returns {a} p) = (a, refl, p)

  pub Returns-bind {ℓ' κ'} :
      {B : Type ℓ'} {Q : B → Type κ'} {r : Run A} {k : A → Run B}
      → Returns P r
      → ((a : A) → P a → Returns Q (k a))
      → Returns Q (r >>= k)
  Returns-bind (returns p) next = next _ p

  pub Returns-mono {κ'} :
      {Q : A → Type κ'} {r : Run A} → Returns P r → ((a : A) → P a → Q a) → Returns Q r
  Returns-mono (returns p) weaken = returns (weaken _ p)

  -- What is known of a run is known of its value.
  pub Returns-at : {r : Run A} {a : A} → Returns P r → r ≡ ok a → P a
  Returns-at {a} (returns {a = b} p) e = let same : b ≡ a = cc in subst P same p

-- The value that a run returns.
pub Returns-eq {ℓ κ} :
    {A : Type ℓ} {P : A → Type κ} {r : Run A} → Returns P r → Returns (λ a. (r ≡ ok a) × P a) r
Returns-eq (returns p) = returns (refl, p)

-- What two proofs say of a run.
pub Returns-both {ℓ κ κ'} :
    {A : Type ℓ} {P : A → Type κ} {Q : A → Type κ'} {r : Run A}
    → Returns P r
    → Returns Q r
    → Returns (λ a. P a × Q a) r
Returns-both (returns p) h' = returns (p, Returns-at h' refl)

-- Where a run in two steps returns, both steps do.
pub bind-ok {ℓ κ} :
    {A : Type ℓ} {B : Type κ} (r : Run A) (k : A → Run B) {b : B}
    → (r >>= k) ≡ ok b
    → (a : A) × (r ≡ ok a) × (k a ≡ ok b)
bind-ok (ok a) k h = (a, refl, h)
bind-ok (fault e) k h = cc

-- Two runs end in the same way: both return, and what they return is related, or both fault alike.
pub data Agree {ℓ κ μ} {A : Type ℓ} {B : Type κ} (R : A → B → Type μ)
    : Run A → Run B → Type (ℓ ⊔ κ ⊔ μ) where
  both_return : {a : A} {b : B} → R a b → Agree R (ok a) (ok b)
  both_fault : {e : Fault} → Agree R (fault e) (fault e)

module _ {ℓ κ μ} {A : Type ℓ} {B : Type κ} {R : A → B → Type μ} where
  pub Agree-bind {ℓ' κ' μ'} :
      {C : Type ℓ'} {D : Type κ'} {S : C → D → Type μ'} {r : Run A} {r' : Run B} {k : A → Run C}
      {k' : B → Run D}
      → Agree R r r'
      → ((a : A) (b : B) → R a b → Agree S (k a) (k' b))
      → Agree S (r >>= k) (r' >>= k')
  Agree-bind (both_return h) next = next _ _ h
  Agree-bind both_fault next = both_fault

  pub Agree-at :
      {r : Run A} {r' : Run B} {a : A} {b : B} → Agree R r r' → r ≡ ok a → r' ≡ ok b → R a b
  Agree-at {a} {b} (both_return {a = a'} {b = b'} h) e e' =
      let same : a' ≡ a = cc in
      let same' : b' ≡ b = cc in subst (λ x. R x b) same (subst (λ y. R a' y) same' h)
  Agree-at both_fault e e' = cc

  -- Where the second one returns, so does the first.
  pub Agree-Returns {μ'} :
      {P : B → Type μ'} {r : Run A} {r' : Run B}
      → Agree R r r'
      → Returns P r'
      → Returns (λ a. (b : B) × R a b × P b) r
  Agree-Returns (both_return h) (returns p) = returns (_, h, p)
  Agree-Returns both_fault h = elim h [ ]

pub Agree-refl {ℓ} : {A : Type ℓ} (r : Run A) → Agree (λ a b. a ≡ b) r r
Agree-refl (ok a) = both_return refl
Agree-refl (fault e) = both_fault

-- After the same run.
pub Agree-same {ℓ ℓ' κ' μ'} :
    {A : Type ℓ} {C : Type ℓ'} {D : Type κ'} {S : C → D → Type μ'} {k : A → Run C} {k' : A → Run D}
    (r : Run A)
    → ((a : A) → Agree S (k a) (k' a))
    → Agree S (r >>= k) (r >>= k')
Agree-same (ok a) next = next a
Agree-same (fault e) next = both_fault
