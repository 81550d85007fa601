-- ===== src/Prelude/Partial.antt =====
-- Partial correctness of a computation that may fail: what holds of its value, if it gives one.
use mathlib.Core.Path.{◌≡◌, refl, subst}
use mathlib.Core.Bool.{Bool, true, false}
use mathlib.Core.Option
use mathlib.Core.Option.{Option, none, some}
use inkling_in_c.Prelude.Tests.{if◌then◌else◌, bind}

pub data Gives {ℓ κ} {A : Type ℓ} (P : A → Type κ) : Option A → Type (ℓ ⊔ κ) where
  nothing : Gives P none
  gives : {a : A} → P a → Gives P (some a)

pub some_injective {ℓ} : {A : Type ℓ} {a b : A} → some a ≡ some b → a ≡ b
some_injective e = cc

module _ {ℓ κ} {A : Type ℓ} {P : A → Type κ} where
  pub Gives-some : {o : Option A} {a : A} → Gives P o → o ≡ some a → P a
  Gives-some nothing e = cc
  Gives-some (gives p) e = subst P (some_injective e) p

  pub Gives-unless :
      (c : Bool) {o : Option A} → (c ≡ false → Gives P o) → Gives P (if c then none else o)
  Gives-unless true k = nothing
  Gives-unless false k = k refl

  pub Gives-when :
      (c : Bool) {o : Option A} → (c ≡ true → Gives P o) → Gives P (if c then o else none)
  Gives-when true k = k refl
  Gives-when false k = nothing

  pub Gives-if :
      (c : Bool) {o p : Option A}
      → (c ≡ true → Gives P o)
      → (c ≡ false → Gives P p)
      → Gives P (if c then o else p)
  Gives-if true k l = k refl
  Gives-if false k l = l refl

  pub Gives-self : (o : Option A) → ((a : A) → o ≡ some a → P a) → Gives P o
  Gives-self none k = nothing
  Gives-self (some a) k = gives (k a refl)

module _ {ℓ κ μ} {A : Type ℓ} {B : Type κ} {P : B → Type μ} where
  pub Gives-bind :
      (o : Option A) {f : A → Option B}
      → ((a : A) → o ≡ some a → Gives P (f a))
      → Gives P (bind o f)
  Gives-bind none k = nothing
  Gives-bind (some a) k = k a refl

  pub Gives-map :
      (o : Option A) (f : A → B) → ((a : A) → o ≡ some a → P (f a)) → Gives P (Option.map f o)
  Gives-map none f k = nothing
  Gives-map (some a) f k = gives (k a refl)

module _ {ℓ κ μ} {A : Type ℓ} {P : A → Type κ} {Q : A → Type μ} where
  pub Gives-imply : {o : Option A} → ((a : A) → P a → Q a) → Gives P o → Gives Q o
  Gives-imply k nothing = nothing
  Gives-imply k (gives p) = gives (k _ p)
