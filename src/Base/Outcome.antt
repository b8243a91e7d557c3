-- ===== src/Base/Outcome.antt =====
-- What running a C routine gives: a value, a fault (the C code has no defined behaviour from there
-- on), or no answer within the fuel.
use mathlib.Core.Path.{◌≡◌, refl, ap, ◌∙◌}
use mathlib.Core.Option.{Option, none, some}
use mathlib.Core.List.{List}
use Prim.Native.Nat.{ℕ}
use post_dns.Base.Lists.{get_elem?}

pub data Fault : Type 0 where
  -- a read or write through NULL
  null_pointer : Fault
  -- a read or write of a block that was freed
  use_after_free : Fault
  -- an index outside of its array or block
  out_of_bounds : Fault
  -- a byte or a pointer that was never written is read
  indeterminate : Fault

pub data Run {ℓ} (A : Type ℓ) : Type ℓ where
  ok : A → Run A
  fault : Fault → Run A
  out_of_fuel : Run A

infixl 5 ◌>>=◌ ◌>>◌
abbrev pub ◌>>=◌ {ℓ κ} : {A : Type ℓ} {B : Type κ} → Run A → (A → Run B) → Run B
out_of_fuel >>= k = out_of_fuel
fault why >>= k = fault why
ok a >>= k = k a

abbrev pub ◌>>◌ {ℓ} : {B : Type ℓ} → Run (Unit {0}) → Run B → Run B
m >> k = m >>= λ _. k

module _ {ℓ κ} {A : Type ℓ} where
  -- The routine ends normally, and the property holds of its result.
  abbrev pub Returns : Run A → (A → Type κ) → Type (ℓ ⊔ κ)
  Returns run Holds = (result : A) × (run ≡ ok result) × Holds result

module _ {ℓ} {A : Type ℓ} where
  abbrev pub from_option : Fault → Option A → Run A
  from_option why (some x) = ok x
  from_option why none = fault why

  -- `xs[i]`, checked.
  abbrev pub at : List A → ℕ → Run A
  at xs i = from_option Fault.out_of_bounds (get_elem? xs i)

-- What a block of statements that went well did first.
module _ {ℓ κ} {A : Type ℓ} {B : Type κ} where
  pub >>=-eq-ok : (m : Run A) (k : A → Run B) {b : B} → (m >>= k) ≡ ok b → Returns m λ a. k a ≡ ok b
  >>=-eq-ok out_of_fuel k h = cc
  >>=-eq-ok (fault why) k h = cc
  >>=-eq-ok (ok a) k h = (a, refl, h)

pub bind_assoc {ℓ κ μ} :
    {A : Type ℓ} {B : Type κ} {C : Type μ} (m : Run A) (f : A → Run B) (g : B → Run C)
    → ((m >>= f) >>= g) ≡ (m >>= λ a. f a >>= g)
bind_assoc (ok a) f g = refl
bind_assoc (fault e) f g = refl
bind_assoc out_of_fuel f g = refl

-- One statement of a routine that went well.
pub bind_ok {ℓ κ} :
    {A : Type ℓ} {B : Type κ} (m : Run A) (f : A → Run B) {a : A} {r : Run B}
    → m ≡ ok a
    → f a ≡ r
    → (m >>= f) ≡ r
bind_ok m f e h = ap (λ x. x >>= f) e ∙ h
