-- ===== src/Json/Outcome.antt =====
-- src/core/json.cpp: what a member function of `Parser` returns, with the text that is left behind
-- `pos_`, and `fail`.
use contextsnap.Base.{
  ◌≢◌, Bool, Bytes, arith, codes, false, if◌then◌else◌, length, true, ℕ, ◌++◌, ◌-◌, ◌≤◌,
}
use contextsnap.Base.Decimal.{nat_string}
use contextsnap.Errors.{Error, invalid}

-- `out_of_fuel` has no counterpart in the code.
pub data Outcome {ℓ} (A : Type ℓ) : Type ℓ where
  parsed : A → Bytes → Outcome A
  failed : Error → Outcome A
  out_of_fuel : Outcome A

abbrev pub bind {ℓ κ} : {A : Type ℓ} {B : Type κ} → Outcome A → (A → Bytes → Outcome B) → Outcome B
bind (parsed a s) f = f a s
bind (failed e) f = failed e
bind out_of_fuel f = out_of_fuel

-- `total` is the size of the text, `s` what is left of it.
unfoldable pub fail {ℓ} : {A : Type ℓ} → ℕ → Bytes → Bytes → Outcome A
unfolding nat_string
fail total message s =
    failed (
      invalid (message ++ codes " at offset " ++ nat_string (total - length s))
        (codes "json.parse"))

-- The run kept within its fuel and left at most `n` bytes.
pub data Within {ℓ} {A : Type ℓ} (n : ℕ) : Outcome A → Type ℓ where
  left : {a : A} {s : Bytes} → length s ≤ n → Within n (parsed a s)
  stopped : {e : Error} → Within n (failed e)

module _ {ℓ} {A : Type ℓ} where
  pub Within-fail :
      {n : ℕ} (total : ℕ) (message s : Bytes) → Within n (fail {A = A} total message s)
  unfolding fail
  Within-fail total message s = stopped

  pub Within-if :
      {n : ℕ} (b : Bool) {x y : Outcome A} → Within n x → Within n y → Within n (if b then x else y)
  Within-if true h k = h
  Within-if false h k = k

  pub Within-weaken : {n m : ℕ} {o : Outcome A} → n ≤ m → Within n o → Within m o
  Within-weaken h (left l) = left (omega arith)
  Within-weaken h stopped = stopped

  pub Within-ends : {n : ℕ} {o : Outcome A} → Within n o → o ≢ out_of_fuel
  Within-ends (left l) = cc
  Within-ends stopped = cc

pub Within-bind {ℓ κ} :
    {A : Type ℓ} {B : Type κ} {n m : ℕ} {o : Outcome A} {f : A → Bytes → Outcome B}
    → Within n o
    → ((a : A) (s : Bytes) → length s ≤ n → Within m (f a s))
    → Within m (bind o f)
Within-bind (left {a} {s} l) k = k a s l
Within-bind stopped k = stopped
