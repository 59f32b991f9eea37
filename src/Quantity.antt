-- ===== src/Quantity.antt =====
-- `resource.Quantity` of k8s.io/apimachinery: the operations that the program calls, and their
-- documented meaning, by the amount that a quantity stands for. Quantities are values here.
use kube_throttler.Prelude.{◌≡◌, Ordering, Bool}
use kube_throttler.Prelude.Int.{ℤ, pos, ◌+ℤ◌, ◌-ℤ◌, compare_ℤ, beq_ℤ}

pub record Quantity (Q : Type 0) : Type 0 where
  -- the amount, in the smallest unit that a quantity can express
  pub amount : Q → ℤ
  -- `Quantity{}`, what a missing key of a map reads as
  pub zero_quantity : Q
  pub add : Q → Q → Q
  pub sub : Q → Q → Q
  -- `Cmp`; its -1, 0 and 1 are `lt`, `eq` and `gt`
  pub cmp : Q → Q → Ordering
  pub is_zero : Q → Bool
  pub amount-zero : amount zero_quantity ≡ pos 0
  pub amount-add : (x y : Q) → amount (add x y) ≡ amount x +ℤ amount y
  pub amount-sub : (x y : Q) → amount (sub x y) ≡ amount x -ℤ amount y
  pub cmp_lem : (x y : Q) → cmp x y ≡ compare_ℤ (amount x) (amount y)
  pub is_zero_lem : (x : Q) → is_zero x ≡ beq_ℤ (amount x) (pos 0)
