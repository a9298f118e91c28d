-- ===== src/Prelude/Int.antt =====
-- Signed integers over the native numbers, and Rust's i128 on them: its range and its checked
-- operations. `negsuc n` is -(n + 1).
use Prim.Native.Nat.{ℕ, suc, ◌+◌, ◌-◌, ◌*◌, ◌/◌, ◌^◌, ◌≤◌}
use mathlib.Core.Path.{◌≡◌}
use mathlib.Core.Bool.{Bool, true, ◌&&◌}
use mathlib.Core.Option.{Option, none, some}
use native.Mathlib.Omega.{arith}
use navin_contracts.Prelude.Tests.{ltb, leb, if◌then◌else◌}

pub data ℤ : Type 0 where
  pos : ℕ → ℤ
  negsuc : ℕ → ℤ

abbrev pub pos_part : ℤ → ℕ
pos_part (pos n) = n
pos_part (negsuc n) = 0

abbrev pub neg_part : ℤ → ℕ
neg_part (pos n) = 0
neg_part (negsuc n) = suc n

abbrev pub sub_ℕ : ℕ → ℕ → ℤ
sub_ℕ a b = if leb b a then pos (a - b) else negsuc (b - a - 1)

infixl 65 ◌+ℤ◌ ◌-ℤ◌
infixl 70 ◌*ℤ◌ ◌/ℤ◌
infix 50 ◌≤ℤ◌
unfoldable pub ◌+ℤ◌ : ℤ → ℤ → ℤ
a +ℤ b = sub_ℕ (pos_part a + pos_part b) (neg_part a + neg_part b)

unfoldable pub ◌-ℤ◌ : ℤ → ℤ → ℤ
a -ℤ b = sub_ℕ (pos_part a + neg_part b) (neg_part a + pos_part b)

unfoldable pub ◌*ℤ◌ : ℤ → ℤ → ℤ
a *ℤ b =
    sub_ℕ (pos_part a * pos_part b + neg_part a * neg_part b)
      (pos_part a * neg_part b + neg_part a * pos_part b)

-- Rust's `/`: the quotient rounded towards 0. (The callers test for a zero divisor first.)
unfoldable pub ◌/ℤ◌ : ℤ → ℤ → ℤ
pos a /ℤ pos b = pos (a / b)
pos a /ℤ negsuc b = sub_ℕ 0 (a / suc b)
negsuc a /ℤ pos b = sub_ℕ 0 (suc a / b)
negsuc a /ℤ negsuc b = pos (suc a / suc b)

abbrev pub ◌≤ℤ◌ : ℤ → ℤ → Type 0
a ≤ℤ b = pos_part a + neg_part b ≤ pos_part b + neg_part a

abbrev pub ltb_ℤ : ℤ → ℤ → Bool
ltb_ℤ a b = ltb (pos_part a + neg_part b) (pos_part b + neg_part a)

abbrev pub leb_ℤ : ℤ → ℤ → Bool
leb_ℤ a b = leb (pos_part a + neg_part b) (pos_part b + neg_part a)

pub +ℤ_parts :
    (a b : ℤ)
    → pos_part (a +ℤ b) + neg_part a + neg_part b ≡ neg_part (a +ℤ b) + pos_part a + pos_part b
unfolding ◌+ℤ◌
+ℤ_parts a b = ground arith

pub -ℤ_parts :
    (a b : ℤ)
    → pos_part (a -ℤ b) + neg_part a + pos_part b ≡ neg_part (a -ℤ b) + pos_part a + neg_part b
unfolding ◌-ℤ◌
-ℤ_parts a b = ground arith

pub eq_of_parts : (a b : ℤ) → pos_part a + neg_part b ≡ pos_part b + neg_part a → a ≡ b
eq_of_parts a b h = ground arith

pub ruleset int_laws = (arith, +ℤ_parts, -ℤ_parts, eq_of_parts)

-- i128::MAX is 2^127 - 1 and i128::MIN is -2^127.
abbrev pub i128_max : ℤ
i128_max = pos (2 ^ 127 - 1)

abbrev pub i128_min : ℤ
i128_min = negsuc (2 ^ 127 - 1)

unfoldable pub in_i128 : ℤ → Bool
in_i128 a = leb_ℤ i128_min a && leb_ℤ a i128_max

-- `a.checked_add(b)`, `a.checked_sub(b)`, `a.checked_mul(b)`
unfoldable pub checked_add : ℤ → ℤ → Option ℤ
checked_add a b = if in_i128 (a +ℤ b) then some (a +ℤ b) else none

unfoldable pub checked_sub : ℤ → ℤ → Option ℤ
checked_sub a b = if in_i128 (a -ℤ b) then some (a -ℤ b) else none

unfoldable pub checked_mul : ℤ → ℤ → Option ℤ
checked_mul a b = if in_i128 (a *ℤ b) then some (a *ℤ b) else none

pub in_i128_of_bounds : (a : ℤ) → pos 0 ≤ℤ a → a ≤ℤ i128_max → in_i128 a ≡ true
unfolding in_i128
in_i128_of_bounds a h k = ground arith

pub checked_add-eq :
    (a b : ℤ) → pos 0 ≤ℤ a +ℤ b → a +ℤ b ≤ℤ i128_max → checked_add a b ≡ some (a +ℤ b)
unfolding checked_add
checked_add-eq a b h k = ground (arith, in_i128_of_bounds (a +ℤ b) h k)

pub checked_sub-eq :
    (a b : ℤ) → pos 0 ≤ℤ a -ℤ b → a -ℤ b ≤ℤ i128_max → checked_sub a b ≡ some (a -ℤ b)
unfolding checked_sub
checked_sub-eq a b h k = ground (arith, in_i128_of_bounds (a -ℤ b) h k)

pub in_i128-le : (a : ℤ) → in_i128 a ≡ true → a ≤ℤ i128_max
unfolding in_i128
in_i128-le a h = ground arith

pub +ℤ-zero : (a : ℤ) → a +ℤ pos 0 ≡ a
+ℤ-zero a = omega int_laws

pub +ℤ_cancel : (a b : ℤ) → a -ℤ b +ℤ b ≡ a
+ℤ_cancel a b = omega int_laws

pub +ℤ_assoc : (a b c : ℤ) → a +ℤ b +ℤ c ≡ a +ℤ (b +ℤ c)
+ℤ_assoc a b c = omega int_laws

pub +ℤ-ge : (a x : ℤ) → pos 0 ≤ℤ x → a ≤ℤ a +ℤ x
+ℤ-ge a x h = omega int_laws

pub +ℤ-ge_right : (a x : ℤ) → pos 0 ≤ℤ a → x ≤ℤ a +ℤ x
+ℤ-ge_right a x h = omega int_laws

pub +ℤ_cancel_right : (a b : ℤ) → a +ℤ b -ℤ b ≡ a
+ℤ_cancel_right a b = omega int_laws

pub -ℤ_nonneg : (a x : ℤ) → x ≤ℤ a → pos 0 ≤ℤ a -ℤ x
-ℤ_nonneg a x h = omega int_laws

pub -ℤ-le_max : (a x : ℤ) → pos 1 ≤ℤ x → a ≤ℤ i128_max → a -ℤ x ≤ℤ i128_max
-ℤ-le_max a x h k = omega int_laws
