-- ===== src/Base/Int.antt =====
-- Signed C integers, unbounded, with C's division that rounds towards zero.
use Prim.Native.Nat.{ℕ, suc, ◌+◌, ◌-◌, ◌*◌, ◌/◌, ◌%◌, ◌^◌}
use pthreads.Base.Tests.{leb, if◌then◌else◌}

-- `negsuc n` is -(n + 1).
pub data ℤ : Type 0 where
  pos : ℕ → ℤ
  negsuc : ℕ → ℤ

abbrev pub neg_ℕ : ℕ → ℤ
neg_ℕ n = if leb 1 n then negsuc (n - 1) else pos 0

-- a - b, as an integer.
abbrev pub sub_ℕ : ℕ → ℕ → ℤ
sub_ℕ a b = if leb b a then pos (a - b) else negsuc (b - a - 1)

infixl 65 ◌+ℤ◌
infixl 70 ◌*ℕ◌ ◌/ℕ◌ ◌%ℕ◌
abbrev pub ◌+ℤ◌ : ℤ → ℤ → ℤ
pos a +ℤ pos b = pos (a + b)
pos a +ℤ negsuc b = sub_ℕ a (suc b)
negsuc a +ℤ pos b = sub_ℕ b (suc a)
negsuc a +ℤ negsuc b = negsuc (a + b + 1)

abbrev pub ◌*ℕ◌ : ℤ → ℕ → ℤ
pos a *ℕ k = pos (a * k)
negsuc a *ℕ k = neg_ℕ (suc a * k)

abbrev pub ◌/ℕ◌ : ℤ → ℕ → ℤ
pos a /ℕ k = pos (a / k)
negsuc a /ℕ k = neg_ℕ (suc a / k)

abbrev pub ◌%ℕ◌ : ℤ → ℕ → ℤ
pos a %ℕ k = pos (a % k)
negsuc a %ℕ k = neg_ℕ (suc a % k)

-- A number of 64 bits, with its wrap-around.
abbrev pub to_long : ℤ → ℤ
to_long (pos n) =
    if leb (n % 2 ^ 64) (2 ^ 63 - 1) then pos (n % 2 ^ 64) else negsuc (2 ^ 64 - 1 - n % 2 ^ 64)
to_long (negsuc n) =
    if leb (n % 2 ^ 64) (2 ^ 63 - 1) then negsuc (n % 2 ^ 64) else pos (2 ^ 64 - 1 - n % 2 ^ 64)

abbrev pub IsNegative : ℤ → Type 0
IsNegative (pos n) = ⊥
IsNegative (negsuc n) = Unit
