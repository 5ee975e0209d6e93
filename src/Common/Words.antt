-- ===== src/Common/Words.antt =====
-- Shifts of machine words. A left shift of a w-bit word is reduced by its caller where bits
-- can leave the word.
use Prim.Native.Nat.{ℕ, ◌*◌, ◌/◌, ◌%◌, ◌^◌}

-- x >> k
abbrev pub shr : ℕ → ℕ → ℕ
shr x k = x / 2 ^ k

-- x << k
abbrev pub shl : ℕ → ℕ → ℕ
shl x k = x * 2 ^ k

-- Conversion to u32, u16 and u64.
abbrev pub u32 : ℕ → ℕ
u32 n = n % 2 ^ 32
