-- ===== src/Common/FloorMod.antt =====
-- The remainder that is never negative, against which C's remainder with a correction is checked.
use Prim.Native.Nat.{ℕ, suc, ◌+◌, ◌-◌, ◌*◌, ◌/◌, ◌%◌, ◌≤◌, ◌<◌}
use mathlib.Core.Path.{◌≡◌, sym, ap, ◌∙◌}
use native.Mathlib.Nat.{
  mod-eq_of_lt, mod_self, suc-mod, div-add-mod', mod-lt, add-mul-mod_self_right,
}
use native.Mathlib.Decide.{dec_lt}
use native.Mathlib.Omega.{arith}
use snd_hdspe.Common.Tests.{if◌then◌else◌}
use snd_hdspe.Common.Int.{
  ℤ, pos, negsuc, pos_part, neg_part, ◌+ℤ◌, ◌-ℤ◌, +ℤ_parts, -ℤ_parts, rem_ℤ, ltb_ℤ,
}

-- -(n + 1) is d - 1 - n % d short of a multiple of d.
abbrev pub floor_mod : ℤ → ℕ → ℕ
floor_mod (pos n) d = n % d
floor_mod (negsuc n) d = d - 1 - n % d

pub floor_mod-lt : (z : ℤ) (d : ℕ) → 1 ≤ d → floor_mod z d < d
floor_mod-lt (pos n) d h = omega arith
floor_mod-lt (negsuc n) d h = omega arith

mod_unique : (n d r a b : ℕ) → r < d → n + a * d ≡ r + b * d → n % d ≡ r
mod_unique n d r a b h e =
    sym (add-mul-mod_self_right n a d)
    ∙ ap (λ (t : ℕ). t % d) e
    ∙ add-mul-mod_self_right r b d
    ∙ mod-eq_of_lt h

-- A number below d that differs from z by multiples of d is the remainder of z.
pub floor_mod_unique :
    (z : ℤ) (d r a b : ℕ) → r < d → pos_part z + a * d ≡ neg_part z + r + b * d → floor_mod z d ≡ r
floor_mod_unique (pos n) d r a b h e = mod_unique n d r a b h (omega arith)
floor_mod_unique (negsuc n) d r a b h e =
    let m : n % d ≡ d - 1 - r = mod_unique n d (d - 1 - r) (suc b) a (omega arith) (omega arith) in
    omega arith

-- How many times d is added to z and to the remainder to make them equal.
abbrev raised : ℤ → ℕ → ℕ
raised (pos n) d = 0
raised (negsuc n) d = suc (n / d)

abbrev lowered : ℤ → ℕ → ℕ
lowered (pos n) d = n / d
lowered (negsuc n) d = 0

floor_mod-split :
    (z : ℤ) (d : ℕ)
    → 1 ≤ d
    → pos_part z + raised z d * d ≡ neg_part z + floor_mod z d + lowered z d * d
floor_mod-split (pos n) d h = omega (arith, div-add-mod' n d)
floor_mod-split (negsuc n) d h = omega (arith, div-add-mod' n d, mod-lt n h)

-- The remainder of a sum may be taken in parts.
pub floor_mod-add :
    (z w : ℤ) (d : ℕ) → 1 ≤ d → floor_mod (pos (floor_mod z d) +ℤ w) d ≡ floor_mod (z +ℤ w) d
floor_mod-add z w d h =
    let sum : ℤ = z +ℤ w in
    floor_mod_unique (pos (floor_mod z d) +ℤ w) d (floor_mod sum d) (raised sum d + lowered z d)
      (lowered sum d + raised z d) (floor_mod-lt sum d h)
      (omega (
        arith,
        floor_mod-split z d h,
        floor_mod-split sum d h,
        +ℤ_parts z w,
        +ℤ_parts (pos (floor_mod z d)) w,
      ))

pub floor_mod-sub :
    (z w : ℤ) (d : ℕ) → 1 ≤ d → floor_mod (pos (floor_mod z d) -ℤ w) d ≡ floor_mod (z -ℤ w) d
floor_mod-sub z w d h =
    let difference : ℤ = z -ℤ w in
    floor_mod_unique (pos (floor_mod z d) -ℤ w) d (floor_mod difference d)
      (raised difference d + lowered z d) (lowered difference d + raised z d)
      (floor_mod-lt difference d h)
      (omega (
        arith,
        floor_mod-split z d h,
        floor_mod-split difference d h,
        -ℤ_parts z w,
        -ℤ_parts (pos (floor_mod z d)) w,
      ))

pub wrap-eq-floor_mod :
    (z : ℤ) (d : ℕ)
    → 1 ≤ d
    → (if ltb_ℤ (rem_ℤ z d) (pos 0) then pos_part (rem_ℤ z d +ℤ pos d) else pos_part (rem_ℤ z d))
      ≡ floor_mod z d
unfolding rem_ℤ ◌+ℤ◌
wrap-eq-floor_mod (pos n) d h = ground arith
wrap-eq-floor_mod (negsuc n) d h = elim (dec_lt (suc (n % d)) d) [
  | yes below ↦
      let e : suc n % d ≡ suc (n % d) = suc-mod n d ∙ mod-eq_of_lt below in rw e (ground arith)
  | no last ↦
      let top : suc (n % d) ≡ d = omega (arith, mod-lt n h) in
      let e : suc n % d ≡ 0 = suc-mod n d ∙ ap (λ (t : ℕ). t % d) top ∙ mod_self d in
      rw e (omega arith)
]
