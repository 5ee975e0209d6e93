-- ===== src/Ltc/Arithmetic.antt =====
-- The arithmetic of time codes: `hdspe_ltc32_add_frames`, `hdspe_ltc32_diff_frames` and the
-- round trips through `hdspe_ltc32_from_frames` of hdspe_ltc_math.c.
use native.Mathlib.Nat.{mod-eq_of_lt}
use snd_hdspe.Common.{ℕ, ◌<◌, ◌≡◌, Bool, ap, sym, ◌∙◌, bit_and}
use snd_hdspe.Common.Int.{ℤ, pos, ◌+ℤ◌, ◌-ℤ◌, int_laws}
use snd_hdspe.Common.FloorMod.{floor_mod, floor_mod-lt, floor_mod-add, floor_mod-sub}
use snd_hdspe.Ltc.{fpd, time_mask, to_frames, from_frames, add_frames, diff_frames}
use snd_hdspe.Ltc.Time.{IsFormat, IsCode}
use snd_hdspe.Ltc.Convert.{
  fpd_pos, wrap_frames-eq, from_frames-IsCode, to_frames-from_frames, from_frames-time_mask,
  codes_agree, to_frames-lt, from_frames_whole_days,
}

module _ (fps : ℕ) (df : Bool) (r : IsFormat fps df) where
  -- A code of the format is rebuilt from its frame number, the bits that hold no time cleared.
  pub from_frames-to_frames :
      (x : ℕ)
      → IsCode fps df x
      → from_frames (pos (to_frames x fps df)) fps df ≡ bit_and x time_mask
  from_frames-to_frames x c =
      sym (from_frames-time_mask fps df r _)
      ∙ codes_agree fps df r _ x (from_frames-IsCode fps df r _) c
          (to_frames-from_frames fps df r _ ∙ mod-eq_of_lt (to_frames-lt fps df r x c))

  -- `add_frames` moves the frame number by n, modulo a day, and gives a code of the format.
  pub to_frames-add_frames :
      (n : ℤ) (x : ℕ)
      → IsCode fps df (add_frames n x fps df)
        × (to_frames (add_frames n x fps df) fps df
            ≡ floor_mod (pos (to_frames x fps df) +ℤ n) (fpd fps df))
  unfolding add_frames
  to_frames-add_frames n x = (from_frames-IsCode fps df r _, to_frames-from_frames fps df r _)

  cancel : (k : ℕ) (n : ℤ) → pos k +ℤ n -ℤ pos k ≡ n
  cancel k n = omega int_laws

  -- The difference of a moved code and the code it was moved from is the distance of the move.
  pub diff_frames-add_frames :
      (n : ℤ) (x : ℕ) → diff_frames (add_frames n x fps df) x fps df ≡ floor_mod n (fpd fps df)
  unfolding diff_frames
  diff_frames-add_frames n x =
      let from : ℕ = to_frames x fps df in
      wrap_frames-eq _ _ (fpd_pos fps df r)
      ∙ ap (λ k. floor_mod (pos k -ℤ pos from) (fpd fps df)) (to_frames-add_frames n x).1
      ∙ floor_mod-sub (pos from +ℤ n) (pos from) _ (fpd_pos fps df r)
      ∙ ap (λ z. floor_mod z (fpd fps df)) (cancel from n)

  diff_frames-eq :
      (y x : ℕ)
      → diff_frames y x fps df
        ≡ floor_mod (pos (to_frames y fps df) -ℤ pos (to_frames x fps df)) (fpd fps df)
  unfolding diff_frames
  diff_frames-eq y x = wrap_frames-eq _ _ (fpd_pos fps df r)

  swap_sum : (a : ℕ) (z : ℤ) → pos a +ℤ z ≡ z +ℤ pos a
  swap_sum a z = omega int_laws

  restore : (a b : ℕ) → pos a -ℤ pos b +ℤ pos b ≡ pos a
  restore a b = omega int_laws

  -- Moving a code by the difference to another code of the format gives that other code, the
  -- bits that hold no time cleared; the difference is less than a day.
  pub add_frames-diff_frames :
      (x y : ℕ)
      → IsCode fps df y
      → (add_frames (pos (diff_frames y x fps df)) x fps df ≡ bit_and y time_mask)
        × (diff_frames y x fps df < fpd fps df)
  unfolding add_frames
  add_frames-diff_frames x y d =
      let a : ℕ = to_frames y fps df in
      let b : ℕ = to_frames x fps df in
      (
        from_frames_whole_days fps df r (pos b +ℤ pos (diff_frames y x fps df)) (pos a) (
              ap (λ z. floor_mod z (fpd fps df)) (swap_sum b (pos (diff_frames y x fps df)))
              ∙ ap (λ k. floor_mod (pos k +ℤ pos b) (fpd fps df)) (diff_frames-eq y x)
              ∙ floor_mod-add (pos a -ℤ pos b) (pos b) (fpd fps df) (fpd_pos fps df r)
              ∙ ap (λ z. floor_mod z (fpd fps df)) (restore a b))
            ∙ from_frames-to_frames y d,
        rw (diff_frames-eq y x) (floor_mod-lt _ _ (fpd_pos fps df r)),
      )
