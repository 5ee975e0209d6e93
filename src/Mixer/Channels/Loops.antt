-- ===== src/Mixer/Channels/Loops.antt =====
-- What the loops of hdspe_mixer.c leave in the mixer.
use snd_hdspe.Common.{
  ℕ, zero, suc, ◌-◌, ◌<◌, ◌≤◌, ◌≡◌, arith, Bool, true, false, ◌&&◌, leb, ltb, ◌==◌, if◌then◌else◌,
  refl, Bool-cases, inl, inr, ◌∙◌, ap, ==_iff, min, le→ltb_false, lt→ltb,
}
use snd_hdspe.Mixer.{Mixer, read_in_gain, read_pb_gain, write_in_gain, write_pb_gain, read_gain}
use snd_hdspe.Mixer.Channels.{for_channels, write_both, clear_mixer}

-- What a loop's body keeps, the loop keeps.
pub for_channels-keeps {ℓ} :
    (P : Mixer → Type ℓ) (f : ℕ → Mixer → Mixer)
    → ((i : ℕ) (m : Mixer) → P m → P (f i m))
    → (n : ℕ) (m : Mixer) → P m
    → P (for_channels n f m)
unfolding for_channels
for_channels-keeps P f h zero m p = p
for_channels-keeps P f h (suc n) m p = h n (for_channels n f m) (for_channels-keeps P f h n m p)

-- The input or playback of a source.
abbrev slot : ℕ → ℕ
slot s = if leb 64 s then s - 64 else s

write_both-read_gain :
    (m : Mixer) (i j gain d s : ℕ)
    → i < 64
    → j < 64
    → d < 64
    → s < 128
    → gain < 65536
    → read_gain (write_both i j gain m) d s
      ≡ (if (d == i) && (slot s == j) then gain else read_gain m d s)
unfolding write_both read_gain read_in_gain read_pb_gain write_in_gain write_pb_gain
write_both-read_gain m i j gain d s a b c e g = ground arith

ltb-suc : (x n : ℕ) → (x == n) ≡ false → ltb x (suc n) ≡ ltb x n
ltb-suc x n h = ground arith

-- A loop whose body i changes a reading only where i is its key changes it once, by that body.
pub for_channels-reading :
    (R : Mixer → ℕ) (x : ℕ) (h : ℕ → ℕ) (f : ℕ → Mixer → Mixer)
    → ((i : ℕ) (m : Mixer) → i < 64 → R (f i m) ≡ (if x == i then h (R m) else R m))
    → (n : ℕ) → n ≤ 64
    → (m : Mixer) → R (for_channels n f m) ≡ (if ltb x n then h (R m) else R m)
unfolding for_channels
for_channels-reading R x h f step zero l m = rw (le→ltb_false x 0 (omega arith)) refl
for_channels-reading R x h f step (suc n) l m =
    let before = for_channels-reading R x h f step n (omega arith) m in
    let now = step n (for_channels n f m) (omega arith) in
    elim (Bool-cases (x == n)) [
      | inl here ↦
          let e : x ≡ n = (==_iff x n).0 here in
          let untouched : R (for_channels n f m) ≡ R m =
            before ∙ rw (le→ltb_false x n (omega (arith, e))) refl in
          now ∙ rw (here, lt→ltb x (suc n) (omega (arith, e))) (ap h untouched)
      | inr elsewhere ↦ now ∙ rw elsewhere (before ∙ rw (ltb-suc x n elsewhere) refl)
    ]

abbrev pub either : Bool → ℕ → ℕ → ℕ
either b v r = if b then v else r

nest_if : (b c : Bool) (v r : ℕ) → (if b && c then v else r) ≡ (if c then either b v r else r)
nest_if true true v r = refl
nest_if true false v r = refl
nest_if false true v r = refl
nest_if false false v r = refl

slot-lt : (s : ℕ) → s < 128 → ltb (slot s) 64 ≡ true
slot-lt s h = ground arith

-- The inner loop sets all gains of one output.
pub row-read_gain :
    (m : Mixer) (i gain d s : ℕ)
    → i < 64
    → d < 64
    → s < 128
    → gain < 65536
    → read_gain (for_channels 64 (λ j. write_both i j gain) m) d s
      ≡ (if d == i then gain else read_gain m d s)
row-read_gain m i gain d s a c e g =
    for_channels-reading (λ m'. read_gain m' d s) (slot s) (either (d == i) gain)
      (λ j. write_both i j gain)
      (λ j m' b.
        write_both-read_gain m' i j gain d s a b c e g
        ∙ nest_if (d == i) (slot s == j) gain (read_gain m' d s))
      64 (omega arith) m
    ∙ rw (slot-lt s e) refl

cut_gain : (g : ℕ) → (if ltb 32768 g then 32768 else g) ≡ min g 32768
cut_gain g = ground arith

-- Clearing the mixer sets each gain to the given one, cut at unity gain.
pub clear_mixer-read_gain :
    (m : Mixer) (sgain d s : ℕ)
    → d < 64
    → s < 128
    → read_gain (clear_mixer m sgain) d s ≡ min sgain 32768
unfolding clear_mixer
clear_mixer-read_gain m sgain d s a b =
    let gain : ℕ = if ltb 32768 sgain then 32768 else sgain in
    let cut : gain ≡ min sgain 32768 = cut_gain sgain in
    for_channels-reading (λ m'. read_gain m' d s) d (λ _. gain)
      (λ i. for_channels 64 (λ j. write_both i j gain))
      (λ i m' c. row-read_gain m' i gain d s c a b (omega (arith, cut))) 64 (omega arith) m
    ∙ rw (lt→ltb d 64 a) cut
