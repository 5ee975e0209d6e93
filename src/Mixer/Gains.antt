-- ===== src/Mixer/Gains.antt =====
-- The gains of hdspe_mixer.c: what is written is what is read, and the cache is what the card has.
use snd_hdspe.Common.{
  ℕ, ◌-◌, ◌%◌, ◌<◌, ◌≡◌, arith, Bool, true, false, not, ◌&&◌, ◌||◌, leb, ◌==◌, if◌then◌else◌, refl,
  Bool-cases, lt→leb_false, ==_iff, ◌∙◌, ap, sym, inl, inr,
}
use native.Mathlib.Nat.{mod-eq_of_lt}
use snd_hdspe.Common.Int.{ℤ, pos, negsuc, pos_part, is_negative}
use snd_hdspe.Common.FloorMod.{floor_mod, floor_mod-lt}
use snd_hdspe.Mixer.{
  Mixer, read_in_gain, read_pb_gain, write_in_gain, write_pb_gain, read_gain, write_gain, get_mixer,
  put_mixer, use_is_exclusive, clamp, gain_differs, in_address, pb_address, get_playback_mixer,
  put_playback_mixer,
}

-- The registers of the card have the cached gains.
pub record Cached (m : Mixer) : Type 0 where
  pub inputs : (c s : ℕ) → c < 64 → s < 64 → m.card (in_address c s) ≡ m.in_gain c s
  pub playbacks : (c s : ℕ) → c < 64 → s < 64 → m.card (pb_address c s) ≡ m.pb_gain c s

pub write_in_gain-Cached : (m : Mixer) (c s v : ℕ) → Cached m → Cached (write_in_gain m c s v).0
unfolding write_in_gain
write_in_gain-Cached m c s v k = record {
  inputs = λ c' s' p q. ground (arith, k.inputs c' s' p q);
  playbacks = λ c' s' p q. ground (arith, k.playbacks c' s' p q);
}

-- A gain that is written is read back as 16 bits, and no other gain changes.
pub read_gain-write_gain :
    (m : Mixer) (d s d' s' v : ℕ)
    → d < 64
    → s < 128
    → d' < 64
    → s' < 128
    → read_gain (write_gain m d s v) d' s'
      ≡ (if (d' == d) && (s' == s) then v % 65536 else read_gain m d' s')
unfolding read_gain write_gain read_in_gain read_pb_gain write_in_gain write_pb_gain
read_gain-write_gain m d s d' s' v a b a' b' = ground arith

pub write_pb_gain-Cached : (m : Mixer) (c s v : ℕ) → Cached m → Cached (write_pb_gain m c s v).0
unfolding write_pb_gain
write_pb_gain-Cached m c s v k = record {
  inputs = λ c' s' p q. ground (arith, k.inputs c' s' p q);
  playbacks = λ c' s' p q. ground (arith, k.playbacks c' s' p q);
}

write_gain-Cached : (m : Mixer) (d s v : ℕ) → Cached m → Cached (write_gain m d s v)
unfolding write_gain
write_gain-Cached m d s v k = elim (Bool-cases (leb 64 s)) [
  | inl playback ↦ rw playback (write_pb_gain-Cached m d (s - 64) v k)
  | inr input ↦ rw input (write_in_gain-Cached m d s v k)
]

get_mixer-eq :
    (m : Mixer) (s d : ℕ) → s < 128 → d < 64 → get_mixer m (pos s) (pos d) ≡ read_gain m d s
unfolding get_mixer clamp is_negative
get_mixer-eq m s d a b = rw (lt→leb_false 64 d b, lt→leb_false 128 s a) refl

read_gain-lt : (m : Mixer) (d s : ℕ) → read_gain m d s < 65536
unfolding read_gain read_in_gain read_pb_gain
read_gain-lt m d s = ground arith

same_gain :
    (gain : ℤ) (old : ℕ) → old < 65536 → gain_differs gain old ≡ false → floor_mod gain 65536 ≡ old
unfolding gain_differs
same_gain (pos n) old l h = ground arith
same_gain (negsuc n) old l h = ground arith

-- Where the gain is the old one, an update with it changes nothing.
unchanged :
    (m : Mixer) (d s d' s' v : ℕ)
    → v ≡ read_gain m d s
    → read_gain m d' s' ≡ (if (d' == d) && (s' == s) then v else read_gain m d' s')
unchanged m d s d' s' v h = elim (Bool-cases (d' == d)) [
  | inr other ↦ rw other refl
  | inl output ↦ elim (Bool-cases (s' == s)) [
    | inr other ↦ rw (output, other) refl
    | inl source ↦
        let e : d' ≡ d = (==_iff d' d).0 output in
        let f : s' ≡ s = (==_iff s' s).0 source in
        rw (output, source) (ap (λ (t : ℕ). read_gain m t s') e ∙ ap (read_gain m d) f ∙ sym h)
  ]
]

-- With exclusive use, put_mixer of a source and destination in range makes get_mixer give the
-- gain's low 16 bits there and what it gave before everywhere else, and its result is 0 exactly
-- where the gain was the old one, and else 1.
pub put_mixer_lem :
    (m : Mixer) (s d s' d' : ℕ) (gain : ℤ)
    → use_is_exclusive m ≡ true
    → s < 128
    → d < 64
    → s' < 128
    → d' < 64
    → let (m', changed) = put_mixer m (pos s) (pos d) gain in
      (get_mixer m' (pos s') (pos d')
        ≡ (if (d' == d) && (s' == s) then floor_mod gain 65536 else get_mixer m (pos s') (pos d')))
      × (changed ≡ pos (if gain_differs gain (get_mixer m (pos s) (pos d)) then 1 else 0))
unfolding put_mixer is_negative
put_mixer_lem m s d s' d' gain x a b a' b' =
    let old : ℕ = read_gain m d s in
    let v : ℕ = floor_mod gain 65536 in
    let word : v % 65536 ≡ v = mod-eq_of_lt (floor_mod-lt gain 65536 (omega arith)) in
    rw
      (
        x,
        lt→leb_false 128 s a,
        lt→leb_false 64 d b,
        get_mixer-eq m s d a b,
        get_mixer-eq m s' d' a' b',
      )
      (elim (Bool-cases (gain_differs gain old)) [
        | inl change ↦ rw change (
          get_mixer-eq (write_gain m d s v) s' d' a' b'
              ∙ read_gain-write_gain m d s d' s' v b a b' a'
              ∙ ap (λ (t : ℕ). if (d' == d) && (s' == s) then t else read_gain m d' s') word,
          refl,
        )
        | inr same ↦ rw same (
          get_mixer-eq m s' d' a' b'
              ∙ unchanged m d s d' s' v (same_gain gain old (read_gain-lt m d s) same),
          refl,
        )
      ])

Cached-if : (b : Bool) (x y : Mixer × ℤ) → Cached x.0 → Cached y.0 → Cached (if b then x else y).0
Cached-if true x y h k = h
Cached-if false x y h k = k

-- put_mixer keeps the card's registers and the cache in step, whatever it is given.
pub put_mixer-Cached :
    (m : Mixer) (source destination gain : ℤ)
    → Cached m
    → Cached (put_mixer m source destination gain).0
unfolding put_mixer
put_mixer-Cached m source destination gain k =
    let s : ℕ = pos_part source in
    let d : ℕ = pos_part destination in
    let v : ℕ = floor_mod gain 65536 in
    let written : Mixer × ℤ = (write_gain m d s v, pos 1) in
    let stored =
      Cached-if (gain_differs gain (read_gain m d s)) written (m, pos 0)
        (write_gain-Cached m d s v k) k in
    Cached-if (not (use_is_exclusive m)) (m, negsuc 15) _ k
      (Cached-if (is_negative source || leb 128 s) (m, negsuc 0) _ k
        (Cached-if (is_negative destination || leb 64 d) (m, negsuc 0) _ k stored))

-- The simple control of a channel reads back the value from 0 to 127 that was put, under
-- exclusive use.
pub get_playback_mixer-put_playback_mixer :
    (m : Mixer) (channel value : ℕ)
    → use_is_exclusive m ≡ true
    → channel < 64
    → value < 128
    → get_playback_mixer (put_playback_mixer m channel value).0 channel ≡ value
unfolding get_playback_mixer put_playback_mixer read_pb_gain write_pb_gain
get_playback_mixer-put_playback_mixer m channel value x a b = ground arith
