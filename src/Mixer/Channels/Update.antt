-- ===== src/Mixer/Channels/Update.antt =====
-- The channel maps in the mixer of hdspe_mixer.c: which channels an update mutes.
use snd_hdspe.Common.{
  ℕ, ◌+◌, ◌<◌, ◌≡◌, arith, Bool, false, ◌&&◌, ltb, ◌==◌, if◌then◌else◌, refl, Bool-cases, inl, inr,
  ◌∙◌, ap, sym, ==_iff, lt→ltb,
}
use snd_hdspe.Common.Int.{ℤ}
use snd_hdspe.Mixer.{Mixer, read_in_gain, read_pb_gain, write_in_gain, write_pb_gain, read_gain}
use snd_hdspe.Mixer.Channels.{
  for_channels, used_channels, update_output, update_input, update_channel_map,
}
use snd_hdspe.Mixer.Channels.Loops.{for_channels-reading, row-read_gain, either}

-- The gain of a source at an output after the first loop, if it was r before.
abbrev pub output_gain : (ℕ → Bool) → ℕ → ℕ → ℕ → ℕ
output_gain used d s r = if used d then (if s == 64 + d then 32768 else r) else 0

write_pb_gain-read_gain :
    (m : Mixer) (i d s : ℕ)
    → i < 64
    → d < 64
    → s < 128
    → read_gain (write_pb_gain m i i 32768).0 d s
      ≡ (if (d == i) && (s == 64 + i) then 32768 else read_gain m d s)
unfolding read_gain read_in_gain read_pb_gain write_pb_gain
write_pb_gain-read_gain m i d s a c e = ground arith

unity_if :
    (d s r : ℕ)
    → (if (d == d) && (s == 64 + d) then 32768 else r) ≡ (if s == 64 + d then 32768 else r)
unity_if d s r = ground arith

muted_if : (d r : ℕ) → (if d == d then 0 else r) ≡ 0
muted_if d r = ground arith

module _ (used : ℕ → Bool) (d s : ℕ) (m : Mixer) (a : d < 64) (b : s < 128) where
  update_output-here :
      read_gain (update_output used d m) d s ≡ output_gain used d s (read_gain m d s)
  unfolding update_output
  update_output-here = elim (Bool-cases (used d)) [
    | inl u ↦ rw u (write_pb_gain-read_gain m d d s a a b ∙ unity_if d s (read_gain m d s))
    | inr u ↦ rw u (row-read_gain m d 0 d s a a b (omega arith) ∙ muted_if d (read_gain m d s))
  ]

  update_output-elsewhere :
      (i : ℕ) → i < 64 → (d == i) ≡ false → read_gain (update_output used i m) d s ≡ read_gain m d s
  unfolding update_output
  update_output-elsewhere i c h = elim (Bool-cases (used i)) [
    | inl u ↦ rw u (write_pb_gain-read_gain m i d s c a b ∙ rw h refl)
    | inr u ↦ rw u (row-read_gain m i 0 d s c a b (omega arith) ∙ rw h refl)
  ]

  update_output-read_gain :
      (i : ℕ)
      → i < 64
      → read_gain (update_output used i m) d s
        ≡ (if d == i then output_gain used d s (read_gain m d s) else read_gain m d s)
  update_output-read_gain i c = elim (Bool-cases (d == i)) [
    | inl here ↦ rw here (
        ap (λ (t : ℕ). read_gain (update_output used t m) d s) (sym ((==_iff d i).0 here))
        ∙ update_output-here)
    | inr elsewhere ↦ rw elsewhere (update_output-elsewhere i c elsewhere)
  ]

-- The gain of a source after the second loop, if it was r after the first.
abbrev pub input_gain : (ℕ → Bool) → ℕ → ℕ → ℕ
input_gain used s r = if used s then r else 0

mute_input-read_gain :
    (m : Mixer) (j i d s : ℕ)
    → j < 64
    → i < 64
    → d < 64
    → s < 128
    → read_gain (write_in_gain m j i 0).0 d s
      ≡ (if d == j then either (s == i) 0 (read_gain m d s) else read_gain m d s)
unfolding read_gain read_in_gain read_pb_gain write_in_gain
mute_input-read_gain m j i d s a b c e = ground arith

column-read_gain :
    (m : Mixer) (i d s : ℕ)
    → i < 64
    → d < 64
    → s < 128
    → read_gain (for_channels 64 (λ j m'. (write_in_gain m' j i 0).0) m) d s
      ≡ (if s == i then 0 else read_gain m d s)
column-read_gain m i d s a b c =
    for_channels-reading (λ m'. read_gain m' d s) d (either (s == i) 0)
      (λ j m'. (write_in_gain m' j i 0).0) (λ j m' e. mute_input-read_gain m' j i d s e a b c) 64
      (omega arith) m
    ∙ rw (lt→ltb d 64 b) refl

update_input-read_gain :
    (used : ℕ → Bool) (d s : ℕ) (m : Mixer) (i : ℕ)
    → d < 64
    → s < 128
    → i < 64
    → read_gain (update_input used i m) d s
      ≡ (if s == i then input_gain used s (read_gain m d s) else read_gain m d s)
unfolding update_input
update_input-read_gain used d s m i a b c = elim (Bool-cases (s == i)) [
  | inl here ↦
      let e : used s ≡ used i = ap used ((==_iff s i).0 here) in
      elim (Bool-cases (used i)) [
        | inl u ↦ rw (u, here, e ∙ u) refl
        | inr u ↦ rw (u, here, e ∙ u) (column-read_gain m i d s c a b ∙ rw here refl)
      ]
  | inr elsewhere ↦ elim (Bool-cases (used i)) [
    | inl u ↦ rw (u, elsewhere) refl
    | inr u ↦ rw (u, elsewhere) (column-read_gain m i d s c a b ∙ rw elsewhere refl)
  ]
]

-- After an update of the channel maps an output that is not used has no gain, a used one has
-- unity gain for its own playback and its old gains for the other sources, and an input that is
-- not used has no gain at any output.
pub update_channel_map-read_gain :
    (m : Mixer) (map_out map_in : ℕ → ℤ) (d s : ℕ)
    → d < 64
    → s < 128
    → let output = output_gain (used_channels 64 map_out) d s (read_gain m d s) in
      read_gain (update_channel_map m map_out map_in) d s
      ≡ (if ltb s 64 then input_gain (used_channels 64 map_in) s output else output)
unfolding update_channel_map
update_channel_map-read_gain m map_out map_in d s a b =
    let outs : ℕ → Bool = used_channels 64 map_out in
    let ins : ℕ → Bool = used_channels 64 map_in in
    let m1 : Mixer = for_channels 64 (update_output outs) m in
    let first =
      for_channels-reading (λ m'. read_gain m' d s) d (output_gain outs d s) (update_output outs)
        (λ i m' c. update_output-read_gain outs d s m' a b i c) 64 (omega arith) m in
    let first' : read_gain m1 d s ≡ output_gain outs d s (read_gain m d s) =
      first ∙ rw (lt→ltb d 64 a) refl in
    let second =
      for_channels-reading (λ m'. read_gain m' d s) s (input_gain ins s) (update_input ins)
        (λ i m' c. update_input-read_gain ins d s m' i a b c) 64 (omega arith) m1 in
    second ∙ ap (λ (r : ℕ). if ltb s 64 then input_gain ins s r else r) first'
