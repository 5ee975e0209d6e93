-- ===== src/Cards/Buffers.antt =====
-- The channel buffers in the DMA area: each channel of a card has one of its own.
use snd_hdspe.Common.{
  ℕ, zero, suc, ◌+◌, ◌*◌, ◌≤◌, ◌<◌, ◌≡◌, ◌≢◌, ◌⊎◌, arith, refl, Bool, true, false, not, ◌&&◌, ltb,
  ◌==◌, ltb→lt, lt→leb_false, some, List, [], ◌∷◌, ap, sym, ◌∙◌,
}
use mathlib.Core.Bool.{false≢true}
use snd_hdspe.Common.Int.{pos, pos_part, is_negative}
use snd_hdspe.Common.Finite.{&&-split}
use snd_hdspe.Device.{
  IoType, madi, madiface, aio, aes, raydat, aio_pro, SpeedMode, single, double, quad, invalid,
  Direction, playback, capture,
}
use snd_hdspe.Mixer.{Mixer}
use snd_hdspe.Cards.{
  set_channel_map, channel_map_raydat_ss, channel_map_raydat_ds, channel_map_raydat_qs,
  channel_map_aio_in_ss, channel_map_aio_out_ss, channel_map_aio_in_ds, channel_map_aio_out_ds,
  channel_map_aio_in_qs, channel_map_aio_out_qs, channel_map_unity_ss, channel_map_aes, channel_map,
  Tables, madi_tables, aes_tables, raydat_tables, aio_tables, with_ai4s, with_ao4s, aio_init_tables,
  init_tables, Channels, speed_channels, map_of, max_channels, channel_buffer_bytes, dma_area_bytes,
  buffer_offset, channel_info,
}

-- Whether the first n entries of a map are DMA channels, each another one.
absent : ℕ → List ℕ → Bool
absent c [] = true
absent c (d ∷ map) = not (c == d) && absent c map

is_map : ℕ → List ℕ → Bool
is_map zero map = true
is_map (suc n) [] = false
is_map (suc n) (c ∷ map) = ltb c 64 && (absent c map && is_map n map)

are_maps : Tables → Bool
are_maps t =
    is_map t.ss_in_channels t.channel_map_in_ss
    && (is_map t.ds_in_channels t.channel_map_in_ds
        && (is_map t.qs_in_channels t.channel_map_in_qs
            && (is_map t.ss_out_channels t.channel_map_out_ss
                && (is_map t.ds_out_channels t.channel_map_out_ds
                    && is_map t.qs_out_channels t.channel_map_out_qs))))

tables_are_maps :
    (io : IoType) (aebi_d aebo_d : Bool) → are_maps (init_tables io aebi_d aebo_d) ≡ true
unfolding are_maps is_map absent init_tables madi_tables aes_tables raydat_tables aio_init_tables
    with_ai4s with_ao4s aio_tables channel_map_raydat_ss channel_map_raydat_ds channel_map_raydat_qs
    channel_map_aio_in_ss channel_map_aio_out_ss channel_map_aio_in_ds channel_map_aio_out_ds
    channel_map_aio_in_qs channel_map_aio_out_qs channel_map_unity_ss channel_map_aes
tables_are_maps madi i o = refl
tables_are_maps madiface i o = refl
tables_are_maps aes i o = refl
tables_are_maps raydat i o = refl
tables_are_maps aio true true = refl
tables_are_maps aio true false = refl
tables_are_maps aio false true = refl
tables_are_maps aio false false = refl
tables_are_maps aio_pro true true = refl
tables_are_maps aio_pro true false = refl
tables_are_maps aio_pro false true = refl
tables_are_maps aio_pro false false = refl

-- The card's channels at a valid speed.
speed_is_map :
    (t : Tables) (s : SpeedMode) (c : Channels) (d : Direction)
    → are_maps t ≡ true
    → s ≢ invalid
    → is_map (max_channels (speed_channels t s c) d) (map_of (speed_channels t s c) d) ≡ true
unfolding are_maps speed_channels max_channels map_of
speed_is_map t s c d h valid =
    let (ss_in, r1) = &&-split _ _ h in
    let (ds_in, r2) = &&-split _ _ r1 in
    let (qs_in, r3) = &&-split _ _ r2 in
    let (ss_out, r4) = &&-split _ _ r3 in
    let (ds_out, qs_out) = &&-split _ _ r4 in
    by_speed s d valid ss_in ds_in qs_in ss_out ds_out qs_out
  where
    by_speed :
        (s : SpeedMode) (d : Direction)
        → s ≢ invalid
        → is_map t.ss_in_channels t.channel_map_in_ss ≡ true
        → is_map t.ds_in_channels t.channel_map_in_ds ≡ true
        → is_map t.qs_in_channels t.channel_map_in_qs ≡ true
        → is_map t.ss_out_channels t.channel_map_out_ss ≡ true
        → is_map t.ds_out_channels t.channel_map_out_ds ≡ true
        → is_map t.qs_out_channels t.channel_map_out_qs ≡ true
        → is_map (max_channels (speed_channels t s c) d) (map_of (speed_channels t s c) d) ≡ true
    by_speed single playback v a1 a2 a3 a4 a5 a6 = a4
    by_speed single capture v a1 a2 a3 a4 a5 a6 = a1
    by_speed double playback v a1 a2 a3 a4 a5 a6 = a5
    by_speed double capture v a1 a2 a3 a4 a5 a6 = a2
    by_speed quad playback v a1 a2 a3 a4 a5 a6 = a6
    by_speed quad capture v a1 a2 a3 a4 a5 a6 = a3
    by_speed invalid d v a1 a2 a3 a4 a5 a6 = absurd (v refl)

is_map_parts :
    (n c : ℕ) (map : List ℕ)
    → is_map (suc n) (c ∷ map) ≡ true
    → (c < 64) × (absent c map ≡ true) × (is_map n map ≡ true)
unfolding is_map
is_map_parts n c map h =
    let (small, rest) = &&-split (ltb c 64) (absent c map && is_map n map) h in
    let (other, tail) = &&-split (absent c map) (is_map n map) rest in
    (ltb→lt c 64 small, other, tail)

-- Each entry in use is a DMA channel.
map_entry :
    (n : ℕ) (map : List ℕ) (i : ℕ)
    → is_map n map ≡ true
    → i < n
    → (c : ℕ) × (channel_map map i ≡ pos c) × (c < 64)
unfolding is_map channel_map
map_entry zero map i h l = absurd (omega arith)
map_entry (suc n) [] i h l = absurd (false≢true h)
map_entry (suc n) (c ∷ map) zero h l = (c, refl, (is_map_parts n c map h).0)
map_entry (suc n) (c ∷ map) (suc i) h l =
    map_entry n map i (is_map_parts n c map h).2 (omega (arith, l))

absent-entry : (map : List ℕ) (c i : ℕ) → absent c map ≡ true → channel_map map i ≢ pos c
unfolding absent channel_map is_negative
absent-entry [] c i h e = false≢true (sym (ap is_negative e))
absent-entry (d ∷ map) c zero h e =
    let other = (&&-split (not (c == d)) (absent c map) h).0 in
    let same : d ≡ c = ap pos_part e in absurd (ground (arith, same, other))
absent-entry (d ∷ map) c (suc i) h e =
    absent-entry map c i (&&-split (not (c == d)) (absent c map) h).1 e

-- No two entries are the same channel.
map_injective :
    (n : ℕ) (map : List ℕ) (i j c : ℕ)
    → is_map n map ≡ true
    → i < n
    → j < n
    → channel_map map i ≡ pos c
    → channel_map map j ≡ pos c
    → i ≡ j
unfolding is_map channel_map
map_injective zero map i j c h li lj ei ej = absurd (omega arith)
map_injective (suc n) [] i j c h li lj ei ej = absurd (false≢true h)
map_injective (suc n) (d ∷ map) zero zero c h li lj ei ej = refl
map_injective (suc n) (d ∷ map) zero (suc j) c h li lj ei ej =
    absurd (absent-entry map d j (is_map_parts n d map h).1 (ej ∙ sym ei))
map_injective (suc n) (d ∷ map) (suc i) zero c h li lj ei ej =
    absurd (absent-entry map d i (is_map_parts n d map h).1 (ei ∙ sym ej))
map_injective (suc n) (d ∷ map) (suc i) (suc j) c h li lj ei ej = ap suc (
    map_injective n map i j c (is_map_parts n d map h).2 (omega (arith, li)) (omega (arith, lj)) ei
      ej)

apart :
    (c c' o o' : ℕ)
    → c ≢ c'
    → o ≡ c * channel_buffer_bytes
    → o' ≡ c' * channel_buffer_bytes
    → (o + channel_buffer_bytes ≤ o') ⊎ (o' + channel_buffer_bytes ≤ o)
apart c c' o o' differ e e' = ground (arith, differ)

-- The buffers of two channels of a map.
buffers :
    (c : Channels) (d : Direction) (channel other : ℕ)
    → is_map (max_channels c d) (map_of c d) ≡ true
    → channel < max_channels c d
    → other < max_channels c d
    → channel ≢ other
    → (offset offset' : ℕ) × (channel_info c d channel ≡ some offset)
      × (channel_info c d other ≡ some offset')
      × (offset + channel_buffer_bytes ≤ dma_area_bytes)
      × ((offset + channel_buffer_bytes ≤ offset') ⊎ (offset' + channel_buffer_bytes ≤ offset))
unfolding channel_info buffer_offset
buffers c d channel other maps l l' differ =
    let n : ℕ = max_channels c d in
    let (dma, entry, small) = map_entry n (map_of c d) channel maps l in
    let (dma', entry', small') = map_entry n (map_of c d) other maps l' in
    let another : dma ≢ dma' = λ same. differ (
      map_injective n (map_of c d) channel other dma maps l l' entry
        (entry' ∙ ap pos (sym same))) in
    (
      dma * channel_buffer_bytes,
      dma' * channel_buffer_bytes,
      rw (lt→leb_false n channel l, entry) refl,
      rw (lt→leb_false n other l', entry') refl,
      omega (arith, small),
      apart dma dma' _ _ another refl refl,
    )

-- On each card, with or without extension boards, at a valid speed, two different channels below the
-- channel count have buffers in the DMA area that do not overlap.
pub channel_info-set_channel_map :
    (io : IoType) (aebi_d aebo_d : Bool) (s : SpeedMode) (c : Channels) (m : Mixer) (d : Direction)
    (channel other : ℕ)
    → s ≢ invalid
    → channel < max_channels (set_channel_map (init_tables io aebi_d aebo_d) s c m).0 d
    → other < max_channels (set_channel_map (init_tables io aebi_d aebo_d) s c m).0 d
    → channel ≢ other
    → (offset offset' : ℕ) × (channel_info
          (set_channel_map (init_tables io aebi_d aebo_d) s c m).0
          d
          channel
        ≡ some offset)
      × (channel_info (set_channel_map (init_tables io aebi_d aebo_d) s c m).0 d other
          ≡ some offset')
      × (offset + channel_buffer_bytes ≤ dma_area_bytes)
      × ((offset + channel_buffer_bytes ≤ offset') ⊎ (offset' + channel_buffer_bytes ≤ offset))
unfolding set_channel_map
channel_info-set_channel_map io aebi_d aebo_d s c m d channel other valid l l' differ =
    let t : Tables = init_tables io aebi_d aebo_d in
    let maps = speed_is_map t s c d (tables_are_maps io aebi_d aebo_d) valid in
    buffers (speed_channels t s c) d channel other maps l l' differ
