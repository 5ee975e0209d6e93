-- ===== src/Cards/References/Preferred.antt =====
-- The control of the preferred reference: what it shows after a value is put.
use snd_hdspe.Common.{
  ℕ, ◌+◌, ◌-◌, ◌<◌, ◌≡◌, arith, refl, Bool, true, false, ◌&&◌, ◌||◌, ltb, ◌==◌, ==_iff,
  if◌then◌else◌,
}
use snd_hdspe.Common.Finite.{all_below, all_below_sound, &&-split}
use snd_hdspe.Device.{IoType, madi, madiface, aio, aes, raydat, aio_pro, is_raydat_or_aio}
use snd_hdspe.Cards.References.{
  word_source, tco_source, raydat_autosync_ref, aio_autosync_ref, aes_autosync_ref,
  madi_autosync_ref, raio_autosync_ref, without_tco, get_preferred_sync_ref, madi_syncref_value,
  raio_syncref_value, aes_syncref_value, set_preferred_sync_ref, autosync_opts, nr_autosync_opts,
  set_at, add_source, add_options, init_autosync_tables, get_pref_sync_ref_idx,
  put_pref_sync_ref_idx,
}

-- The word clock module of a RayDAT or AIO is the TCO module, where there is one: of these two
-- sources the control shows the one that is there.
pub shown : IoType → Bool → ℕ → ℕ
shown io tco idx =
    let t = init_autosync_tables io in
    let ref = t.autosync_idx2ref idx in
    if is_raydat_or_aio io && ((ref == word_source) || (ref == tco_source))
    then t.autosync_ref2idx (if tco then tco_source else word_source)
    else idx

agrees : IoType → Bool → ℕ → Bool
agrees io tco idx =
    let t = init_autosync_tables io in
    (get_pref_sync_ref_idx io tco (put_pref_sync_ref_idx io idx) == shown io tco idx)
    && ((t.autosync_ref2idx (t.autosync_idx2ref idx) == idx) && ltb (t.autosync_idx2ref idx) 16)

agree :
    (io : IoType) (tco : Bool)
    → all_below ((init_autosync_tables io).autosync_count - 1) (agrees io tco) ≡ true
unfolding agrees shown all_below get_pref_sync_ref_idx put_pref_sync_ref_idx init_autosync_tables
    add_source add_options set_at autosync_opts nr_autosync_opts get_preferred_sync_ref
    set_preferred_sync_ref raio_syncref_value aes_syncref_value madi_syncref_value without_tco
    raio_autosync_ref raydat_autosync_ref aio_autosync_ref aes_autosync_ref madi_autosync_ref
    is_raydat_or_aio
agree madi true = refl
agree madi false = refl
agree madiface true = refl
agree madiface false = refl
agree aes true = refl
agree aes false = refl
agree raydat true = refl
agree raydat false = refl
agree aio true = refl
agree aio false = refl
agree aio_pro true = refl
agree aio_pro false = refl

-- On each card, with or without a TCO module, a value of the control that is put is shown again, but
-- for the word clock and the TCO of a RayDAT or AIO, of which the one that is there is shown; the
-- tables between values and sources are inverse to each other.
pub get_pref_sync_ref_idx-put_pref_sync_ref_idx :
    (io : IoType) (tco : Bool) (idx : ℕ)
    → idx + 1 < (init_autosync_tables io).autosync_count
    → (get_pref_sync_ref_idx io tco (put_pref_sync_ref_idx io idx) ≡ shown io tco idx)
      × ((init_autosync_tables io).autosync_ref2idx ((init_autosync_tables io).autosync_idx2ref idx)
          ≡ idx)
unfolding agrees
get_pref_sync_ref_idx-put_pref_sync_ref_idx io tco idx l =
    let all = all_below_sound _ (agrees io tco) idx (agree io tco) (omega (arith, l)) in
    let (same, rest) = &&-split _ _ all in
    let (inverse, small) = &&-split _ _ rest in ((==_iff _ _).0 same, (==_iff _ _).0 inverse)
