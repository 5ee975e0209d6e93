-- ===== src/Cards/References/Tests.antt =====
-- Runs of the tables of the AutoSync references.
use snd_hdspe.Common.{◌≡◌, refl, true, arith}
use snd_hdspe.Device.{raydat, aio}
use snd_hdspe.Cards.References.{
  raydat_autosync_ref, aio_autosync_ref, raio_autosync_ref, autosync_opts, nr_autosync_opts, set_at,
  add_source, add_options, init_autosync_tables, get_pref_sync_ref_idx, put_pref_sync_ref_idx,
}
use snd_hdspe.Cards.References.Preferred.{shown, get_pref_sync_ref_idx-put_pref_sync_ref_idx}

seven : (init_autosync_tables aio).autosync_count ≡ 7
unfolding init_autosync_tables add_source add_options set_at autosync_opts nr_autosync_opts
    raio_autosync_ref aio_autosync_ref
seven = refl

ten : (init_autosync_tables raydat).autosync_count ≡ 10
unfolding init_autosync_tables add_source add_options set_at autosync_opts nr_autosync_opts
    raio_autosync_ref raydat_autosync_ref
ten = refl

get_pref_sync_ref_idx-put_pref_sync_ref_idx_example :
    (get_pref_sync_ref_idx raydat true (put_pref_sync_ref_idx raydat 3) ≡ shown raydat true 3)
    × ((init_autosync_tables raydat).autosync_ref2idx
          ((init_autosync_tables raydat).autosync_idx2ref 3)
        ≡ 3)
get_pref_sync_ref_idx-put_pref_sync_ref_idx_example =
    get_pref_sync_ref_idx-put_pref_sync_ref_idx raydat true 3 (omega (arith, ten))
