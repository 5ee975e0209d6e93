-- ===== src/Cards/Status/Read/Available.antt =====
-- Which sources the status says are there: those of the AutoSync options.
use snd_hdspe.Common.{
  ℕ, ◌<◌, ◌≡◌, refl, ◌∙◌, Bool, true, false, not, ◌&&◌, ◌||◌, ◌==◌, leb, if◌then◌else◌,
}
use snd_hdspe.Common.Finite.{all_below, all_below_sound}
use snd_hdspe.Device.{IoType, madi, madiface, aio, aes, raydat, aio_pro, is_raydat_or_aio}
use snd_hdspe.Cards.References.{word_source, tco_source, sync_in_source}
use snd_hdspe.Cards.References.Options.{is_option, inputs_of, same, same_sound, is_option-inputs_of}
use snd_hdspe.Cards.Status.{Sources, Running}
use snd_hdspe.Cards.Status.Registers.{status0_madi, status0_aes, status2_raio}
use snd_hdspe.Cards.Status.Read.{
  madi_sources, madi_read_status, aes_sources, aes_read_status, nr_inputs, raio_sources,
  raio_read_status, Registers, read_method, read_status,
}
use snd_hdspe.Cards.Status.Read.Loops.{
  available, in_loop, available-set_sync_source, available-clear_sources, available-aes_inputs,
  available-raio_inputs, available-clear_after,
}

-- What the card's TCO detection says.
pub tco_detected : IoType → Registers → Bool
tco_detected madi g = (status0_madi g.status0).tco_detect
tco_detected madiface g = (status0_madi g.status0).tco_detect
tco_detected aes g = (status0_aes g.status0).tco_detect
tco_detected _ g = (status2_raio g.status2).tco_detect

-- The AutoSync options of the card, the TCO only where it is detected, and the word clock of a RayDAT
-- or AIO only where not.
pub is_there : IoType → Bool → ℕ → Bool
is_there io detected i =
    is_option io i
    && (if i == tco_source
        then detected
        else if (i == word_source) && is_raydat_or_aio io
        then not detected
        else true)

available-madi_sources :
    (control status0 status2 : ℕ) (before : Sources) (j : ℕ)
    → j < 16
    → available ((madi_sources control status0 status2 before).sync_of j) ≡ (
        if j == sync_in_source
        then true
        else if j == tco_source
        then (status0_madi status0).tco_detect
        else if j == 1
        then true
        else if j == word_source
        then true
        else false)
unfolding madi_sources
available-madi_sources control status0 status2 before j l =
    rw
      (
        available-set_sync_source,
        available-set_sync_source,
        available-set_sync_source,
        available-set_sync_source,
        available-clear_sources 16 before j l,
      )
      refl

available-aes_sources :
    (status0 status2 fbits : ℕ) (before : Sources) (j : ℕ)
    → available ((aes_sources status0 status2 fbits before).sync_of j)
      ≡ in_loop 5 11 false
          (if j == sync_in_source
            then true
            else if j == tco_source
            then (status0_aes status0).tco_detect
            else in_loop 8 1 true
                (if j == word_source then true else available (before.sync_of j))
                j)
          j
unfolding aes_sources
available-aes_sources status0 status2 fbits before j =
    rw
      (
        available-clear_after, available-set_sync_source, available-set_sync_source,
        available-aes_inputs, available-set_sync_source,
      )
      refl

available-raio_sources :
    (io : IoType) (status1 status2 fbits : ℕ) (before : Sources) (j : ℕ)
    → j < 16
    → available ((raio_sources io status1 status2 fbits before).sync_of j) ≡ (
        if j == sync_in_source
        then true
        else if j == tco_source
        then (status2_raio status2).tco_detect
        else in_loop
            (nr_inputs io)
            1
            true
            (if j == word_source then not (status2_raio status2).tco_detect else false)
            j)
unfolding raio_sources
available-raio_sources io status1 status2 fbits before j l =
    rw
      (
        available-set_sync_source,
        available-set_sync_source,
        available-raio_inputs,
        available-set_sync_source,
        available-clear_sources 16 before j l,
      )
      refl

-- The sources that each card's method makes available.
reported : IoType → Bool → Bool → ℕ → Bool
reported madi d b j =
    if j == sync_in_source
    then true
    else if j == tco_source
    then d
    else if j == 1
    then true
    else if j == word_source
    then true
    else false
reported madiface d b j =
    if j == sync_in_source
    then true
    else if j == tco_source
    then d
    else if j == 1
    then true
    else if j == word_source
    then true
    else false
reported aes d b j =
    in_loop 5 11 false
      (if j == sync_in_source
        then true
        else if j == tco_source
        then d
        else in_loop 8 1 true (if j == word_source then true else b) j)
      j
reported io d b j =
    if j == sync_in_source
    then true
    else if j == tco_source
    then d
    else in_loop (nr_inputs io) 1 true (if j == word_source then not d else false) j

check_reported :
    (io : IoType) (d b : Bool)
    → all_below 16 (λ j. same (reported io d b j) (
        (leb j (inputs_of io) || (j == tco_source) || (j == sync_in_source))
        && (if j == tco_source
            then d
            else if (j == word_source) && is_raydat_or_aio io
            then not d
            else true)))
      ≡ true
unfolding all_below same reported in_loop nr_inputs inputs_of is_raydat_or_aio
check_reported madi true b = refl
check_reported madi false b = refl
check_reported madiface true b = refl
check_reported madiface false b = refl
check_reported aes true b = refl
check_reported aes false b = refl
check_reported raydat true b = refl
check_reported raydat false b = refl
check_reported aio true b = refl
check_reported aio false b = refl
check_reported aio_pro true b = refl
check_reported aio_pro false b = refl

reported-is_there :
    (io : IoType) (d b : Bool) (j : ℕ) → j < 16 → reported io d b j ≡ is_there io d j
unfolding is_there
reported-is_there io d b j l =
    rw (is_option-inputs_of io j l)
      (same_sound _ _ (all_below_sound 16 _ j (check_reported io d b) l))

read_method-reported :
    (io : IoType) (r : Running) (g : Registers) (before : Sources) (j : ℕ)
    → r.device.io_type ≡ io
    → j < 16
    → available ((read_method io r g before).sources.sync_of j)
      ≡ reported io (tco_detected io g) (available (before.sync_of j)) j
unfolding read_method madi_read_status aes_read_status raio_read_status reported tco_detected
read_method-reported madi r g before j e l =
    available-madi_sources g.control g.status0 g.status2 before j l
read_method-reported madiface r g before j e l =
    available-madi_sources g.control g.status0 g.status2 before j l
read_method-reported aes r g before j e l =
    available-aes_sources g.status0 g.status2 g.fbits before j
read_method-reported raydat r g before j e l =
    available-raio_sources _ g.status1 g.status2 g.fbits before j l ∙ rw e refl
read_method-reported aio r g before j e l =
    available-raio_sources _ g.status1 g.status2 g.fbits before j l ∙ rw e refl
read_method-reported aio_pro r g before j e l =
    available-raio_sources _ g.status1 g.status2 g.fbits before j l ∙ rw e refl

-- On each card, with any registers and any status before, a source is reported as available exactly
-- if it is one of the card's AutoSync options; but the TCO only where it is detected, and the word
-- clock of a RayDAT or AIO only where it is not.
pub available-read_status :
    (r : Running) (g : Registers) (before : Sources) (i : ℕ)
    → i < 16
    → available ((read_status r g before).sources.sync_of i)
      ≡ is_there r.device.io_type (tco_detected r.device.io_type g) i
unfolding read_status
available-read_status r g before i l =
    read_method-reported r.device.io_type r g before i refl l
    ∙ reported-is_there r.device.io_type (tco_detected r.device.io_type g)
        (available (before.sync_of i)) i l
