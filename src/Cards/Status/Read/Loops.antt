-- ===== src/Cards/Status/Read/Loops.antt =====
-- Which sources the loops of the status methods leave available.
use snd_hdspe.Common.{
  ℕ, zero, suc, ◌+◌, ◌<◌, ◌≡◌, inl, inr, arith, refl, ap, ◌∙◌, Bool, true, false, Bool-cases, ◌==◌,
  if◌then◌else◌,
}
use snd_hdspe.Cards.Status.{
  SyncStatus, sync_not_available, make_sync_status, Sources, set_sync_source,
}
use snd_hdspe.Cards.Status.Read.{clear_sources, aes_inputs, clear_after, raio_inputs}

pub available : SyncStatus → Bool
available sync_not_available = false
available _ = true

available-make_sync_status : (l y p : Bool) → available (make_sync_status l y p) ≡ p
unfolding available make_sync_status
available-make_sync_status l y false = refl
available-make_sync_status false y true = refl
available-make_sync_status true false true = refl
available-make_sync_status true true true = refl

pub available-set_sync_source :
    (i freq : ℕ) (l y p : Bool) (s : Sources) (j : ℕ)
    → available ((set_sync_source i freq l y p s).sync_of j)
      ≡ (if j == i then p else available (s.sync_of j))
unfolding set_sync_source
available-set_sync_source i freq l y p s j = elim (Bool-cases (j == i)) [
  | inl here ↦ rw here (available-make_sync_status l y p)
  | inr elsewhere ↦ rw elsewhere refl
]

-- Each cleared source is not there.
pub available-clear_sources :
    (n : ℕ) (s : Sources) (j : ℕ) → j < n → available ((clear_sources n s).sync_of j) ≡ false
unfolding clear_sources
available-clear_sources zero s j l = absurd (omega arith)
available-clear_sources (suc n) s j l =
    available-set_sync_source n 0 false false false _ j ∙ elim (Bool-cases (j == n)) [
      | inl here ↦ rw here refl
      | inr elsewhere ↦ rw elsewhere (available-clear_sources n s j (ground arith))
    ]

-- The sources first, first + 1, ... that a loop of n passes sets.
unfoldable pub in_loop : ℕ → ℕ → Bool → Bool → ℕ → Bool
in_loop zero first p before j = before
in_loop (suc n) first p before j = if j == first + n then p else in_loop n first p before j

pub available-aes_inputs :
    (n fbits status2 : ℕ) (s : Sources) (j : ℕ)
    → available ((aes_inputs n fbits status2 s).sync_of j)
      ≡ in_loop n 1 true (available (s.sync_of j)) j
unfolding aes_inputs in_loop
available-aes_inputs zero fbits status2 s j = refl
available-aes_inputs (suc n) fbits status2 s j =
    available-set_sync_source _ _ _ _ true _ j
    ∙ ap (λ (b : Bool). if j == 1 + n then true else b) (available-aes_inputs n fbits status2 s j)

pub available-raio_inputs :
    (n fbits status1 : ℕ) (s : Sources) (j : ℕ)
    → available ((raio_inputs n fbits status1 s).sync_of j)
      ≡ in_loop n 1 true (available (s.sync_of j)) j
unfolding raio_inputs in_loop
available-raio_inputs zero fbits status1 s j = refl
available-raio_inputs (suc n) fbits status1 s j =
    available-set_sync_source _ _ _ _ true _ j
    ∙ ap (λ (b : Bool). if j == 1 + n then true else b) (available-raio_inputs n fbits status1 s j)

pub available-clear_after :
    (n : ℕ) (s : Sources) (j : ℕ)
    → available ((clear_after n s).sync_of j) ≡ in_loop n 11 false (available (s.sync_of j)) j
unfolding clear_after in_loop
available-clear_after zero s j = refl
available-clear_after (suc n) s j =
    available-set_sync_source _ _ _ _ false _ j
    ∙ ap (λ (b : Bool). if j == 11 + n then false else b) (available-clear_after n s j)
