-- ===== src/Polling/Timeout.antt =====
-- Polling ends by itself, and a change of a source's status is notified.
use snd_hdspe.Common.{
  ℕ, zero, suc, ◌+◌, ◌*◌, ◌%◌, ◌^◌, ◌<◌, ◌≡◌, ◌≢◌, ◌⊎◌, inl, inr, arith, refl, Bool, true, false,
  ◌||◌, Bool-cases, ltb, ◌==◌, ==_iff, List, ◌∷◌,
}
use mathlib.Core.Bool.{false≢true}
use mathlib.Core.Path.{subst}
use snd_hdspe.Device.{IoType}
use snd_hdspe.Cards.Status.{
  SyncStatus, sync_no_lock, sync_lock, sync_sync, sync_not_available, Sources, Status,
}
use snd_hdspe.Polling.{
  Polling, Notification, autosync_status, same_sync, sync_differs, when, is_empty, changes,
  has_changed, since, stops, status_work, schedule,
}

-- The states after the works of one time of polling, the first at time `start`. Interrupts, which may
-- schedule a work, lie between them.
pub data Polled (hz start : ℕ) (io : IoType) (has : Bool) : Polling → Type 0 where
  first_work :
      (p : Polling) (n : Status) (tco_changed : Bool)
      → p.last_status_change_jiffies ≡ 0
      → Polled hz start io has (status_work hz start io has n tco_changed p).0
  next_work :
      (p : Polling) (jiffies : ℕ) (n : Status) (tco_changed : Bool)
      → Polled hz start io has p
      → p.status_polling ≢ 0
      → Polled hz start io has (status_work hz jiffies io has n tco_changed p).0
  interrupted :
      (p : Polling) (jiffies : ℕ)
      → Polled hz start io has p
      → Polled hz start io has (schedule hz jiffies p).0

IsTimed : ℕ → Polling → Type 0
IsTimed start p = (p.status_polling ≡ 0) ⊎ (p.last_status_change_jiffies ≡ start)

work-IsTimed :
    (hz start jiffies : ℕ) (io : IoType) (has : Bool) (n : Status) (tco : Bool) (p : Polling)
    → since jiffies p ≡ start
    → IsTimed start (status_work hz jiffies io has n tco p).0
unfolding IsTimed status_work
work-IsTimed hz start jiffies io has n tco p e =
    elim (Bool-cases (stops hz jiffies io has n tco p)) [
      | inl off ↦ inl (rw off refl)
      | inr on ↦ inr (rw on e)
    ]

since-timed :
    (start jiffies : ℕ) (p : Polling)
    → 0 < start
    → p.last_status_change_jiffies ≡ start
    → since jiffies p ≡ start
unfolding since
since-timed start jiffies p l timed =
    let e : (p.last_status_change_jiffies == 0) ≡ false = ground (arith, l, timed) in rw e timed

Polled-IsTimed :
    (hz start : ℕ) (io : IoType) (has : Bool) (p : Polling)
    → 0 < start
    → Polled hz start io has p
    → IsTimed start p
unfolding IsTimed since schedule
Polled-IsTimed hz start io has p l (first_work q n tco e) =
    work-IsTimed hz start start io has n tco q (rw e refl)
Polled-IsTimed hz start io has p l (next_work q j n tco before on) =
    elim (Polled-IsTimed hz start io has q l before) [
      | inl off ↦ absurd (on off)
      | inr timed ↦ work-IsTimed hz start j io has n tco q (since-timed start j q l timed)
    ]
Polled-IsTimed hz start io has p l (interrupted q j before) =
    Polled-IsTimed hz start io has q l before

stops-over :
    (hz jiffies : ℕ) (io : IoType) (has : Bool) (n : Status) (tco : Bool) (p : Polling)
    → ltb ((since jiffies p + 2 * hz) % 2 ^ 64) jiffies ≡ true
    → stops hz jiffies io has n tco p ≡ true
unfolding stops
stops-over hz jiffies io has n tco p h = elim (Bool-cases (has_changed io has n tco p)) [
  | inl changed ↦ rw changed refl
  | inr same ↦ rw (same, h) refl
]

-- Whatever the cards report and however the interrupts lie between the works, the first work that
-- comes more than two seconds after the first one of a time of polling turns polling off, if the time
-- is not 0 and does not wrap.
pub status_work-status_polling :
    (hz start jiffies : ℕ) (io : IoType) (has : Bool) (n : Status) (tco_changed : Bool)
    (p : Polling)
    → 0 < start
    → start + 2 * hz < jiffies
    → jiffies < 2 ^ 64
    → Polled hz start io has p
    → (status_work hz jiffies io has n tco_changed p).0.status_polling ≡ 0
unfolding status_work IsTimed
status_work-status_polling hz start jiffies io has n tco p l later fits polled =
    elim (Polled-IsTimed hz start io has p l polled) [
      | inl off ↦ elim (Bool-cases (stops hz jiffies io has n tco p)) [
        | inl ends ↦ rw ends refl
        | inr goes ↦ rw goes off
      ]
      | inr timed ↦
          let e = since-timed start jiffies p l timed in
          let over : ltb ((start + 2 * hz) % 2 ^ 64) jiffies ≡ true = ground (arith, later, fits) in
          rw (stops-over hz jiffies io has n tco p (rw e over)) refl
    ]

same_sync-eq : (a b : SyncStatus) → same_sync a b ≡ true → a ≡ b
unfolding same_sync
same_sync-eq sync_no_lock sync_no_lock h = refl
same_sync-eq sync_no_lock sync_lock h = absurd (false≢true h)
same_sync-eq sync_no_lock sync_sync h = absurd (false≢true h)
same_sync-eq sync_no_lock sync_not_available h = absurd (false≢true h)
same_sync-eq sync_lock sync_no_lock h = absurd (false≢true h)
same_sync-eq sync_lock sync_lock h = refl
same_sync-eq sync_lock sync_sync h = absurd (false≢true h)
same_sync-eq sync_lock sync_not_available h = absurd (false≢true h)
same_sync-eq sync_sync sync_no_lock h = absurd (false≢true h)
same_sync-eq sync_sync sync_lock h = absurd (false≢true h)
same_sync-eq sync_sync sync_sync h = refl
same_sync-eq sync_sync sync_not_available h = absurd (false≢true h)
same_sync-eq sync_not_available sync_no_lock h = absurd (false≢true h)
same_sync-eq sync_not_available sync_lock h = absurd (false≢true h)
same_sync-eq sync_not_available sync_sync h = absurd (false≢true h)
same_sync-eq sync_not_available sync_not_available h = refl

same_sync_differs : (a b : SyncStatus) → a ≢ b → same_sync a b ≡ false
same_sync_differs a b h = elim (Bool-cases (same_sync a b)) [
  | inl e ↦ absurd (h (same_sync-eq a b e))
  | inr e ↦ e
]

or_true : (a : Bool) → (a || true) ≡ true
or_true false = refl
or_true true = refl

sync_differs_lem :
    (m : ℕ) (n o : Sources) (i : ℕ) → i < m → n.sync_of i ≢ o.sync_of i → sync_differs m n o ≡ true
unfolding sync_differs
sync_differs_lem zero n o i l h = absurd (omega (arith, l))
sync_differs_lem (suc m) n o i l h = elim (Bool-cases (i == m)) [
  | inl here ↦
      let at_m = subst (λ (k : ℕ). n.sync_of k ≢ o.sync_of k) ((==_iff i m).0 here) h in
      let e = same_sync_differs _ _ at_m in rw e (or_true (sync_differs m n o))
  | inr elsewhere ↦ rw (sync_differs_lem m n o i (ground (arith, l, elsewhere)) h) refl
]

-- If the sync status of a source has changed since the last poll, ALSA is notified of it first, the
-- status is kept as the last one, and polling is turned off until the user turns it on again.
pub status_work-autosync_status :
    (hz jiffies : ℕ) (io : IoType) (has : Bool) (n : Status) (tco_changed : Bool) (p : Polling)
    (i : ℕ)
    → i < 16
    → n.sources.sync_of i ≢ p.last_status.sources.sync_of i
    → let (p', notified) = status_work hz jiffies io has n tco_changed p in
      ((rest : List Notification) × (notified ≡ autosync_status ∷ rest))
      × (p'.status_polling ≡ 0)
      × (p'.last_status_change_jiffies ≡ 0)
      × (p'.last_status ≡ n)
unfolding status_work stops has_changed changes when is_empty
status_work-autosync_status hz jiffies io has n tco p i l h =
    let e = sync_differs_lem 16 n.sources p.last_status.sources i l h in
    rw e ((_, refl), refl, refl, refl)
