-- ===== src/Polling.antt =====
-- The polling of the status: `hdspe_status_work` of hdspe_control.c, `hdspe_madi_check_status_change`
-- of hdspe_madi.c, and the part of the interrupt handler of hdspe_core.c that schedules the work.
-- HZ, the time in jiffies, the status that the card's method reads and whether the TCO's status has
-- changed are arguments. `unsigned long` has 64 bits.
pub mod Timeout
mod Tests
use snd_hdspe.Common.{
  ℕ, zero, suc, ◌+◌, ◌-◌, ◌*◌, ◌/◌, ◌%◌, ◌^◌, Bool, true, false, not, ◌&&◌, ◌||◌, ltb, leb, ◌==◌,
  if◌then◌else◌, List, [], ◌∷◌, ◌++◌,
}
use snd_hdspe.Device.{IoType, madi, madiface}
use snd_hdspe.Cards.Status.{
  SyncStatus, sync_no_lock, sync_lock, sync_sync, sync_not_available, Special, madi_special,
  Sources, Status,
}

-- The fields of `struct hdspe` that the polling uses. `status_polling` is the number of polls in a
-- second, 0 where polling is off.
pub record Polling : Type 0 where
  pub status_polling : ℕ
  pub last_status_jiffies : ℕ
  pub last_status_change_jiffies : ℕ
  pub last_status : Status

-- The controls that ALSA is notified of.
pub data Notification : Type 0 where
  autosync_status autosync_freq autosync_ref raw_sample_rate external_freq : Notification
  madi_input_source madi_rx_64ch status_polling : Notification

same_sync : SyncStatus → SyncStatus → Bool
same_sync sync_no_lock sync_no_lock = true
same_sync sync_lock sync_lock = true
same_sync sync_sync sync_sync = true
same_sync sync_not_available sync_not_available = true
same_sync _ _ = false

same_bool : Bool → Bool → Bool
same_bool true b = b
same_bool false b = not b

-- The loops over the first n sources, which break at a difference.
sync_differs : ℕ → Sources → Sources → Bool
sync_differs zero n o = false
sync_differs (suc i) n o = sync_differs i n o || not (same_sync (n.sync_of i) (o.sync_of i))

freq_differs : ℕ → Sources → Sources → Bool
freq_differs zero n o = false
freq_differs (suc i) n o = freq_differs i n o || not (n.freq_of i == o.freq_of i)

rate_differs : Status → Status → Bool
rate_differs n o =
    let new = n.shared.sample_rate_denominator in
    let old = o.shared.sample_rate_denominator in
    not (n.shared.sample_rate_numerator == o.shared.sample_rate_numerator)
    || ltb (new / 1000000) (new - old + (old - new))

when : Bool → Notification → List Notification
when true e = e ∷ []
when false e = []

-- The difference of the two statuses' input sources and of their received channel modes.
source_differs : Special → Special → Bool
source_differs (madi_special _ _ _ _ n _) (madi_special _ _ _ _ o _) = not (same_bool n o)
source_differs _ _ = false

rx_differs : Special → Special → Bool
rx_differs (madi_special _ _ _ _ _ n) (madi_special _ _ _ _ _ o) = not (same_bool n o)
rx_differs _ _ = false

-- The card has the control of the external frequency or not.
madi_check_status_change : Bool → Status → Status → List Notification
madi_check_status_change has_external_freq o n =
    when (not (n.external_freq == o.external_freq) && has_external_freq) external_freq
    ++ (when (source_differs n.special o.special) madi_input_source
        ++ when (rx_differs n.special o.special) madi_rx_64ch)

-- The method `check_status_change`, which the MADI cards have.
check_status_change : IoType → Bool → Status → Status → List Notification
check_status_change madi has o n = madi_check_status_change has o n
check_status_change madiface has o n = madi_check_status_change has o n
check_status_change _ has o n = []

is_empty : List Notification → Bool
is_empty [] = true
is_empty (e ∷ es) = false

-- What a status is notified of against the last one.
pub changes : IoType → Bool → Status → Status → List Notification
changes io has o n =
    when (sync_differs 16 n.sources o.sources) autosync_status
    ++ (when (freq_differs 16 n.sources o.sources) autosync_freq
        ++ (when (not (n.autosync_ref == o.autosync_ref)) autosync_ref
            ++ (when (rate_differs n o) raw_sample_rate ++ check_status_change io has o n)))

pub has_changed : IoType → Bool → Status → Bool → Polling → Bool
has_changed io has n tco_changed p = not (is_empty (changes io has p.last_status n)) || tco_changed

-- The start of the time without a change.
since : ℕ → Polling → ℕ
since jiffies p =
    if p.last_status_change_jiffies == 0 then jiffies else p.last_status_change_jiffies

-- Polling is turned off: after a change, or 2 seconds without one.
pub stops : ℕ → ℕ → IoType → Bool → Status → Bool → Polling → Bool
stops hz jiffies io has n tco_changed p =
    has_changed io has n tco_changed p || ltb ((since jiffies p + 2 * hz) % 2 ^ 64) jiffies

pub status_work : ℕ → ℕ → IoType → Bool → Status → Bool → Polling → Polling × List Notification
status_work hz jiffies io has n tco_changed p =
    let off = stops hz jiffies io has n tco_changed p in
    (
      record {
        last_status = n;
        last_status_jiffies = p.last_status_jiffies;
        last_status_change_jiffies = if off then 0 else since jiffies p;
        status_polling = if off then 0 else p.status_polling;
      },
      changes io has p.last_status n ++ when off status_polling,
    )

-- Whether the interrupt schedules the work.
pub schedule : ℕ → ℕ → Polling → Polling × Bool
schedule hz jiffies p =
    let due =
      ltb 0 p.status_polling
      && leb ((p.last_status_jiffies + hz / p.status_polling) % 2 ^ 64) jiffies in
    (record p { last_status_jiffies = if due then jiffies else p.last_status_jiffies }, due)
