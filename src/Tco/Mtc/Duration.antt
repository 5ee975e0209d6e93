-- ===== src/Tco/Mtc/Duration.antt =====
-- The cache of frame durations of `hdspe_tco_mtc` over a run of messages.
use snd_hdspe.Common.{
  ℕ, zero, suc, ◌+◌, ◌-◌, ◌%◌, ◌^◌, ◌≤◌, ◌<◌, ◌≡◌, arith, refl, true, false, ltb, ◌==◌, ==_iff,
  Bool-cases, inl, inr, false, u32, List, ap, ◌∙◌,
}
use mathlib.Core.Path.{subst}
use native.Mathlib.Numerals.{unary_clauses}
use snd_hdspe.Tco.Mtc.{LtcIn, u64, sub_u64, is_new_tc, set_at, observe, new_tc, mtc, init_ltc_in}

-- A message and the time at which it arrives.
pub record Message : Type 0 where
  pub time : ℕ
  pub bytes : List ℕ

-- The state after the messages 0 to n.
pub after : (ℕ → Message) → ℕ → LtcIn
after messages zero = mtc init_ltc_in (messages 0).time (messages 0).bytes
after messages (suc n) = mtc (after messages n) (messages (suc n)).time (messages (suc n)).bytes

-- Each message up to the last announces a new time code, the clock runs and does not wrap, and each
-- frame takes less than 2 ^ 32 nanoseconds.
pub record IsRunning (messages : ℕ → Message) (last : ℕ) : Type 0 where
  pub is_new : (n : ℕ) → n ≤ last → is_new_tc (messages n).bytes ≡ true
  pub starts : 0 < (messages 0).time
  pub runs : (n : ℕ) → n < last → (messages n).time ≤ (messages (suc n)).time
  pub short : (n : ℕ) → n < last → (messages (suc n)).time < (messages n).time + 2 ^ 32
  pub small : (n : ℕ) → n ≤ last → (messages n).time < 2 ^ 64

-- Entry i of the cache holds the duration before message i - 60; a message before the first one
-- counts as the first.
record Cache (messages : ℕ → Message) (m : ℕ) (c : LtcIn) : Type 0 where
  count : c.ltc_count ≡ suc m
  prev : c.prev_ltc_time ≡ (messages m).time
  sum : c.ltc_duration_sum ≡ (messages m).time - (messages (m - 60)).time
  entry :
      (i : ℕ)
      → m < i
      → i ≤ m + 60
      → c.ltc_duration (i % 60) ≡ (messages (i - 60)).time - (messages (i - 61)).time

first :
    (messages : ℕ → Message) (last : ℕ)
    → IsRunning messages last
    → Cache messages 0 (after messages 0)
unfolding after mtc new_tc init_ltc_in
first messages last h = rw (h.is_new 0 (omega arith)) (record {
  count = refl;
  prev = refl;
  sum = omega arith;
  entry = λ i _ le.
      let one : i - 60 ≡ 0 = omega arith in
      let two : i - 61 ≡ 0 = omega arith in rw (one, two) (omega arith);
})

positive_trans : (a b : ℕ) → 0 < a → a ≤ b → 0 < b
positive_trans a b h k = omega arith

below : (m last : ℕ) → suc m ≤ last → m < last
below m last h = omega arith

times_positive :
    (messages : ℕ → Message) (last : ℕ)
    → IsRunning messages last
    → (m : ℕ) → m ≤ last
    → 0 < (messages m).time
times_positive messages last h zero le = h.starts
times_positive messages last h (suc m) le =
    positive_trans _ _ (times_positive messages last h m (omega arith)) (h.runs m (below m last le))

ordered_refl : (a : ℕ) → a ≤ a
ordered_refl a = omega arith

ordered_trans : (a b c : ℕ) → a ≤ b → b ≤ c → a ≤ c
ordered_trans a b c h k = omega arith

times_ordered :
    (messages : ℕ → Message) (last : ℕ)
    → IsRunning messages last
    → (a k : ℕ) → a + k ≤ last
    → (messages a).time ≤ (messages (a + k)).time
times_ordered messages last h a zero le = simp unary_clauses (ordered_refl (messages a).time)
times_ordered messages last h a (suc k) le = simp unary_clauses (
    ordered_trans _ _ _ (times_ordered messages last h a k (omega (arith, le)))
      (h.runs (a + k) (omega (arith, le))))

ordered :
    (messages : ℕ → Message) (last : ℕ)
    → IsRunning messages last
    → (a b : ℕ) → a ≤ b
    → b ≤ last
    → (messages a).time ≤ (messages b).time
ordered messages last h a b le l =
    let e : a + (b - a) ≡ b = omega arith in
    subst (λ (i : ℕ). (messages a).time ≤ (messages i).time) e
      (times_ordered messages last h a (b - a) (omega arith))

-- The sum with the oldest duration replaced by the newest.
replaced :
    (start start' end end' : ℕ)
    → start ≤ start'
    → start' ≤ end
    → end ≤ end'
    → end' < end + 2 ^ 32
    → end' < 2 ^ 64
    → u64 (sub_u64 (end - start) (start' - start) + (end' - end)) ≡ end' - start'
replaced start start' end end' h1 h2 h3 h4 h5 = omega arith

newest : (a b : ℕ) → a ≤ b → b < a + 2 ^ 32 → b < 2 ^ 64 → u32 (sub_u64 b a) ≡ b - a
newest a b h1 h2 h3 = omega arith

same_slot : (m i : ℕ) → (i == m + 61) ≡ true → (i % 60 == suc m % 60) ≡ true
same_slot m i e = ground arith

other_slot :
    (m i : ℕ)
    → (i == m + 61) ≡ false
    → suc m < i
    → i ≤ suc m + 60
    → ((i % 60 == suc m % 60) ≡ false) × (i ≤ m + 60)
other_slot m i e l le = ground arith

newest_times :
    (messages : ℕ → Message) (m i : ℕ)
    → (i == m + 61) ≡ true
    → (messages (suc m)).time - (messages m).time
      ≡ (messages (i - 60)).time - (messages (i - 61)).time
newest_times messages m i e =
    let same : i ≡ m + 61 = (==_iff _ _).0 e in
    let last : i - 60 ≡ suc m = omega arith in
    let previous : i - 61 ≡ m = omega arith in rw (last, previous) refl

next :
    (messages : ℕ → Message) (last m : ℕ) (c : LtcIn)
    → IsRunning messages last
    → m < last
    → suc (suc m) < 2 ^ 32
    → Cache messages m c
    → Cache messages (suc m) (mtc c (messages (suc m)).time (messages (suc m)).bytes)
unfolding mtc new_tc observe set_at
next messages last m c h l small cache =
    let time : ℕ → ℕ = λ i. (messages i).time in
    let positive : ltb 0 c.prev_ltc_time ≡ true =
      rw cache.prev (ground (arith, times_positive messages last h m (omega (arith, l)))) in
    let slot : c.ltc_count % 60 ≡ suc m % 60 = ap (λ (n : ℕ). n % 60) cache.count in
    let before : suc m - 61 ≡ m - 60 = omega arith in
    let old : c.ltc_duration (suc m % 60) ≡ time (suc m - 60) - time (m - 60) =
      cache.entry (suc m) (omega arith) (omega arith)
      ∙ ap (λ (i : ℕ). time (suc m - 60) - time i) before in
    let o1 = ordered messages last h (m - 60) (suc m - 60) (omega arith) (omega (arith, l)) in
    let o2 = ordered messages last h (suc m - 60) m (omega arith) (omega (arith, l)) in
    let runs = h.runs m l in
    let short = h.short m l in
    let fits = h.small (suc m) l in
    let duration = newest (time m) (time (suc m)) runs short fits in
    rw (h.is_new (suc m) l, positive)
      (record {
        count = rw cache.count (omega (arith, small));
        prev = refl;
        sum =
            rw (slot, old, cache.sum, cache.prev, duration)
              (replaced _ _ _ _ o1 o2 runs short fits);
        entry = λ i l le.
            rw (slot, cache.prev, duration)
              (elim (Bool-cases (i == m + 61)) [
                | inl e ↦ rw (same_slot m i e) (newest_times messages m i e)
                | inr n ↦
                    rw (other_slot m i n l le).0
                      (cache.entry i (omega (arith, l)) (other_slot m i n l le).1)
              ]);
      })

cached :
    (messages : ℕ → Message) (last : ℕ)
    → IsRunning messages last
    → suc last < 2 ^ 32
    → (m : ℕ) → m ≤ last
    → Cache messages m (after messages m)
unfolding after
cached messages last h small zero le = first messages last h
cached messages last h small (suc m) le =
    next messages last m (after messages m) h le (omega (arith, small, le))
      (cached messages last h small m (omega (arith, le)))

-- After the messages 0 to m, fewer than 2 ^ 32 in number, of a clock that runs, where each message
-- announces a new time code within 2 ^ 32 ns of the one before, the sum of the cached durations is
-- the time between the last message and the message 60 before it, or the first one where there are
-- fewer; the count is the number of messages, and the time of the last one is kept.
pub ltc_duration_sum-mtc :
    (messages : ℕ → Message) (m : ℕ)
    → IsRunning messages m
    → m + 1 < 2 ^ 32
    → ((after messages m).ltc_duration_sum ≡ (messages m).time - (messages (m - 60)).time)
      × ((after messages m).ltc_count ≡ m + 1)
      × ((after messages m).prev_ltc_time ≡ (messages m).time)
ltc_duration_sum-mtc messages m h small =
    let c = cached messages m h (omega (arith, small)) m (omega arith) in
    (c.sum, omega (arith, c.count), c.prev)
