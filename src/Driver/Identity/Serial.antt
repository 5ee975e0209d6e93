-- ===== src/Driver/Identity/Serial.antt =====
-- The serial number of a card is the number that its barcode shows.
use snd_hdspe.Common.{
  ℕ, zero, suc, ◌+◌, ◌-◌, ◌*◌, ◌^◌, ◌<◌, ◌≤◌, ◌≡◌, arith, ap, ◌∙◌, ◌&&◌, leb, if◌then◌else◌,
  Bool-cases, inl, inr, u32, List, [], ◌∷◌, ◌++◌,
}
use native.Mathlib.Nat.{pow-suc, mod-eq_of_lt, mul-le-mul_left, mul-le-mul_right}
use snd_hdspe.Driver.Identity.{characters, is_digit, read_digits, get_serial_rev2}

-- The digits among the characters, and the number that they write in base ten.
pub digits : List ℕ → List ℕ
digits [] = []
digits (c ∷ cs) = if is_digit c then (c - 48) ∷ digits cs else digits cs

pub count : List ℕ → ℕ
count [] = 0
count (d ∷ ds) = suc (count ds)

pub decimal : List ℕ → ℕ
decimal [] = 0
decimal (d ∷ ds) = d * 10 ^ count ds + decimal ds

one-le-ten_pow : (n : ℕ) → 1 ≤ 10 ^ n
one-le-ten_pow zero = omega arith
one-le-ten_pow (suc n) = omega (arith, one-le-ten_pow n, pow-suc 10 n)

shift : (n d t : ℕ) → (n * 10 + d) * t ≡ n * (t * 10) + d * t
shift n d t = grind arith

within :
    (p t u : ℕ)
    → 1 ≤ t
    → u ≡ t * 10
    → p * u ≤ 2 ^ 32
    → (10 * p ≤ 2 ^ 32) × (p * 10 * t ≤ 2 ^ 32) × (p * t ≤ 2 ^ 32)
within p t u l e b =
    let product : p * u ≡ p * t * 10 = ap (λ x. p * x) e ∙ grind arith in
    let least : p * 1 ≤ p * t = mul-le-mul_left p l in
    let times : p * 10 * t ≡ p * t * 10 = grind arith in
    (omega (arith, product, least, b), omega (arith, times, product, b), omega (arith, product, b))

-- The characters after a number below p, as long as p and the characters left fit into 32 bits.
read_digits-decimal :
    (cs : List ℕ) (n p : ℕ)
    → n < p
    → p * 10 ^ count cs ≤ 2 ^ 32
    → read_digits n cs ≡ n * 10 ^ count (digits cs) + decimal (digits cs)
unfolding read_digits digits count decimal is_digit
read_digits-decimal [] n p l b = omega arith
read_digits-decimal (c ∷ cs) n p l b =
    let (wrap, longer, same) =
      within p (10 ^ count cs) (10 ^ suc (count cs)) (one-le-ten_pow (count cs))
        (pow-suc 10 (count cs)) b in
    elim (Bool-cases (leb 48 c && leb c 57)) [
      | inr other ↦ rw other (read_digits-decimal cs n p l same)
      | inl digit ↦
          let bounds : (48 ≤ c) × (c ≤ 57) = ground (arith, digit) in
          let small : n * 10 + (c - 48) < p * 10 = omega (arith, bounds) in
          let fits : u32 (n * 10 + (c - 48)) ≡ n * 10 + (c - 48) =
            mod-eq_of_lt (omega (arith, small, wrap)) in
          let power : 10 ^ suc (count (digits cs)) ≡ 10 ^ count (digits cs) * 10 =
            pow-suc 10 (count (digits cs)) in
          rw digit (
            rw (fits, read_digits-decimal cs (n * 10 + (c - 48)) (p * 10) small longer, power)
              (omega (arith, shift n (c - 48) (10 ^ count (digits cs)))))
    ]

count-digits : (cs : List ℕ) → 10 ^ count (digits cs) ≤ 10 ^ count cs
unfolding digits count is_digit
count-digits [] = omega arith
count-digits (c ∷ cs) = elim (Bool-cases (leb 48 c && leb c 57)) [
  | inl digit ↦
      rw digit
        (omega (arith, count-digits cs, pow-suc 10 (count cs), pow-suc 10 (count (digits cs))))
  | inr other ↦ rw other (omega (arith, count-digits cs, pow-suc 10 (count cs)))
]

decimal-bound : (cs : List ℕ) → decimal (digits cs) < 10 ^ count (digits cs)
unfolding digits count decimal is_digit
decimal-bound [] = omega arith
decimal-bound (c ∷ cs) = elim (Bool-cases (leb 48 c && leb c 57)) [
  | inr other ↦ rw other (decimal-bound cs)
  | inl digit ↦
      let bounds : (48 ≤ c) × (c ≤ 57) = ground (arith, digit) in
      let product : (c - 48) * 10 ^ count (digits cs) ≤ 9 * 10 ^ count (digits cs) =
        mul-le-mul_right (10 ^ count (digits cs)) (omega (arith, bounds)) in
      rw digit (omega (arith, decimal-bound cs, product, pow-suc 10 (count (digits cs))))
]

-- Whatever the two registers read, the serial number is the number that the digits among their eight
-- characters write in base ten, in the order of memory; it never wraps, and is below 10 ^ 8.
pub get_serial_rev2_lem :
    (barcode0 barcode1 : ℕ)
    → (get_serial_rev2 barcode0 barcode1
        ≡ decimal (digits (characters barcode0 ++ characters barcode1)))
      × (get_serial_rev2 barcode0 barcode1 < 10 ^ 8)
unfolding get_serial_rev2 characters count
get_serial_rev2_lem barcode0 barcode1 =
    let shown =
      read_digits-decimal (characters barcode0 ++ characters barcode1) 0 1 (omega arith)
        (omega arith) in
    let most = count-digits (characters barcode0 ++ characters barcode1) in
    let bound = decimal-bound (characters barcode0 ++ characters barcode1) in
    (omega (arith, shown), omega (arith, shown, most, bound))
