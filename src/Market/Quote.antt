-- ===== src/Market/Quote.antt =====
-- `_amount_out` (src/debot4/v6/market/quote.py): what a Pancake v2 pair pays for an input, in raw units,
-- with a fee of 25 basis points; and its bounds.
use native.Mathlib.Nat.{div-mul-le_self, div-lt_iff_lt-mul, mul-pos}
use debot.Base.{
  ℕ, zero, suc, ◌+◌, ◌-◌, ◌*◌, ◌/◌, ◌≤◌, ◌<◌, true, false, ◌||◌, ◌≡◌, refl, arith, if◌then◌else◌,
  leb, Bool-cases, inl, inr,
}

-- `10_000 - FEE_BPS`
abbrev pub kept_bps : ℕ
kept_bps = 9_975

unfoldable pub amount_out : (amount_in reserve_in reserve_out : ℕ) → ℕ
amount_out amount_in reserve_in reserve_out =
    if leb amount_in 0 || leb reserve_in 0 || leb reserve_out 0
    then 0
    else amount_in * kept_bps * reserve_out / (reserve_in * 10_000 + amount_in * kept_bps)

-- What is paid, times the divisor, is at most the dividend.
amount_out_mul : (x r s : ℕ) → amount_out x r s * (r * 10_000 + x * kept_bps) ≤ x * kept_bps * s
unfolding amount_out
amount_out_mul x r s = elim (Bool-cases (leb x 0 || leb r 0 || leb s 0)) [
  | inl none ↦ rw none (omega arith)
  | inr some ↦ rw some (div-mul-le_self (x * kept_bps * s) (r * 10_000 + x * kept_bps))
]

-- The same, with the products written out.
amount_out_products :
    (x r s : ℕ)
    → 10_000 * (amount_out x r s * r) + kept_bps * (amount_out x r s * x) ≤ kept_bps * (x * s)
amount_out_products x r s = grind (arith, amount_out_mul x r s)

amount_out_zero : (x r s : ℕ) → (leb x 0 || leb r 0 || leb s 0) ≡ true → amount_out x r s ≡ 0
unfolding amount_out
amount_out_zero x r s h = rw h refl

amount_out_div :
    (x r s : ℕ)
    → (leb x 0 || leb r 0 || leb s 0) ≡ false
    → amount_out x r s ≡ x * kept_bps * s / (r * 10_000 + x * kept_bps)
unfolding amount_out
amount_out_div x r s h = rw h refl

-- A pair never pays out its whole reserve.
amount_out-lt_reserve : (x r s : ℕ) → 0 < s → amount_out x r s < s
amount_out-lt_reserve x r s positive = elim (Bool-cases (leb x 0 || leb r 0 || leb s 0)) [
  | inl none ↦ rw (amount_out_zero x r s none) positive
  | inr some ↦
      let here : 0 < r = ground arith in
      let fits : x * kept_bps * s < s * (r * 10_000 + x * kept_bps) =
        grind (arith, mul-pos positive here) in
      rw (amount_out_div x r s some)
        ((div-lt_iff_lt-mul {k = r * 10_000 + x * kept_bps} (omega arith)).1 fits)
]

amount_out-le_reserve : (x r s : ℕ) → amount_out x r s ≤ s
amount_out-le_reserve x r zero = rw (amount_out_zero x r 0 (ground arith)) (omega arith)
amount_out-le_reserve x r (suc s) = omega (arith, amount_out-lt_reserve x r (suc s) (omega arith))

-- The product of the reserves does not fall.
amount_out-product : (x r s : ℕ) → r * s ≤ (r + x) * (s - amount_out x r s)
amount_out-product x r s = grind (arith, amount_out_products x r s, amount_out-le_reserve x r s)

-- Selling at once what was bought pays at most the input.
round_trip : (x r s : ℕ) → 0 < s → amount_out (amount_out x r s) (s - amount_out x r s) (r + x) ≤ x
round_trip x r s positive =
    let o = amount_out x r s in
    let h = amount_out_products x r s in
    let lt = amount_out-lt_reserve x r s positive in
    elim (Bool-cases (leb o 0 || leb (s - o) 0 || leb (r + x) 0)) [
      | inl none ↦ rw (amount_out_zero o (s - o) (r + x) none) (omega arith)
      | inr some ↦ rw (amount_out_div o (s - o) (r + x) some) (
          omega (
            arith,
            (div-lt_iff_lt-mul {k = (s - o) * 10_000 + o * kept_bps} {x = o * kept_bps * (r + x)}
                  {y = x + 1} (ground arith)).1
                (grind (arith, h, lt)),
          ))
    ]

-- For a positive reserve of what is bought: a pair pays out less than this reserve, the product of the
-- reserves does not fall, and selling at once what was bought pays at most the input.
pub amount_out-keeps_product :
    (amount_in reserve_in reserve_out : ℕ)
    → 0 < reserve_out
    → let out = amount_out amount_in reserve_in reserve_out in
      (out < reserve_out)
      × (reserve_in * reserve_out ≤ (reserve_in + amount_in) * (reserve_out - out))
      × (amount_out out (reserve_out - out) (reserve_in + amount_in) ≤ amount_in)
amount_out-keeps_product x r s positive =
    (amount_out-lt_reserve x r s positive, amount_out-product x r s, round_trip x r s positive)
