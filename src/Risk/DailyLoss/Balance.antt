-- ===== src/Risk/DailyLoss/Balance.antt =====
-- loss_validator.py: the arithmetic of a fill. What is paid and received is what the position costs and
-- what is realized.
use quant_embrace_v.Common.{
  ℕ, zero, suc, ◌+◌, ◌-◌, ◌*◌, ◌/◌, min, ◌≤◌, ◌<◌, ◌≡◌, inl, inr, refl, arith, ltb, leb, leb→le,
  lt→ltb, ℤ, pos, negsuc, above, below, difference, ◌+ℤ◌, Bool-cases, if◌then◌else◌, ap,
}
use quant_embrace_v.Risk.Signals.{buy, sell}
use quant_embrace_v.Risk.DailyLoss.Fills.{SymbolRow, minus, fill_symbol}

-- The cost of a long position and of a short one.
abbrev pub long_cost : SymbolRow → ℕ
long_cost r = above r.quantity * r.avg_price

abbrev pub short_cost : SymbolRow → ℕ
short_cost r = below r.quantity * r.avg_price

split_mul : (a b p : ℕ) → a ≤ b → b * p ≡ (b - a) * p + a * p
split_mul a b p h =
    let parts : b ≡ (b - a) + a = omega (arith, h) in
    let whole : b * p ≡ ((b - a) + a) * p = ap (λ n. n * p) parts in omega (arith, whole)

abbrev pub row : ℤ → ℕ → ℤ → SymbolRow
row q avg z = record { quantity = q; avg_price = avg; realized = z }

above-difference : (a b : ℕ) → above (difference a b) ≡ a - b
above-difference a b = ground arith

below-difference : (a b : ℕ) → below (difference a b) ≡ b - a
below-difference a b = ground arith

take_part : (q n : ℕ) → q ≤ n → pos n +ℤ minus q ≡ pos (n - q)
take_part zero n h = ground arith
take_part (suc q) n h = ground arith

take_over : (q n : ℕ) → n < q → pos n +ℤ minus q ≡ negsuc (q - n - 1)
take_over zero n h = ground arith
take_over (suc q) n h = ground arith

min_left : (q n : ℕ) → q ≤ n → min q n ≡ q
min_left q n h = ground arith

min_right : (q n : ℕ) → n < q → min q n ≡ n
min_right q n h = ground arith

min_over : (q n : ℕ) → n ≤ q → min q n ≡ n
min_over q n h = ground arith

sale_of_part :
    (q p n avg : ℕ) (z : ℤ)
    → 0 < n
    → q ≤ n
    → fill_symbol sell q p (row (pos n) avg z) ≡ (
      row (pos (n - q)) (if ltb 0 (n - q) then avg else 0) (z +ℤ difference (p * q) (avg * q)),
      difference (p * q) (avg * q),
    )
unfolding fill_symbol
sale_of_part q p n avg z some_held h =
    rw (take_part q n h, min_left q n h, lt→ltb 0 n some_held) refl

sale_over :
    (q p n avg : ℕ) (z : ℤ)
    → 0 < n
    → n < q
    → fill_symbol sell q p (row (pos n) avg z) ≡ (
      row (negsuc (q - n - 1)) p (z +ℤ difference (p * n) (avg * n)),
      difference (p * n) (avg * n),
    )
unfolding fill_symbol
sale_over q p n avg z some_held h =
    rw
      (
        take_over q n h,
        min_right q n h,
        lt→ltb 0 n some_held,
        lt→ltb 0 (suc (q - n - 1)) (omega arith),
      )
      refl

kept_cost : (k avg : ℕ) → k * (if ltb 0 k then avg else 0) ≡ k * avg
kept_cost zero avg = ground arith
kept_cost (suc k) avg = ground arith

rest_cost : (q n p : ℕ) → n < q → suc (q - n - 1) * p + n * p ≡ q * p
rest_cost q n p h =
    let same : suc (q - n - 1) ≡ q - n = omega (arith, h) in
    rw same (omega (arith, split_mul n q p (omega (arith, h))))

sale_balances :
    (q p n avg : ℕ) (z : ℤ)
    → 0 < n
    → let (r', d) = fill_symbol sell q p (row (pos n) avg z) in
      p * q + long_cost r' + below d ≡ n * avg + short_cost r' + above d
sale_balances q p n avg z some_held = elim (Bool-cases (leb q n)) [
  | inl h ↦ rw (sale_of_part q p n avg z some_held (leb→le q n h)) (
      rw
        (
          above-difference (p * q) (avg * q),
          below-difference (p * q) (avg * q),
          kept_cost (n - q) avg,
        )
        (omega (arith, split_mul q n avg (leb→le q n h))))
  | inr h ↦ rw (sale_over q p n avg z some_held (ground arith)) (
      rw (above-difference (p * n) (avg * n), below-difference (p * n) (avg * n))
        (omega (arith, rest_cost q n p (ground arith))))
]

give_part : (q n : ℕ) → q ≤ n → negsuc n +ℤ pos q ≡ negsuc (n - q)
give_part q n h = ground arith

give_over : (q n : ℕ) → n < q → negsuc n +ℤ pos q ≡ pos (q - n - 1)
give_over q n h = ground arith

purchase_of_part :
    (q p n avg : ℕ) (z : ℤ)
    → q ≤ n
    → fill_symbol buy q p (row (negsuc n) avg z)
      ≡ (row (negsuc (n - q)) avg (z +ℤ difference (avg * q) (p * q)), difference (avg * q) (p * q))
unfolding fill_symbol
purchase_of_part q p n avg z h =
    rw
      (
        give_part q n h,
        min_left q (suc n) (omega (arith, h)),
        lt→ltb 0 (suc n) (omega arith),
        lt→ltb 0 (suc (n - q)) (omega arith),
      )
      refl

purchase_over :
    (q p n avg : ℕ) (z : ℤ)
    → n < q
    → fill_symbol buy q p (row (negsuc n) avg z) ≡ (
      row
          (pos (q - n - 1))
          (if ltb 0 (q - n - 1) then p else 0)
          (z +ℤ difference (avg * suc n) (p * suc n)),
      difference (avg * suc n) (p * suc n),
    )
unfolding fill_symbol
purchase_over q p n avg z h =
    rw (give_over q n h, min_over q (suc n) (omega (arith, h)), lt→ltb 0 (suc n) (omega arith)) refl

part_cost : (q n avg : ℕ) → q ≤ n → suc (n - q) * avg + q * avg ≡ suc n * avg
part_cost q n avg h =
    let same : suc (n - q) ≡ suc n - q = omega (arith, h) in
    rw same (omega (arith, split_mul q (suc n) avg (omega (arith, h))))

over_cost : (q n p : ℕ) → n < q → (q - n - 1) * p + suc n * p ≡ q * p
over_cost q n p h =
    let same : q - n - 1 ≡ q - suc n = omega (arith, h) in
    rw same (omega (arith, split_mul (suc n) q p (omega (arith, h))))

purchase_balances :
    (q p n avg : ℕ) (z : ℤ)
    → let (r', d) = fill_symbol buy q p (row (negsuc n) avg z) in
      p * q + short_cost r' + above d ≡ suc n * avg + long_cost r' + below d
purchase_balances q p n avg z = elim (Bool-cases (leb q n)) [
  | inl h ↦ rw (purchase_of_part q p n avg z (leb→le q n h)) (
      rw (above-difference (avg * q) (p * q), below-difference (avg * q) (p * q))
        (omega (arith, part_cost q n avg (leb→le q n h))))
  | inr h ↦ rw (purchase_over q p n avg z (ground arith)) (
      rw
        (
          above-difference (avg * suc n) (p * suc n),
          below-difference (avg * suc n) (p * suc n),
          kept_cost (q - n - 1) p,
        )
        (omega (arith, over_cost q n p (ground arith))))
]

-- A fill against an open position settles to the last unit of money: what a sale brings in is the
-- cost that leaves the long side, the cost that comes to the short side, and the gain less the loss
-- that is realized; what a purchase costs is the same with the sides changed. It may close a part of
-- the position, the whole of it, or more.
pub closing_balances :
    (q p n avg : ℕ) (z : ℤ)
    → (let (r', d) = fill_symbol sell q p (row (pos (suc n)) avg z) in
        p * q + long_cost r' + below d ≡ suc n * avg + short_cost r' + above d)
      × (let (r', d) = fill_symbol buy q p (row (negsuc n) avg z) in
          p * q + short_cost r' + above d ≡ suc n * avg + long_cost r' + below d)
closing_balances q p n avg z =
    (sale_balances q p (suc n) avg z (omega arith), purchase_balances q p n avg z)

div_bounds : (a b : ℕ) → 0 < b → (b * (a / b) ≤ a) × (a < b * (a / b) + b)
div_bounds a b h = ground (arith, h)

bought : (n q : ℕ) → pos n +ℤ pos q ≡ pos (n + q)
bought n q = ground arith

-- A purchase on top of a long position, or of none, realizes nothing, and its average price gives the
-- whole cost back, up to less than one unit of money for each share.
pub opening_balances :
    (q p n avg : ℕ) (z : ℤ)
    → 0 < q
    → let (r', d) = fill_symbol buy q p (row (pos n) avg z) in
      (d ≡ pos 0)
      × (r'.quantity ≡ pos (n + q))
      × (long_cost r' ≤ n * avg + q * p)
      × (n * avg + q * p < long_cost r' + (n + q))
unfolding fill_symbol
opening_balances q p n avg z h = rw (bought n q) (
  refl,
  refl,
  (div_bounds (n * avg + q * p) (n + q) (omega (arith, h))).0,
  (div_bounds (n * avg + q * p) (n + q) (omega (arith, h))).1,
)
