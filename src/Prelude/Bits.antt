-- ===== src/Prelude/Bits.antt =====
-- The native bitwise operations digit by digit, and shifted fields as sums.
use Prim.Native.Nat.{
  ℕ, zero, suc, ◌+◌, ◌-◌, ◌*◌, ◌/◌, ◌%◌, ◌^◌, ◌≤◌, ◌<◌, min, max, bit_and, bit_or, bit_xor, digits,
  bitwise, differ, bit_and-bitwise, bit_or-bitwise, bit_xor-bitwise,
}
use mathlib.Core.Path.{◌≡◌, refl, sym, ap, ◌∙◌}
use native.Mathlib.Nat.{
  le_refl, pow-suc, one-le-pow, mod-lt, mod-eq_of_lt, div-add-mod, mul-add-mod_self_right,
}
use native.Mathlib.Omega.{arith}

-- The definition behind the three operations recurs on fuel, which starts at the first operand.
module _ (empty : ℕ → ℕ) (digit : ℕ → ℕ → ℕ) where
  abbrev joined : ℕ → ℕ → ℕ → ℕ
  joined high x y = high * 2 + digit (x % 2) (y % 2)

  -- One unit more than enough is as good.
  lift_one :
      (fuel x y : ℕ) → x ≤ fuel → digits empty digit (suc fuel) x y ≡ digits empty digit fuel x y
  lift_one fuel zero y enough = at_zero fuel
    where
      at_zero : (k : ℕ) → digits empty digit (suc k) zero y ≡ digits empty digit k zero y
      at_zero zero = refl
      at_zero (suc k) = refl
  lift_one zero (suc x) y enough = absurd (omega arith)
  lift_one (suc fuel) (suc x) y enough =
      ap (λ high. joined high (suc x) y) (lift_one fuel (suc x / 2) (y / 2) (omega arith))

  lift_by :
      (more x y fuel : ℕ) → fuel ≡ more + x → digits empty digit fuel x y ≡ digits empty digit x x y
  lift_by zero x y fuel e = let f : fuel ≡ x = omega arith in rw f
  lift_by (suc more) x y zero e = absurd (omega arith)
  lift_by (suc more) x y (suc fuel) e =
      lift_one fuel x y (omega arith) ∙ lift_by more x y fuel (omega arith)

  unrolled :
      (x y : ℕ)
      → bitwise empty digit (suc x) y ≡ joined (bitwise empty digit (suc x / 2) (y / 2)) (suc x) y
  unrolled x y =
      ap (λ high. joined high (suc x) y)
        (lift_by (x - suc x / 2) (suc x / 2) (y / 2) x (omega arith))

-- The lowest digit of each operation.
pub bit_and-step : (x y : ℕ) → bit_and x y ≡ bit_and (x / 2) (y / 2) * 2 + min (x % 2) (y % 2)
bit_and-step x y =
    elim x as (λ k. bit_and k y ≡ bit_and (k / 2) (y / 2) * 2 + min (k % 2) (y % 2)) [
      | zero ↦ simp bit_and-bitwise (omega arith)
      | suc k ↦ simp bit_and-bitwise (unrolled (λ _. 0) min k y)
    ]

pub bit_or-step : (x y : ℕ) → bit_or x y ≡ bit_or (x / 2) (y / 2) * 2 + max (x % 2) (y % 2)
bit_or-step x y = elim x as (λ k. bit_or k y ≡ bit_or (k / 2) (y / 2) * 2 + max (k % 2) (y % 2)) [
  | zero ↦ simp bit_or-bitwise (omega arith)
  | suc k ↦ simp bit_or-bitwise (unrolled (λ t. t) max k y)
]

pub bit_xor-step : (x y : ℕ) → bit_xor x y ≡ bit_xor (x / 2) (y / 2) * 2 + differ (x % 2) (y % 2)
bit_xor-step x y =
    elim x as (λ k. bit_xor k y ≡ bit_xor (k / 2) (y / 2) * 2 + differ (k % 2) (y % 2)) [
      | zero ↦ simp bit_xor-bitwise (omega arith)
      | suc k ↦ simp bit_xor-bitwise (unrolled (λ t. t) differ k y)
    ]

-- Both operations with 0, below a bound.
with_zero : (bound x : ℕ) → x < bound → (bit_or x 0 ≡ x) × (bit_and x 0 ≡ 0)
with_zero zero x h = absurd (omega arith)
with_zero (suc bound) zero h = (refl, refl)
with_zero (suc bound) (suc x) h =
    let half = with_zero bound (suc x / 2) (omega arith) in
    (omega (arith, bit_or-step (suc x) 0, half), omega (arith, bit_and-step (suc x) 0, half))

half-shift : (q k : ℕ) → q * 2 ^ suc k / 2 ≡ q * 2 ^ k
half-shift q k =
    let e : q * 2 ^ suc k ≡ 2 * (q * 2 ^ k) = omega (arith, ap (λ (t : ℕ). q * t) (pow-suc 2 k)) in
    rw e (omega arith)

even-shift : (q k : ℕ) → q * 2 ^ suc k % 2 ≡ 0
even-shift q k =
    let e : q * 2 ^ suc k ≡ 2 * (q * 2 ^ k) = omega (arith, ap (λ (t : ℕ). q * t) (pow-suc 2 k)) in
    rw e (omega arith)

-- `(q << k) | r` is a sum when `r` has at most `k` bits.
pub bit_or-shift : (k q r : ℕ) → r < 2 ^ k → bit_or (q * 2 ^ k) r ≡ q * 2 ^ k + r
bit_or-shift zero q r h =
    let e : r ≡ 0 = omega arith in
    let f : q * 2 ^ 0 ≡ q = omega arith in
    rw (e, f) ((with_zero (suc q) q (le_refl (suc q))).0 ∙ omega arith)
bit_or-shift (suc k) q r h =
    let p : 2 ^ suc k ≡ 2 ^ k * 2 = pow-suc 2 k in
    let ih = bit_or-shift k q (r / 2) (omega (arith, p)) in
    bit_or-step (q * 2 ^ suc k) r
    ∙ rw (half-shift q k, even-shift q k, ih) (omega (arith, ap (λ (t : ℕ). q * t) p))

double-mod : (m a : ℕ) → 0 < m → a / 2 % m * 2 + a % 2 ≡ a % (m * 2)
double-mod m a h =
    let q = a / 2 / m in
    let r = a / 2 % m in
    let d : m * q + r ≡ a / 2 = div-add-mod (a / 2) m in
    let l : r < m = mod-lt (a / 2) h in
    let e : a ≡ q * (m * 2) + (r * 2 + a % 2) = omega (arith, ap (λ (t : ℕ). 2 * t) d) in
    sym (
      ap (λ t. t % (m * 2)) e
      ∙ mul-add-mod_self_right q (m * 2) (r * 2 + a % 2)
      ∙ mod-eq_of_lt (omega arith))

-- `a & (2^k - 1)` is a remainder.
pub bit_and-mask : (k a : ℕ) → bit_and a (2 ^ k - 1) ≡ a % 2 ^ k
bit_and-mask zero a = (with_zero (suc a) a (le_refl (suc a))).1 ∙ omega arith
bit_and-mask (suc k) a =
    let p : 2 ^ suc k ≡ 2 ^ k * 2 = pow-suc 2 k in
    let one = one-le-pow k 2 in
    let h : (2 ^ suc k - 1) / 2 ≡ 2 ^ k - 1 = omega (arith, p, one) in
    let o : (2 ^ suc k - 1) % 2 ≡ 1 = omega (arith, p, one) in
    bit_and-step a (2 ^ suc k - 1)
    ∙ rw (h, o, bit_and-mask k (a / 2), p)
        (ap (λ t. a / 2 % 2 ^ k * 2 + t) (omega arith) ∙ double-mod (2 ^ k) a (one (omega arith)))

pub bit_or-lt : (k a b : ℕ) → a < 2 ^ k → b < 2 ^ k → bit_or a b < 2 ^ k
bit_or-lt zero a b h g =
    let e : a ≡ 0 = omega arith in
    let f : b ≡ 0 = omega arith in
    rw (e, f) (omega (arith, (with_zero (suc 0) 0 (le_refl (suc 0))).0))
bit_or-lt (suc k) a b h g = omega (
  arith,
  pow-suc 2 k,
  bit_or-step a b,
  bit_or-lt k (a / 2) (b / 2) (omega (arith, pow-suc 2 k)) (omega (arith, pow-suc 2 k)),
)
