-- ===== src/HashTable/Cycle.antt =====
-- server/hashtable.c: the map x ↦ 5x + 1, which the probing of the hash table ends in, goes through
-- all remainders of a power of two.
use native.Mathlib.Nat.{
  pow-suc, one-le-pow, add-mul-mod_self_left, add-mul-div_left, div-add-mod, mod-lt,
  mul-add-mod_self_left, mod-eq_of_lt,
}
use native.Mathlib.Decide.{ℕ_discrete}
use pand_ablocks_server.Prelude.{
  ℕ, zero, suc, ◌+◌, ◌*◌, ◌/◌, ◌%◌, ◌^◌, ◌<◌, ◌≡◌, refl, ap, ◌∙◌, arith,
}

abbrev pub next : ℕ → ℕ
next x = 1 + 5 * x

unfoldable pub after : ℕ → ℕ → ℕ
after zero x = x
after (suc n) x = after n (next x)

after-after : (n m total x : ℕ) → total ≡ n + m → after total x ≡ after m (after n x)
unfolding after
after-after zero m total x h = let e : total ≡ m = omega arith in rw e
after-after (suc n) m zero x h = absurd (omega arith)
after-after (suc n) m (suc t) x h = after-after n m t (next x) (omega arith)

-- Twice as many steps from a shift by an odd multiple.
double_shift :
    (p a b x : ℕ)
    → let y = x + p * (4 * (a * x) + 2 * b + 1) in
      y + p * (4 * (a * y) + 2 * b + 1)
      ≡ x + 2 * p * (4 * ((a + 2 * (p * (a * a))) * x) + 2 * (b + p * (a * (2 * b + 1))) + 1)
double_shift p a b x = omega arith

-- The shift by 2 ^ k steps, an odd multiple of 2 ^ k.
shift : (k : ℕ) → (a b : ℕ) × ((x : ℕ) → after (2 ^ k) x ≡ x + 2 ^ k * (4 * (a * x) + 2 * b + 1))
shift zero = (1, 0, λ x. unfold after in omega arith)
shift (suc k) =
    let (a, b, h) = shift k in
    (
      a + 2 * (2 ^ k * (a * a)),
      b + 2 ^ k * (a * (2 * b + 1)),
      λ x.
          let y = x + 2 ^ k * (4 * (a * x) + 2 * b + 1) in
          let e : 2 ^ suc k ≡ 2 ^ k + 2 ^ k = omega (arith, pow-suc 2 k) in
          let f : 2 * 2 ^ k ≡ 2 ^ suc k = omega (arith, pow-suc 2 k) in
          after-after (2 ^ k) (2 ^ k) (2 ^ suc k) x e
          ∙ ap (λ t. after (2 ^ k) t) (h x)
          ∙ h y
          ∙ rw f at (double_shift (2 ^ k) a b x),
    )

bit_product : (m p r : ℕ) → r < m → p < 2 → r + m * p < m * 2
bit_product m zero r h k = omega arith
bit_product m (suc zero) r h k = omega arith
bit_product m (suc (suc p)) r h k = absurd (omega arith)

-- A remainder by twice a number, from that and the parity of the quotient.
mod-twice : (m x : ℕ) → 0 < m → x % (m * 2) ≡ x % m + m * (x / m % 2)
mod-twice m x pos =
    let q = x / m in
    let r = x % m in
    let d = div-add-mod x m in
    let small = mod-lt x pos in
    let halves : q ≡ 2 * (q / 2) + q % 2 = omega arith in
    let product : m * q ≡ m * (2 * (q / 2) + q % 2) = ap (λ t. m * t) halves in
    let split : x ≡ m * 2 * (q / 2) + (r + m * (q % 2)) = omega arith in
    ap (λ t. t % (m * 2)) split
    ∙ mul-add-mod_self_left (m * 2) (q / 2) (r + m * (q % 2))
    ∙ mod-eq_of_lt (bit_product m (q % 2) r small (omega arith))

-- Every remainder by 2 ^ k is met in fewer than 2 ^ k steps.
pub after-reaches : (k x t : ℕ) → (n : ℕ) × (n < 2 ^ k) × (after n x % 2 ^ k ≡ t % 2 ^ k)
unfolding after
after-reaches zero x t = (0, omega arith, omega arith)
after-reaches (suc k) x t =
    let (n, small, e) = after-reaches k x t in
    let m = 2 ^ k in
    let y = after n x in
    let pos : 0 < m = one-le-pow k 2 (omega arith) in
    let double : 2 ^ suc k ≡ m * 2 = pow-suc 2 k in
    let dy = mod-twice m y pos in
    let dt = mod-twice m t pos in
    elim (ℕ_discrete (y / m % 2) (t / m % 2)) [
      | yes s ↦ (n, omega arith, rw (double, dy, dt, e, s) refl)
      | no s ↦
          let (a, b, h) = shift k in
          let z = y + m * (4 * (a * y) + 2 * b + 1) in
          let dz = mod-twice m z pos in
          let low : z % m ≡ y % m = add-mul-mod_self_left y m (4 * (a * y) + 2 * b + 1) in
          let high : z / m ≡ y / m + (4 * (a * y) + 2 * b + 1) =
            add-mul-div_left y (4 * (a * y) + 2 * b + 1) pos in
          let parity : z / m % 2 ≡ t / m % 2 = omega arith in
          (
            n + m,
            omega arith,
            ap (λ v. v % 2 ^ suc k) (after-after n m (n + m) x refl ∙ h y)
                ∙ rw (double, dz, dt, low, e, parity) refl,
          )
    ]
