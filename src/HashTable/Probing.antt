-- ===== src/HashTable/Probing.antt =====
-- server/hashtable.c: the slots that a lookup visits, and that these are all slots in time.
use pand_ablocks_server.Prelude.{
  ℕ, zero, suc, ◌+◌, ◌-◌, ◌*◌, ◌/◌, ◌%◌, ◌^◌, ◌≤◌, ◌<◌, ◌≡◌, ◌⊎◌, inl, inr, refl, sym, ap, ◌∙◌,
  arith, List, [], ◌∷◌, All, bit_and,
}
use pand_ablocks_server.Prelude.Bits.{bit_and-mask}
use native.Mathlib.Nat.{
  pow-suc, mul-add-mod_self_left, div-add-mod, mod-eq_of_lt, one-le-pow, mod-lt,
}
use pand_ablocks_server.HashTable.Cycle.{next, after, after-reaches}

-- The indices, on fuel, from `ix` and `perturb`.
unfoldable pub probes : ℕ → ℕ → ℕ → ℕ → ℕ → List ℕ
probes w mask zero ix perturb = []
probes w mask (suc fuel) ix perturb =
    bit_and ix mask ∷ probes w mask fuel ((1 + 5 * ix + perturb / 2 ^ 5) % 2 ^ w) (perturb / 2 ^ 5)

unfoldable pub Meets : ℕ → List ℕ → Type 0
Meets j [] = ⊥
Meets j (p ∷ ps) = (p ≡ j) ⊎ Meets j ps

next-mod : (m a b : ℕ) → a % m ≡ b % m → (1 + 5 * a) % m ≡ (1 + 5 * b) % m
next-mod m a b h =
    let da = div-add-mod a m in
    let db = div-add-mod b m in
    let ea : 1 + 5 * a ≡ m * (5 * (a / m)) + (1 + 5 * (a % m)) = omega arith in
    let eb : 1 + 5 * b ≡ m * (5 * (b / m)) + (1 + 5 * (b % m)) = omega arith in
    ap (λ t. t % m) ea
    ∙ mul-add-mod_self_left m (5 * (a / m)) (1 + 5 * (a % m))
    ∙ ap (λ r. (1 + 5 * r) % m) h
    ∙ sym (mul-add-mod_self_left m (5 * (b / m)) (1 + 5 * (b % m)))
    ∙ ap (λ t. t % m) (sym eb)

pow_multiple : (k d w : ℕ) → w ≡ k + d → (c : ℕ) × (2 ^ w ≡ 2 ^ k * c)
pow_multiple k zero w h = let e : w ≡ k = omega arith in (1, rw e (omega arith))
pow_multiple k (suc d) zero h = absurd (omega arith)
pow_multiple k (suc d) (suc w) h =
    let (c, e) = pow_multiple k d w (omega arith) in
    let p = pow-suc 2 w in (c * 2, p ∙ ap (λ t. t * 2) e ∙ omega arith)

module _ (w k : ℕ) (fits : k ≤ w) where
  wrapped : (x : ℕ) → x % 2 ^ w % 2 ^ k ≡ x % 2 ^ k
  wrapped x =
      let (c, e) = pow_multiple k (w - k) w (omega arith) in
      let d = div-add-mod x (2 ^ w) in
      let f : 2 ^ w * (x / 2 ^ w) ≡ 2 ^ k * c * (x / 2 ^ w) = ap (λ t. t * (x / 2 ^ w)) e in
      let split : x ≡ 2 ^ k * (c * (x / 2 ^ w)) + x % 2 ^ w = omega arith in
      sym (ap (λ t. t % 2 ^ k) split ∙ mul-add-mod_self_left (2 ^ k) (c * (x / 2 ^ w)) (x % 2 ^ w))

  -- Without perturbation: the map of the cycle.
  unperturbed :
      (n fuel x ix : ℕ)
      → n < fuel
      → ix % 2 ^ k ≡ x % 2 ^ k
      → Meets (after n x % 2 ^ k) (probes w (2 ^ k - 1) fuel ix 0)
  unfolding Meets probes after
  unperturbed n zero x ix h e = absurd (omega arith)
  unperturbed zero (suc fuel) x ix h e = inl (bit_and-mask k ix ∙ e)
  unperturbed (suc n) (suc fuel) x ix h e =
      let zero_perturb : 0 / 2 ^ 5 ≡ 0 = omega arith in
      let plain : 1 + 5 * ix + 0 ≡ 1 + 5 * ix = omega arith in
      inr (
        unperturbed n fuel (next x) ((1 + 5 * ix + 0) % 2 ^ w) (omega arith)
          (wrapped (1 + 5 * ix + 0) ∙ ap (λ t. t % 2 ^ k) plain ∙ next-mod (2 ^ k) ix x e))

  -- Every slot is met: the perturbation ends, and then the cycle goes through all.
  pub probes-Meets :
      (m ix perturb j : ℕ)
      → perturb < 2 ^ m
      → j < 2 ^ k
      → Meets j (probes w (2 ^ k - 1) (m + 2 ^ k) ix perturb)
  unfolding Meets probes
  probes-Meets zero ix perturb j small h =
      let z : perturb ≡ 0 = omega arith in
      let f : 0 + 2 ^ k ≡ 2 ^ k = omega arith in
      let (n, lt, e) = after-reaches k ix j in
      let met = unperturbed n (2 ^ k) ix ix lt refl in rw (z, f) (rw (e, mod-eq_of_lt h) at met)
  probes-Meets (suc m) ix perturb j small h =
      let e : suc m + 2 ^ k ≡ suc (m + 2 ^ k) = omega arith in
      let p = pow-suc 2 m in
      rw e (
        inr (
          probes-Meets m ((1 + 5 * ix + perturb / 2 ^ 5) % 2 ^ w) (perturb / 2 ^ 5) j (omega arith)
            h))

  pub probes-lt :
      (fuel ix perturb : ℕ) → All (λ p. p < 2 ^ k) (probes w (2 ^ k - 1) fuel ix perturb)
  unfolding probes
  probes-lt zero ix perturb = tt
  probes-lt (suc fuel) ix perturb =
      let pos : 0 < 2 ^ k = one-le-pow k 2 (omega arith) in
      (
        rw (bit_and-mask k ix) (mod-lt ix pos),
        probes-lt fuel ((1 + 5 * ix + perturb / 2 ^ 5) % 2 ^ w) (perturb / 2 ^ 5),
      )
