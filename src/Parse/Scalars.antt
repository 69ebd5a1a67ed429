-- ===== src/Parse/Scalars.antt =====
-- The texts that server/utf8_check.c accepts, as encodings of Unicode scalar values.
use native.Mathlib.Decide.{dec_lt}
use pand_ablocks_server.Prelude.{
  ℕ, ◌+◌, ◌/◌, ◌%◌, ◌≤◌, ◌<◌, ◌≡◌, refl, ◌∙◌, arith, true, false, List, [], ◌∷◌, ◌++◌, ltb,
  if◌then◌else◌, length, drop, peek, ◌⊎◌,
}
use pand_ablocks_server.Parse.Ranges.{by_range, two_passes, three_passes, four_passes}

-- What may be encoded: any code point but 0, the surrogates, U+FFFE and U+FFFF.
pub record IsScalar (c : ℕ) : Type 0 where
  pub not_nul : 0 < c
  pub not_surrogate : (c < 0xd800) ⊎ (0xe000 ≤ c)
  pub not_special : (c < 0xfffe) ⊎ (0x1_0000 ≤ c)
  pub not_large : c < 0x11_0000

unfoldable pub encode : ℕ → List ℕ
encode c =
    if ltb c 0x80
    then c ∷ []
    else if ltb c 0x800
    then (0xc0 + c / 64) ∷ (0x80 + c % 64) ∷ []
    else if ltb c 0x1_0000
    then (0xe0 + c / 4096) ∷ (0x80 + c / 64 % 64) ∷ (0x80 + c % 64) ∷ []
    else (0xf0 + c / 262144) ∷ (0x80 + c / 4096 % 64) ∷ (0x80 + c / 64 % 64) ∷ (0x80 + c % 64) ∷ []

unfoldable pub encode_all : List ℕ → List ℕ
unfolding encode
encode_all [] = []
encode_all (c ∷ cs) = encode c ++ encode_all cs

pub encode_one : (c : ℕ) → c < 0x80 → encode c ≡ c ∷ []
unfolding encode
encode_one c h = let t : ltb c 0x80 ≡ true = ground arith in rw t refl

pub encode_two : (c : ℕ) → 0x80 ≤ c → c < 0x800 → encode c ≡ (0xc0 + c / 64) ∷ (0x80 + c % 64) ∷ []
unfolding encode
encode_two c h k =
    let t : ltb c 0x80 ≡ false = ground arith in
    let u : ltb c 0x800 ≡ true = ground arith in rw (t, u) refl

pub encode_three :
    (c : ℕ)
    → 0x800 ≤ c
    → c < 0x1_0000
    → encode c ≡ (0xe0 + c / 4096) ∷ (0x80 + c / 64 % 64) ∷ (0x80 + c % 64) ∷ []
unfolding encode
encode_three c h k =
    let t : ltb c 0x80 ≡ false = ground arith in
    let u : ltb c 0x800 ≡ false = ground arith in
    let v : ltb c 0x1_0000 ≡ true = ground arith in rw (t, u, v) refl

pub encode_four :
    (c : ℕ)
    → 0x1_0000 ≤ c
    → encode c
      ≡ (0xf0 + c / 262144) ∷ (0x80 + c / 4096 % 64) ∷ (0x80 + c / 64 % 64) ∷ (0x80 + c % 64) ∷ []
unfolding encode
encode_four c h =
    let t : ltb c 0x80 ≡ false = ground arith in
    let u : ltb c 0x800 ≡ false = ground arith in
    let v : ltb c 0x1_0000 ≡ false = ground arith in rw (t, u, v) refl

-- The sequence that a scalar value is encoded by, as `utf8_check` tests it.
abbrev pub length_by_range : List ℕ → ℕ
length_by_range s = by_range (peek s) (peek (drop 1 s)) (peek (drop 2 s)) (peek (drop 3 s))

one_passes : (a b c d : ℕ) → a < 0x80 → by_range a b c d ≡ 1
unfolding by_range
one_passes a b c d h = let t : ltb a 0x80 ≡ true = ground arith in rw t refl

pub scalar_passes :
    (c : ℕ) (rest : List ℕ) → IsScalar c → length_by_range (encode c ++ rest) ≡ length (encode c)
scalar_passes c rest i = elim (dec_lt c 0x80) [
  | yes h ↦
      rw (encode_one c h)
        (one_passes c (peek rest) (peek (drop 1 rest)) (peek (drop 2 rest)) h ∙ omega arith)
  | no h ↦ elim (dec_lt c 0x800) [
    | yes k ↦ rw (encode_two c (omega arith) k) (
        two_passes (0xc0 + c / 64) (0x80 + c % 64) (peek rest) (peek (drop 1 rest))
          (record { first = omega arith; second = omega arith })
        ∙ omega arith)
    | no k ↦ elim (dec_lt c 0x1_0000) [
      | yes l ↦ rw (encode_three c (omega arith) l) (
          three_passes (0xe0 + c / 4096) (0x80 + c / 64 % 64) (0x80 + c % 64) (peek rest) (record {
            first = omega arith;
            second = omega arith;
            third = omega arith;
            no_overlong = λ e. omega arith;
            no_surrogate = λ e. ground arith;
            no_special = λ e f. ground arith;
          })
          ∙ omega arith)
      | no l ↦ rw (encode_four c (omega arith)) (
          four_passes (0xf0 + c / 262144) (0x80 + c / 4096 % 64) (0x80 + c / 64 % 64)
            (0x80 + c % 64)
            (record {
              first = omega arith;
              second = omega arith;
              third = omega arith;
              fourth = omega arith;
              no_overlong = λ e. omega arith;
              no_large = λ e. omega arith;
            })
          ∙ omega arith)
    ]
  ]
]
