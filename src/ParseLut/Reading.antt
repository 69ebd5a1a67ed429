-- ===== src/ParseLut/Reading.antt =====
-- What `read_token` of server/parse_lut.c takes from the input.
use pand_ablocks_server.Prelude.{
  ℕ, zero, suc, ◌+◌, ◌*◌, ◌≤◌, ◌<◌, ◌≡◌, refl, arith, true, List, [], ◌∷◌, some, ◌==◌,
  if◌then◌else◌, length, drop, Bool-cases, inl, inr, peek, Option-cases,
}
use pand_ablocks_server.ParseLut.Tokens.{Token, Status, parse_ok, is_ok}
use pand_ablocks_server.ParseLut.{
  Ops, Parser, is_end, read_char, read_equals, is_constant, simple_token, read_token,
}

-- Two for each character that is left, and for the next token.
abbrev pub pending : Token → ℕ
pending t = if is_end t then 0 else 2

abbrev pub left {ℓ} : {V : Type ℓ} → Parser V → ℕ
left p = 2 * length p.input + pending p.next_token

length-drop : (s : List ℕ) → length (drop 1 s) ≤ length s
length-drop [] = omega arith
length-drop (c ∷ s) = omega arith

read_char_lem :
    (s : List ℕ) → length (read_char s).1 + (if (read_char s).0 == 0 then 0 else 1) ≤ length s
unfolding read_char
read_char_lem [] = omega arith
read_char_lem (ch ∷ s) = ground (arith, read_char_lem s)

-- Only the end leaves nothing pending.
constant_pending :
    (ch n m : ℕ) → is_constant ch ≡ true → n + (if ch == 0 then 0 else 1) ≤ m → 2 * n + 2 ≤ 2 * m
unfolding is_constant
constant_pending zero n m t h = cc t
constant_pending (suc ch) n m t h = ground arith

simple_pending :
    (ch n m : ℕ) (token : Token)
    → simple_token ch ≡ some token
    → n + (if ch == 0 then 0 else 1) ≤ m
    → 2 * n + pending token ≤ 2 * m
unfolding simple_token
simple_pending zero n m token t h = ground (arith, t, h)
simple_pending (suc ch) n m token t h = pending_two n m token (ground arith)
  where
    pending_two : (n m : ℕ) (token : Token) → n + 1 ≤ m → 2 * n + pending token ≤ 2 * m
    pending_two n m token h = ground arith

module _ {ℓ} {V : Type ℓ} (o : Ops V) where
  pub record IsRead (p : Parser V) (r : Status × Parser V) : Type ℓ where
    pub same_tokens : r.1.token_stack ≡ p.token_stack
    pub same_values : r.1.value_stack ≡ p.value_stack
    pub consumed : is_ok r.0 ≡ true → left r.1 ≤ 2 * length p.input

  read_equals_lem :
      (p : Parser V) (s : List ℕ)
      → length s < length p.input
      → IsRead p (parse_ok, read_equals o p s)
  unfolding read_equals
  read_equals_lem p s h = elim (Bool-cases (peek s == b'>')) [
    | inl t ↦ rw t (record {
      same_tokens = refl;
      same_values = refl;
      consumed = λ e. omega (arith, length-drop s);
    })
    | inr t ↦ rw t (elim (Bool-cases (peek s == b'=')) [
      | inl u ↦ rw u (record {
        same_tokens = refl;
        same_values = refl;
        consumed = λ e. omega (arith, length-drop s);
      })
      | inr u ↦
          rw u (record { same_tokens = refl; same_values = refl; consumed = λ e. omega arith })
    ])
  ]

  pub read_token-IsRead : (p : Parser V) → IsRead p (read_token o p)
  unfolding read_token
  read_token-IsRead p =
      let c = read_char_lem p.input in
      elim (Bool-cases (is_constant (read_char p.input).0)) [
        | inl t ↦ rw t (record {
          same_tokens = refl;
          same_values = refl;
          consumed = λ e.
              constant_pending (read_char p.input).0 (length (read_char p.input).1) (length p.input)
                t c;
        })
        | inr t ↦ rw t (elim (Bool-cases ((read_char p.input).0 == b'=')) [
          | inl u ↦ rw u (read_equals_lem p (read_char p.input).1 (ground (arith, u, c)))
          | inr u ↦ rw u (elim (Option-cases (simple_token (read_char p.input).0)) [
            | inl v ↦ rw v (record { same_tokens = refl; same_values = refl; consumed = λ e. cc e })
            | inr (token, v) ↦ rw v (record {
              same_tokens = refl;
              same_values = refl;
              consumed = λ e.
                  simple_pending (read_char p.input).0 (length (read_char p.input).1)
                    (length p.input) token v c;
            })
          ])
        ])
      ]
