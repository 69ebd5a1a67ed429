-- ===== src/ParseLut/Rows.antt =====
-- The parser of server/parse_lut.c at one row of the truth table: the same expression, worked out
-- on truth values.
use pand_ablocks_server.Prelude.{
  ℕ, zero, suc, ◌+◌, ◌*◌, ◌<◌, ◌≡◌, refl, sym, ap, ◌∙◌, ◌&&◌, List, [], ◌∷◌, map, Option, none,
  some, ltb, leb, ◌==◌, length, Bool-cases, inl, inr, Option-cases, peek,
}
use pand_ablocks_server.ParseLut.Tokens.{
  max_depth, Token, token_constant, token_ket, token_not, token_eq, token_and, token_xor, token_or,
  token_implies, token_else, token_arity, Status, is_ok, Action, lt, eq, gt, pr, error,
  lookup_action,
}
use pand_ablocks_server.ParseLut.{
  Ops, Parser, word_ops, is_end, read_char, read_equals, is_constant, simple_token, read_token,
  reduce, push_token, reduce_stack, perform, parse_step, busy, parse_loop, parse_lut, LutResult,
  stored, failed, extract_result, finish, start,
}
use pand_ablocks_server.ParseLut.Truth.{IsHom, test_bit, row_ops, row_IsHom}

abbrev pub map_option {ℓ κ} : {A : Type ℓ} {B : Type κ} → (A → B) → Option A → Option B
map_option f none = none
map_option f (some a) = some (f a)

abbrev pub map_result {ℓ κ} : {V : Type ℓ} {W : Type κ} → (V → W) → LutResult V → LutResult W
map_result h (stored v) = stored (h v)
map_result h (failed status) = failed status

module _ {ℓ κ} {V : Type ℓ} {W : Type κ} (o : Ops V) (o' : Ops W) (h : V → W)
    (hom : IsHom o o' h) where
  abbrev image : Parser V → Parser W
  image p = record {
    input = p.input;
    next_token = p.next_token;
    value = h p.value;
    token_stack = p.token_stack;
    value_stack = map h p.value_stack;
  }

  abbrev image_round : Status × Parser V → Status × Parser W
  image_round (status, p) = (status, image p)

  length-image : (vs : List V) → length (map h vs) ≡ length vs
  length-image [] = refl
  length-image (v ∷ vs) = ap suc (length-image vs)

  read_equals-image :
      (p : Parser V) (s : List ℕ) → read_equals o' (image p) s ≡ image (read_equals o p s)
  unfolding read_equals
  read_equals-image p s = elim (Bool-cases (peek s == b'>')) [
    | inl t ↦ rw t refl
    | inr t ↦ rw t (elim (Bool-cases (peek s == b'=')) [ inl u ↦ rw u refl | inr u ↦ rw u refl ])
  ]

  read_token-image : (p : Parser V) → read_token o' (image p) ≡ image_round (read_token o p)
  unfolding read_token
  read_token-image p = elim (Bool-cases (is_constant (read_char p.input).0)) [
    | inl t ↦ rw (t, hom.on_constant (read_char p.input).0) refl
    | inr t ↦ rw t (elim (Bool-cases ((read_char p.input).0 == b'=')) [
      | inl u ↦ rw (u, read_equals-image p (read_char p.input).1) refl
      | inr u ↦ rw u (elim (Option-cases (simple_token (read_char p.input).0)) [
        | inl v ↦ rw v refl
        | inr (token, v) ↦ rw v refl
      ])
    ])
  ]

  reduce-image :
      (t : Token) (value : V) (vs : List V)
      → reduce o' t (h value) (map h vs) ≡ map_option (map h) (reduce o t value vs)
  unfolding reduce
  reduce-image token_constant value vs = refl
  reduce-image token_not value (x ∷ vs) = rw (hom.on_complement x) refl
  reduce-image token_and value (y ∷ x ∷ vs) = rw (hom.on_conj x y) refl
  reduce-image token_or value (y ∷ x ∷ vs) = rw (hom.on_disj x y) refl
  reduce-image token_eq value (y ∷ x ∷ vs) =
      rw (hom.on_complement (o.differ x y), hom.on_differ x y) refl
  reduce-image token_xor value (y ∷ x ∷ vs) = rw (hom.on_differ x y) refl
  reduce-image token_implies value (y ∷ x ∷ vs) =
      rw (hom.on_disj (o.complement x) y, hom.on_complement x) refl
  reduce-image token_ket value (x ∷ vs) = refl
  reduce-image token_else value (z ∷ y ∷ x ∷ vs) =
      rw
        (
          hom.on_disj (o.conj x y) (o.conj (o.complement x) z),
          hom.on_conj x y,
          hom.on_conj (o.complement x) z,
          hom.on_complement x,
        )
        refl
  reduce-image _ value vs = refl

  push_token-image : (p : Parser V) → push_token o' (image p) ≡ image_round (push_token o p)
  unfolding push_token
  push_token-image p = elim (Bool-cases (length p.token_stack == max_depth)) [
    | inl t ↦ rw t refl
    | inr t ↦ rw t (read_token-image (record p { token_stack = p.next_token ∷ p.token_stack }))
  ]

  reduce_stack-image :
      (t : Token) (p : Parser V)
      → reduce_stack o' t (image p) ≡ map_option image_round (reduce_stack o t p)
  unfolding reduce_stack
  reduce_stack-image t p =
      rw (length-image p.value_stack, reduce-image t p.value p.value_stack)
        (elim (Bool-cases (ltb (length p.value_stack) (token_arity t))) [
          | inl b ↦ rw b refl
          | inr b ↦ rw b (elim (Option-cases (reduce o t p.value p.value_stack)) [
            | inl e ↦ rw e refl
            | inr (vs, e) ↦
                rw (e, length-image vs)
                  (elim (Bool-cases (leb (length vs) max_depth)) [
                    | inl c ↦ rw c refl
                    | inr c ↦ rw c refl
                  ])
          ])
        ])

  perform-image :
      (t : Token) (a : Action) (p : Parser V)
      → perform o' t a (image p) ≡ map_option image_round (perform o t a p)
  unfolding perform
  perform-image t lt p = elim (Bool-cases (is_end p.next_token)) [
    | inl e ↦ rw e refl
    | inr e ↦ rw e (ap some (push_token-image p))
  ]
  perform-image t eq p = elim (Bool-cases (is_end p.next_token)) [
    | inl e ↦ rw e refl
    | inr e ↦ rw e (ap some (push_token-image p))
  ]
  perform-image t gt p = reduce_stack-image t p
  perform-image t (error status) p = refl
  perform-image t pr p = refl

  at_stack :
      (ts : List Token) (p : Parser V)
      → parse_step o' (image (record p { token_stack = ts }))
        ≡ map_option image_round (parse_step o (record p { token_stack = ts }))
  unfolding parse_step
  at_stack [] p = refl
  at_stack (t ∷ ts) p =
      perform-image t (lookup_action t p.next_token) (record p { token_stack = t ∷ ts })

  parse_loop-image :
      (fuel : ℕ) (status : Status) (p : Parser V)
      → parse_loop o' fuel status (image p) ≡ map_option image_round (parse_loop o fuel status p)
  unfolding parse_loop
  parse_loop-image zero status p = refl
  parse_loop-image (suc fuel) status p = elim (Bool-cases (is_ok status && busy o p)) [
    | inl t ↦
        rw (t, parse_loop, at_stack p.token_stack p)
          (elim (Option-cases (parse_step o p)) [
            | inl e ↦ rw (e, parse_loop) refl
            | inr ((status', p'), e) ↦ rw (e, parse_loop) (parse_loop-image fuel status' p')
          ])
    | inr t ↦ rw (t, parse_loop) refl
  ]

  extract_result-image :
      (vs : List V) → extract_result o' (map h vs) ≡ map_result h (extract_result o vs)
  unfolding extract_result
  extract_result-image [] = refl
  extract_result-image (v ∷ []) = refl
  extract_result-image (v ∷ w ∷ vs) = refl

  finish-image :
      (r : Option (Status × Parser V))
      → finish o' (map_option image_round r) ≡ map_option (map_result h) (finish o r)
  unfolding finish
  finish-image none = refl
  finish-image (some (status, p)) = elim (Bool-cases (is_ok status)) [
    | inl t ↦ rw t (ap some (extract_result-image p.value_stack))
    | inr t ↦ rw t refl
  ]

  pub parse_lut-image :
      (input : List ℕ) → parse_lut o' input ≡ map_option (map_result h) (parse_lut o input)
  unfolding parse_lut
  parse_lut-image input =
      let begin : start o' input ≡ image (start o input) =
        ap (λ v. record (start o' input) { value = v }) (sym (hom.on_constant 0)) in
      let e : read_token o' (start o' input) ≡ image_round (read_token o (start o input)) =
        ap (read_token o') begin ∙ read_token-image (start o input) in
      let (status, p) = read_token o (start o input) in
      rw (e, parse_loop-image (2 * length input + 4) status p)
        (finish-image (parse_loop o (2 * length input + 4) status p))

-- For each row below 32 and every input, the parser on truth values, where A to E are the digits of
-- the row's number and A is the highest, gives the same status as the parser on words, and the bit
-- of the word at that row if one is stored.
pub parse_lut_row :
    (row : ℕ) (input : List ℕ)
    → row < 32
    → parse_lut (row_ops row) input
      ≡ map_option (map_result (test_bit row)) (parse_lut word_ops input)
parse_lut_row row input h =
    parse_lut-image word_ops (row_ops row) (test_bit row) (row_IsHom row h) input
