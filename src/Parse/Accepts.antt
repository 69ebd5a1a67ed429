-- ===== src/Parse/Accepts.antt =====
-- server/utf8_check.c accepts a text exactly when it is the encoding of scalar values.
use native.Mathlib.Decide.{dec_lt}
use native.Mathlib.Nat.{le_refl}
use pand_ablocks_server.Prelude.{
  ℕ, zero, suc, ◌+◌, ◌-◌, ◌*◌, ◌/◌, ◌%◌, ◌≤◌, ◌<◌, ◌≡◌, ◌↔◌, refl, sym, ap, ◌∙◌, arith, List, [],
  ◌∷◌, ◌++◌, length, drop, peek, All, inl, inr, All-split, length-append,
}
use pand_ablocks_server.Parse.Utf8.{sequence_length, check_from, utf8_check}
use pand_ablocks_server.Parse.Ranges.{
  IsBytes, sequence_length_range, IsTwo, IsThree, IsFour, range_one, range-IsTwo, range-IsThree,
  range-IsFour, range_lengths,
}
use pand_ablocks_server.Parse.Scalars.{
  IsScalar, encode, encode_all, encode_one, encode_two, encode_three, encode_four, length_by_range,
  scalar_passes,
}

abbrev pub IsByte : ℕ → Type 0
IsByte ch = (0 < ch) × (ch < 256)

bytes : (s : List ℕ) → All IsByte s → IsBytes s
bytes [] a = record { a = omega arith; b = omega arith; c = omega arith; d = omega arith }
bytes (w ∷ []) (p, a) = record { a = p.1; b = omega arith; c = omega arith; d = omega arith }
bytes (w ∷ x ∷ []) (p, (q, a)) = record { a = p.1; b = q.1; c = omega arith; d = omega arith }
bytes (w ∷ x ∷ y ∷ []) (p, (q, (r, a))) = record { a = p.1; b = q.1; c = r.1; d = omega arith }
bytes (w ∷ x ∷ y ∷ z ∷ s) (p, (q, (r, (t, a)))) = record { a = p.1; b = q.1; c = r.1; d = t.1 }

-- The first sequence of a text, of `n + 1` bytes.
record IsFirst (n : ℕ) (s : List ℕ) (c : ℕ) (rest : List ℕ) : Type 0 where
  pub scalar : IsScalar c
  pub whole : s ≡ encode c ++ rest
  pub size : length (encode c) ≡ suc n

two-IsFirst : (a b : ℕ) (rest : List ℕ) → IsTwo a b → (c : ℕ) × IsFirst 1 (a ∷ b ∷ rest) c rest
two-IsFirst a b rest i =
    let c = (a - 0xc0) * 64 + (b - 0x80) in
    let f = i.first in
    let g = i.second in
    let e = encode_two c (omega arith) (omega arith) in
    let p : 0xc0 + c / 64 ≡ a = omega arith in
    let q : 0x80 + c % 64 ≡ b = omega arith in
    (
      c,
      record {
        scalar = record {
          not_nul = omega arith;
          not_surrogate = inl (omega arith);
          not_special = inl (omega arith);
          not_large = omega arith;
        };
        whole = rw (e, p, q) refl;
        size = rw e (omega arith);
      },
    )

three-IsFirst :
    (a b d : ℕ) (rest : List ℕ) → IsThree a b d → (c : ℕ) × IsFirst 2 (a ∷ b ∷ d ∷ rest) c rest
three-IsFirst a b d rest i =
    let c = (a - 0xe0) * 4096 + (b - 0x80) * 64 + (d - 0x80) in
    let f = i.first in
    let g = i.second in
    let h = i.third in
    let e = encode_three c (ground (arith, i.no_overlong)) (omega arith) in
    let p : 0xe0 + c / 4096 ≡ a = omega arith in
    let q : 0x80 + c / 64 % 64 ≡ b = omega arith in
    let r : 0x80 + c % 64 ≡ d = omega arith in
    (
      c,
      record {
        scalar = record {
          not_nul = ground (arith, i.no_overlong);
          not_surrogate = ground (arith, i.no_surrogate);
          not_special = ground (arith, i.no_special);
          not_large = omega arith;
        };
        whole = rw (e, p, q, r) refl;
        size = rw e (omega arith);
      },
    )

four-IsFirst :
    (a b d f : ℕ) (rest : List ℕ)
    → IsFour a b d f
    → (c : ℕ) × IsFirst 3 (a ∷ b ∷ d ∷ f ∷ rest) c rest
four-IsFirst a b d f rest i =
    let c = (a - 0xf0) * 262144 + (b - 0x80) * 4096 + (d - 0x80) * 64 + (f - 0x80) in
    let h = i.first in
    let g = i.second in
    let k = i.third in
    let l = i.fourth in
    let low : 0x1_0000 ≤ c = ground (arith, i.no_overlong) in
    let e = encode_four c low in
    let p : 0xf0 + c / 262144 ≡ a = omega arith in
    let q : 0x80 + c / 4096 % 64 ≡ b = omega arith in
    let r : 0x80 + c / 64 % 64 ≡ d = omega arith in
    let t : 0x80 + c % 64 ≡ f = omega arith in
    (
      c,
      record {
        scalar = record {
          not_nul = omega arith;
          not_surrogate = inr (omega arith);
          not_special = inr low;
          not_large = ground (arith, i.no_large);
        };
        whole = rw (e, p, q, r, t) refl;
        size = rw e (omega arith);
      },
    )

-- A sequence that passes is the encoding of a scalar value.
passed-IsFirst :
    (n : ℕ) (s : List ℕ)
    → 0 < peek s
    → length_by_range s ≡ suc n
    → (c : ℕ) × (rest : List ℕ) × IsFirst n s c rest
passed-IsFirst n [] p e = absurd (omega arith)
passed-IsFirst zero (a ∷ s) p e =
    let h = range_one a (peek s) (peek (drop 1 s)) (peek (drop 2 s)) (e ∙ omega arith) in
    (
      a,
      s,
      record {
        scalar = record {
          not_nul = p;
          not_surrogate = inl (omega arith);
          not_special = inl (omega arith);
          not_large = omega arith;
        };
        whole = rw (encode_one a h) refl;
        size = rw (encode_one a h) refl;
      },
    )
passed-IsFirst (suc zero) (a ∷ s) p e =
    two s (range-IsTwo a (peek s) (peek (drop 1 s)) (peek (drop 2 s)) (e ∙ omega arith))
  where
    two : (s : List ℕ) → IsTwo a (peek s) → (c : ℕ) × (rest : List ℕ) × IsFirst 1 (a ∷ s) c rest
    two [] i = absurd (let g = i.second in omega arith)
    two (b ∷ rest) i = let (c, f) = two-IsFirst a b rest i in (c, rest, f)
passed-IsFirst (suc (suc zero)) (a ∷ s) p e =
    three s (range-IsThree a (peek s) (peek (drop 1 s)) (peek (drop 2 s)) (e ∙ omega arith))
  where
    three :
        (s : List ℕ)
        → IsThree a (peek s) (peek (drop 1 s))
        → (c : ℕ) × (rest : List ℕ) × IsFirst 2 (a ∷ s) c rest
    three [] i = absurd (let g = i.second in omega arith)
    three (b ∷ []) i = absurd (let g = i.third in omega arith)
    three (b ∷ d ∷ rest) i = let (c, f) = three-IsFirst a b d rest i in (c, rest, f)
passed-IsFirst (suc (suc (suc zero))) (a ∷ s) p e =
    four s (range-IsFour a (peek s) (peek (drop 1 s)) (peek (drop 2 s)) (e ∙ omega arith))
  where
    four :
        (s : List ℕ)
        → IsFour a (peek s) (peek (drop 1 s)) (peek (drop 2 s))
        → (c : ℕ) × (rest : List ℕ) × IsFirst 3 (a ∷ s) c rest
    four [] i = absurd (let g = i.second in omega arith)
    four (b ∷ []) i = absurd (let g = i.third in omega arith)
    four (b ∷ d ∷ []) i = absurd (let g = i.fourth in omega arith)
    four (b ∷ d ∷ f ∷ rest) i = let (c, f) = four-IsFirst a b d f rest i in (c, rest, f)
passed-IsFirst (suc (suc (suc (suc n)))) (a ∷ s) p e = absurd (
    let h =
      range_lengths a (peek s) (peek (drop 1 s)) (peek (drop 2 s)) (suc (suc (suc (suc n)))) e in
    omega arith)

skipped : (xs rest : List ℕ) → check_from (length xs) (xs ++ rest) ≡ check_from 0 rest
unfolding check_from
skipped [] rest = refl
skipped (x ∷ xs) [] = skipped xs []
skipped (x ∷ xs) (y ∷ rest) = skipped xs (y ∷ rest)

-- The loop goes past the first sequence.
sequence_passes :
    (n : ℕ) (s xs rest : List ℕ)
    → s ≡ xs ++ rest
    → length xs ≡ suc n
    → sequence_length s ≡ suc n
    → check_from 0 s ≡ check_from 0 rest
unfolding check_from
sequence_passes n s [] rest e l q = absurd (omega arith)
sequence_passes n s (x ∷ xs) rest e l q =
    let m : n ≡ length xs = omega arith in
    let q' : sequence_length (x ∷ (xs ++ rest)) ≡ suc (length xs) = rw (sym e, sym m) q in
    rw e (rw (check_from, q') (skipped xs rest))

-- A text whose first sequence is refused is not used up.
refused : (ch : ℕ) (s : List ℕ) → sequence_length (ch ∷ s) ≡ 0 → check_from 0 (ch ∷ s) ≡ ch ∷ s
unfolding check_from
refused ch s e = rw (check_from, e) refl

abbrev Scalars : List ℕ → Type 0
Scalars s = (cs : List ℕ) × All IsScalar cs × (s ≡ encode_all cs)

encode_size : (c : ℕ) → IsScalar c → (n : ℕ) × (length (encode c) ≡ suc n)
encode_size c i = elim (dec_lt c 0x80) [
  | yes h ↦ (0, rw (encode_one c h) (omega arith))
  | no h ↦ elim (dec_lt c 0x800) [
    | yes k ↦ (1, rw (encode_two c (omega arith) k) (omega arith))
    | no k ↦ elim (dec_lt c 0x1_0000) [
      | yes l ↦ (2, rw (encode_three c (omega arith) l) (omega arith))
      | no l ↦ (3, rw (encode_four c (omega arith)) (omega arith))
    ]
  ]
]

IsByte-tail : (xs rest : List ℕ) (s : List ℕ) → s ≡ xs ++ rest → All IsByte s → All IsByte rest
IsByte-tail xs rest s e a = (All-split IsByte xs rest (rw (sym e) a)).1

-- One sequence more at the front; the shorter texts are known.
one_more :
    (ch : ℕ) (s : List ℕ)
    → All IsByte (ch ∷ s)
    → check_from 0 (ch ∷ s) ≡ []
    → ((rest : List ℕ)
        → length rest ≤ length s
        → All IsByte rest
        → check_from 0 rest ≡ []
        → Scalars rest)
    → (n : ℕ) → sequence_length (ch ∷ s) ≡ n
    → Scalars (ch ∷ s)
unfolding encode_all
one_more ch s a e known zero q = cc (sym (refused ch s q) ∙ e)
one_more ch s a e known (suc n) q =
    let r = sym (sequence_length_range (ch ∷ s) (bytes (ch ∷ s) a)) ∙ q in
    let (c, rest, f) = passed-IsFirst n (ch ∷ s) a.0.0 r in
    let w = f.whole in
    let shorter : suc (length s) ≡ length (encode c) + length rest =
      ap length w ∙ length-append (encode c) rest in
    let next : check_from 0 rest ≡ [] =
      sym (sequence_passes n (ch ∷ s) (encode c) rest w f.size q) ∙ e in
    let (cs, i, t) =
      known rest (omega (arith, shorter, f.size)) (IsByte-tail (encode c) rest (ch ∷ s) w a) next in
    (c ∷ cs, (f.scalar, i), w ∙ ap (λ x. encode c ++ x) t)

accepted-Scalars :
    (fuel : ℕ) (s : List ℕ) → length s ≤ fuel → All IsByte s → check_from 0 s ≡ [] → Scalars s
unfolding encode_all
accepted-Scalars fuel [] h a e = ([], tt, refl)
accepted-Scalars zero (ch ∷ s) h a e = absurd (omega arith)
accepted-Scalars (suc fuel) (ch ∷ s) h a e =
    one_more ch s a e (λ rest l b x. accepted-Scalars fuel rest (omega arith) b x)
      (sequence_length (ch ∷ s)) refl

encoded-accepted :
    (cs : List ℕ) → All IsScalar cs → All IsByte (encode_all cs) → check_from 0 (encode_all cs) ≡ []
unfolding encode_all check_from
encoded-accepted [] i a = refl
encoded-accepted (c ∷ cs) (i, is) a =
    let s = encode c ++ encode_all cs in
    let p = scalar_passes c (encode_all cs) i in
    let (n, size) = encode_size c i in
    let q : sequence_length s ≡ suc n = sequence_length_range s (bytes s a) ∙ p ∙ size in
    sequence_passes n s (encode c) (encode_all cs) refl size q
    ∙ encoded-accepted cs is (All-split IsByte (encode c) (encode_all cs) a).1

-- For every C string, `utf8_check` reaches its end exactly when the string is the encoding of
-- Unicode scalar values, none of which is 0, U+FFFE or U+FFFF, each in its shortest form.
pub utf8_check_iff :
    (s : List ℕ)
    → All IsByte s
    → (utf8_check s ≡ []) ↔ ((cs : List ℕ) × All IsScalar cs × (s ≡ encode_all cs))
unfolding utf8_check
utf8_check_iff s a = (
  accepted-Scalars (length s) s (le_refl (length s)) a,
  λ (cs, i, e). rw e (encoded-accepted cs i (rw (sym e) a)),
)
