-- ===== src/Base64/Bounds.antt =====
-- How much memory server/base64.c writes, and on which input its decoder is defined.
use pand_ablocks_server.Prelude.{
  length-take_le, ℕ, zero, suc, ◌+◌, ◌*◌, ◌/◌, ◌%◌, ◌≤◌, ◌<◌, ◌≡◌, ◌≢◌, ◌↔◌, refl, arith, Bool,
  true, false, List, [], ◌∷◌, some, ltb, ◌==◌, if◌then◌else◌, length, take, get_or, Bool-cases, inl,
  inr,
}
use pand_ablocks_server.Base64.{
  base64_encode, Base64Status, Decoded, decode_blocks, trim_pad, base64_ok, base64_malformed,
  base64_overrun, trimmed_length, converted_length, base64_decode,
}

-- `base64_encode` writes four characters for each group of up to three bytes, and a NUL.
pub length-base64_encode :
    (bytes : List ℕ) → length (base64_encode bytes) ≡ 4 * ((length bytes + 2) / 3) + 1
unfolding base64_encode
length-base64_encode (a ∷ b ∷ c ∷ rest) = omega (arith, length-base64_encode rest)
length-base64_encode (a ∷ b ∷ []) = refl
length-base64_encode (a ∷ []) = refl
length-base64_encode [] = refl

checked-le :
    (malformed : Bool) (status : Base64Status) (out : List ℕ) (k : ℕ)
    → length out ≤ k
    → let r : Base64Status × List ℕ = if malformed then (base64_malformed, []) else (status, out) in
      length r.1 ≤ k
checked-le true status out k h = omega arith
checked-le false status out k h = h

checked-ne :
    (malformed : Bool) (status : Base64Status) (out : List ℕ)
    → status ≢ base64_overrun
    → let r : Base64Status × List ℕ = if malformed then (base64_malformed, []) else (status, out) in
      r.0 ≢ base64_overrun
checked-ne true status out h = λ e. cc e
checked-ne false status out h = h

pub converted_length-group : (n : ℕ) → converted_length (4 + n) ≡ 3 + converted_length n
unfolding converted_length
converted_length-group n = ground arith

length-decode_blocks :
    (decode chars : List ℕ)
    → length (decode_blocks decode chars).1 ≤ converted_length (length chars)
unfolding decode_blocks
length-decode_blocks decode (p ∷ q ∷ r ∷ s ∷ rest) =
    let e : suc (suc (suc (suc (length rest)))) ≡ 4 + length rest = omega arith in
    checked-le _ (decode_blocks decode rest).0 (_ ∷ _ ∷ _ ∷ (decode_blocks decode rest).1) _
      (rw (e, converted_length-group) (omega (arith, length-decode_blocks decode rest)))
length-decode_blocks decode (p ∷ q ∷ r ∷ []) =
    checked-le _ base64_ok (_ ∷ _ ∷ []) _ (unfold converted_length in omega arith)
length-decode_blocks decode (p ∷ q ∷ []) =
    checked-le _ base64_ok (_ ∷ []) _ (unfold converted_length in omega arith)
length-decode_blocks decode (p ∷ []) = omega arith
length-decode_blocks decode [] = omega arith

decode_blocks-ne-overrun : (decode chars : List ℕ) → (decode_blocks decode chars).0 ≢ base64_overrun
unfolding decode_blocks
decode_blocks-ne-overrun decode (p ∷ q ∷ r ∷ s ∷ rest) =
    checked-ne _ _ (_ ∷ _ ∷ _ ∷ (decode_blocks decode rest).1)
      (decode_blocks-ne-overrun decode rest)
decode_blocks-ne-overrun decode (p ∷ q ∷ r ∷ []) = checked-ne _ base64_ok (_ ∷ _ ∷ []) (λ e. cc e)
decode_blocks-ne-overrun decode (p ∷ q ∷ []) = checked-ne _ base64_ok (_ ∷ []) (λ e. cc e)
decode_blocks-ne-overrun decode (p ∷ []) = λ e. cc e
decode_blocks-ne-overrun decode [] = λ e. cc e

trim_pad-le :
    (string : List ℕ) (n : ℕ)
    → 0 < n
    → (m : ℕ) × (trim_pad string n ≡ some m) × (m ≤ n) × (n ≤ m + 1)
unfolding trim_pad
trim_pad-le string zero h = absurd (omega arith)
trim_pad-le string (suc n) h = elim (Bool-cases (get_or string n 0 == b'=')) [
  | inl t ↦ (n, rw t, omega arith, omega arith)
  | inr t ↦ (suc n, rw t, omega arith, omega arith)
]

pub trimmed_length-le :
    (string : List ℕ)
    → string ≢ []
    → (n : ℕ) × (trimmed_length string ≡ some n) × (n ≤ length string)
unfolding trimmed_length
trimmed_length-le [] h = absurd (h refl)
trimmed_length-le (c ∷ rest) h = elim (Bool-cases (length (c ∷ rest) % 4 == 0)) [
  | inr t ↦ (length (c ∷ rest), rw t, omega arith)
  | inl t ↦
      let (m, e, le, ge) = trim_pad-le (c ∷ rest) (length (c ∷ rest)) (omega arith) in
      let whole : 4 ≤ length (c ∷ rest) = ground arith in
      let (n, f, le', ge') = trim_pad-le (c ∷ rest) m (omega arith) in
      (n, rw (t, e, f), omega arith)
]

-- On every string but the empty one `base64_decode` is defined, whatever the decoding table holds.
-- It never writes more than `max_length` bytes, it writes at most the converted length that it
-- reports, and it reports an overrun exactly when that length is more than `max_length`.
pub base64_decode_bounds :
    (decode string : List ℕ) (max_length : ℕ)
    → string ≢ []
    → (r : Decoded) × (base64_decode decode string max_length ≡ some r)
      × (length r.written ≤ r.converted)
      × (length r.written ≤ max_length)
      × ((r.status ≡ base64_overrun) ↔ (max_length < r.converted))
unfolding base64_decode
base64_decode_bounds decode string max_length h =
    let (n, e, le) = trimmed_length-le string h in
    let k = converted_length n in
    let out = decode_blocks decode (take n string) in
    let small : length out.1 ≤ k =
      rw (length-take_le n string le) at (length-decode_blocks decode (take n string)) in
    elim (Bool-cases (ltb max_length k)) [
      | inl over ↦ (
        record { status = base64_overrun; converted = k; written = [] },
        rw (e, base64_decode) (rw over),
        omega arith,
        omega arith,
        ((λ _. ground arith), (λ _. refl)),
      )
      | inr fits ↦ (
        record { status = out.0; converted = k; written = out.1 },
        rw (e, base64_decode) (rw fits),
        small,
        ground arith,
        (
          (λ s. absurd (decode_blocks-ne-overrun decode (take n string) s)),
          (λ lt. absurd (ground arith)),
        ),
      )
    ]
