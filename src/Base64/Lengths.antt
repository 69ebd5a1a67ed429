-- ===== src/Base64/Lengths.antt =====
-- server/base64.c: what a successful decoding writes, and that it does not depend on the room.
use pand_ablocks_server.Prelude.{
  length-take_le, ℕ, suc, ◌+◌, ◌≤◌, ◌≡◌, ◌≢◌, refl, sym, ap, ◌∙◌, arith, Bool, true, false, List,
  [], ◌∷◌, some, ltb, if◌then◌else◌, length, take, Bool-cases, inl, inr,
}
use pand_ablocks_server.Base64.{
  Base64Status, Decoded, decode_blocks, base64_ok, base64_malformed, base64_overrun, trimmed_length,
  trim_pad, converted_length, base64_decode,
}
use pand_ablocks_server.Base64.Bounds.{converted_length-group, trimmed_length-le}

checked-eq :
    (malformed : Bool) (status : Base64Status) (out : List ℕ) (k : ℕ)
    → let r : Base64Status × List ℕ = if malformed then (base64_malformed, []) else (status, out) in
      (status ≡ base64_ok → length out ≡ k) → r.0 ≡ base64_ok → length r.1 ≡ k
checked-eq true status out k h e = absurd (cc e)
checked-eq false status out k h e = h e

length-decode_blocks_ok :
    (decode chars : List ℕ)
    → (decode_blocks decode chars).0 ≡ base64_ok
    → length (decode_blocks decode chars).1 ≡ converted_length (length chars)
unfolding decode_blocks
length-decode_blocks_ok decode (p ∷ q ∷ r ∷ s ∷ rest) =
    let e : suc (suc (suc (suc (length rest)))) ≡ 4 + length rest = omega arith in
    checked-eq _ (decode_blocks decode rest).0 (_ ∷ _ ∷ _ ∷ (decode_blocks decode rest).1) _
      (λ h. rw (e, converted_length-group) (omega (arith, length-decode_blocks_ok decode rest h)))
length-decode_blocks_ok decode (p ∷ q ∷ r ∷ []) =
    checked-eq _ base64_ok (_ ∷ _ ∷ []) _ (λ h. unfold converted_length in omega arith)
length-decode_blocks_ok decode (p ∷ q ∷ []) =
    checked-eq _ base64_ok (_ ∷ []) _ (λ h. unfold converted_length in omega arith)
length-decode_blocks_ok decode (p ∷ []) = λ e. absurd (cc e)
length-decode_blocks_ok decode [] = λ e. unfold converted_length in omega arith

-- The decoding of `n` characters.
abbrev decode_trimmed : List ℕ → List ℕ → ℕ → ℕ → Decoded
decode_trimmed decode string n max_length =
    if ltb max_length (converted_length n)
    then record { status = base64_overrun; converted = converted_length n; written = [] }
    else record {
      status = (decode_blocks decode (take n string)).0;
      converted = converted_length n;
      written = (decode_blocks decode (take n string)).1;
    }

base64_decode-trimmed :
    (decode string : List ℕ) (max_length n : ℕ)
    → trimmed_length string ≡ some n
    → base64_decode decode string max_length ≡ some (decode_trimmed decode string n max_length)
unfolding base64_decode
base64_decode-trimmed decode string max_length n e =
    elim (Bool-cases (ltb max_length (converted_length n))) [
      | inl t ↦ rw (e, base64_decode) (rw t)
      | inr t ↦ rw (e, base64_decode) (rw t)
    ]

decode_trimmed_ok :
    (decode string : List ℕ) (n max_length : ℕ)
    → n ≤ length string
    → let r = decode_trimmed decode string n max_length in
      r.status ≡ base64_ok
      → (length r.written ≡ r.converted)
        × (r.converted ≤ max_length)
        × ((room : ℕ) → r.converted ≤ room → decode_trimmed decode string n room ≡ r)
decode_trimmed_ok decode string n max_length le =
    elim (Bool-cases (ltb max_length (converted_length n))) [
      | inl t ↦ rw t (λ e. absurd (cc e))
      | inr t ↦ rw t (λ e. (
        rw (length-take_le n string le) at (length-decode_blocks_ok decode (take n string) e),
        ground arith,
        λ room fits. let u : ltb room (converted_length n) ≡ false = ground arith in rw u refl,
      ))
    ]

pub base64_decode-empty :
    (decode : List ℕ) (max_length : ℕ) (r : Decoded) → base64_decode decode [] max_length ≢ some r
unfolding base64_decode trimmed_length trim_pad
base64_decode-empty decode max_length r e = cc e

-- A successful decoding writes as many bytes as it reports, and does the same wherever they fit.
pub base64_decode_ok :
    (decode string : List ℕ) (max_length : ℕ) (r : Decoded)
    → base64_decode decode string max_length ≡ some r
    → r.status ≡ base64_ok
    → (length r.written ≡ r.converted)
      × (r.converted ≤ max_length)
      × ((room : ℕ) → r.converted ≤ room → base64_decode decode string room ≡ some r)
base64_decode_ok decode [] max_length r e ok_status =
    absurd (base64_decode-empty decode max_length r e)
base64_decode_ok decode (c ∷ cs) max_length r e ok_status =
    let (n, t, le) = trimmed_length-le (c ∷ cs) (λ k. absurd (cc k)) in
    let both : some (decode_trimmed decode (c ∷ cs) n max_length) ≡ some r =
      sym (base64_decode-trimmed decode (c ∷ cs) max_length n t) ∙ e in
    let same : decode_trimmed decode (c ∷ cs) n max_length ≡ r = cc both in
    let (eq, fits, anywhere) =
      decode_trimmed_ok decode (c ∷ cs) n max_length le
        (ap (λ (x : Decoded). x.status) same ∙ ok_status) in
    (
      rw same at eq,
      rw same at fits,
      λ room h.
          base64_decode-trimmed decode (c ∷ cs) room n t
          ∙ ap some (anywhere room (rw (sym same) at h) ∙ same),
    )
