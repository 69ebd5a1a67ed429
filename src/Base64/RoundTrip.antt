-- ===== src/Base64/RoundTrip.antt =====
-- Decoding undoes encoding (server/base64.c).
use mathlib.Core.List.{append_assoc}
use pand_ablocks_server.Prelude.{
  ℕ, suc, ◌+◌, ◌-◌, ◌*◌, ◌/◌, ◌%◌, ◌≤◌, ◌<◌, ◌≡◌, ◌≢◌, refl, sym, ap, ◌∙◌, arith, true, false, List,
  [], ◌∷◌, ◌++◌, some, bit_and, bit_or, u8, ltb, ◌==◌, length, get_or, take, length-append, ◌⊎◌,
  inl, inr, c_string, All, All-append, All-get_or, get_or-append_left, get_or-append_right,
  take-append, c_string-append,
}
use pand_ablocks_server.Prelude.Bits.{bit_or-shift, bit_and-mask, bit_or-lt}
use pand_ablocks_server.Base64.{
  encode_at, base64_encode, initialise_base64, base64_ok, decode_blocks, trim_pad, trimmed_length,
  converted_length, base64_decode,
}
use pand_ablocks_server.Base64.Tables.{encode_at_lem}

-- The four codes of a group, as sums.
high_code : (a b : ℕ) → b < 256 → bit_and (bit_or (a * 16) (b / 16)) 0x3f ≡ a % 4 * 16 + b / 16
high_code a b h =
    bit_and-mask 6 (bit_or (a * 16) (b / 16))
    ∙ rw (bit_or-shift 4 a (b / 16) (omega arith)) (omega arith)

mid_code : (b c : ℕ) → c < 256 → bit_and (bit_or (b * 4) (c / 64)) 0x3f ≡ b % 16 * 4 + c / 64
mid_code b c h =
    bit_and-mask 6 (bit_or (b * 4) (c / 64))
    ∙ rw (bit_or-shift 2 b (c / 64) (omega arith)) (omega arith)

low_code : (c : ℕ) → bit_and c 0x3f ≡ c % 64
low_code c = bit_and-mask 6 c

-- The bytes of a group, from its codes.
byte_high : (i j : ℕ) → j < 64 → u8 (bit_or (i * 4) (j / 16)) ≡ (i * 4 + j / 16) % 256
byte_high i j h = rw (bit_or-shift 2 i (j / 16) (omega arith))

byte_mid : (i j : ℕ) → j < 64 → u8 (bit_or (i * 16) (j / 4)) ≡ (i * 16 + j / 4) % 256
byte_mid i j h = rw (bit_or-shift 4 i (j / 4) (omega arith))

byte_low : (i j : ℕ) → j < 64 → u8 (bit_or (i * 64) j) ≡ (i * 64 + j) % 256
byte_low i j h = rw (bit_or-shift 6 i j h)

abbrev pub IsByte : ℕ → Type 0
IsByte x = x < 256

-- The characters that stand for the data, without padding and NUL, and the padding.
code_chars : List ℕ → List ℕ
code_chars (a ∷ b ∷ c ∷ rest) =
    encode_at (a / 4)
    ∷ encode_at (a % 4 * 16 + b / 16)
    ∷ encode_at (b % 16 * 4 + c / 64)
    ∷ encode_at (c % 64)
    ∷ code_chars rest
code_chars (a ∷ b ∷ []) =
    encode_at (a / 4) ∷ encode_at (a % 4 * 16 + b / 16) ∷ encode_at (b % 16 * 4) ∷ []
code_chars (a ∷ []) = encode_at (a / 4) ∷ encode_at (a % 4 * 16) ∷ []
code_chars [] = []

padding : List ℕ → List ℕ
padding (a ∷ b ∷ c ∷ rest) = padding rest
padding (a ∷ b ∷ []) = b'=' ∷ []
padding (a ∷ []) = b'=' ∷ b'=' ∷ []
padding [] = []

base64_encode-code_chars :
    (bytes : List ℕ)
    → All IsByte bytes
    → base64_encode bytes ≡ code_chars bytes ++ (padding bytes ++ (0 ∷ []))
unfolding base64_encode code_chars padding
base64_encode-code_chars (a ∷ b ∷ c ∷ rest) h =
    rw
      (high_code a b h.1.0, mid_code b c h.1.1.0, low_code c, base64_encode-code_chars rest h.1.1.1)
base64_encode-code_chars (a ∷ b ∷ []) h =
    let e : b * 4 % 64 ≡ b % 16 * 4 = omega arith in
    rw (high_code a b h.1.0, bit_and-mask 6 (b * 4), e)
base64_encode-code_chars (a ∷ []) h =
    let e : a * 16 % 64 ≡ a % 4 * 16 = omega arith in rw (bit_and-mask 6 (a * 16), e)
base64_encode-code_chars [] h = refl

-- Every character that stands for data is a proper one.
abbrev IsProper : ℕ → Type 0
IsProper c = (c ≢ 0) × (c ≢ b'=')

proper : (i : ℕ) → i < 64 → IsProper (encode_at i)
proper i h = ((encode_at_lem i h).1, (encode_at_lem i h).2)

code_chars-IsProper : (bytes : List ℕ) → All IsByte bytes → All IsProper (code_chars bytes)
unfolding code_chars
code_chars-IsProper (a ∷ b ∷ c ∷ rest) h = (
  proper _ (omega (arith, h.0)),
  (
    proper _ (omega (arith, h.1.0)),
    (proper _ (omega (arith, h.1.1.0)), (proper _ (omega arith), code_chars-IsProper rest h.1.1.1)),
  ),
)
code_chars-IsProper (a ∷ b ∷ []) h =
    (proper _ (omega (arith, h.0)), (proper _ (omega (arith, h.1.0)), (proper _ (omega arith), tt)))
code_chars-IsProper (a ∷ []) h = (proper _ (omega (arith, h.0)), (proper _ (omega arith), tt))
code_chars-IsProper [] h = tt

abbrev D : List ℕ
D = initialise_base64

-- Codes below 64 never look malformed.
not_malformed : (x : ℕ) → x < 64 → (x == 0xff) ≡ false
not_malformed x h = ground arith

decode-group :
    (i j k l : ℕ) (rest : List ℕ)
    → (i < 64) × (j < 64) × (k < 64) × (l < 64)
    → decode_blocks D (encode_at i ∷ encode_at j ∷ encode_at k ∷ encode_at l ∷ rest) ≡ (
      (decode_blocks D rest).0,
      (i * 4 + j / 16) % 256
          ∷ (j * 16 + k / 4) % 256
          ∷ (k * 64 + l) % 256
          ∷ (decode_blocks D rest).1,
    )
unfolding decode_blocks
decode-group i j k l rest h =
    rw
      (
        (encode_at_lem i h.0).0,
        (encode_at_lem j h.1).0,
        (encode_at_lem k h.2).0,
        (encode_at_lem l h.3).0,
        not_malformed _ (bit_or-lt 6 _ l (bit_or-lt 6 _ k (bit_or-lt 6 i j h.0 h.1) h.2) h.3),
        byte_high i j h.1,
        byte_mid j k h.2,
        byte_low k l h.3,
      )
      refl

decode-three :
    (i j k : ℕ)
    → (i < 64) × (j < 64) × (k < 64)
    → decode_blocks D (encode_at i ∷ encode_at j ∷ encode_at k ∷ [])
      ≡ (base64_ok, (i * 4 + j / 16) % 256 ∷ (j * 16 + k / 4) % 256 ∷ [])
unfolding decode_blocks
decode-three i j k h =
    rw
      (
        (encode_at_lem i h.0).0,
        (encode_at_lem j h.1).0,
        (encode_at_lem k h.2).0,
        not_malformed _ (bit_or-lt 6 _ k (bit_or-lt 6 i j h.0 h.1) h.2),
        byte_high i j h.1,
        byte_mid j k h.2,
      )
      refl

decode-two :
    (i j : ℕ)
    → (i < 64) × (j < 64)
    → decode_blocks D (encode_at i ∷ encode_at j ∷ []) ≡ (base64_ok, (i * 4 + j / 16) % 256 ∷ [])
unfolding decode_blocks
decode-two i j h =
    rw
      (
        (encode_at_lem i h.0).0,
        (encode_at_lem j h.1).0,
        not_malformed _ (bit_or-lt 6 i j h.0 h.1),
        byte_high i j h.1,
      )
      refl

decode-nil : decode_blocks D [] ≡ (base64_ok, [])
unfolding decode_blocks
decode-nil = refl

decode_blocks-code_chars :
    (bytes : List ℕ) → All IsByte bytes → decode_blocks D (code_chars bytes) ≡ (base64_ok, bytes)
unfolding code_chars
decode_blocks-code_chars (a ∷ b ∷ c ∷ rest) h =
    let e : (a / 4 * 4 + (a % 4 * 16 + b / 16) / 16) % 256 ≡ a = omega (arith, h.0, h.1.0) in
    let f : ((a % 4 * 16 + b / 16) * 16 + (b % 16 * 4 + c / 64) / 4) % 256 ≡ b =
      omega (arith, h.1.0, h.1.1.0) in
    let g : ((b % 16 * 4 + c / 64) * 64 + c % 64) % 256 ≡ c = omega (arith, h.1.1.0) in
    decode-group (a / 4) (a % 4 * 16 + b / 16) (b % 16 * 4 + c / 64) (c % 64) (code_chars rest)
      (omega (arith, h.0, h.1.0, h.1.1.0))
    ∙ rw (e, f, g, decode_blocks-code_chars rest h.1.1.1)
decode_blocks-code_chars (a ∷ b ∷ []) h =
    let e : (a / 4 * 4 + (a % 4 * 16 + b / 16) / 16) % 256 ≡ a = omega (arith, h.0, h.1.0) in
    let f : ((a % 4 * 16 + b / 16) * 16 + b % 16 * 4 / 4) % 256 ≡ b = omega (arith, h.1.0) in
    decode-three (a / 4) (a % 4 * 16 + b / 16) (b % 16 * 4) (omega (arith, h.0, h.1.0)) ∙ rw (e, f)
decode_blocks-code_chars (a ∷ []) h =
    let e : (a / 4 * 4 + a % 4 * 16 / 16) % 256 ≡ a = omega (arith, h.0) in
    decode-two (a / 4) (a % 4 * 16) (omega (arith, h.0)) ∙ rw e
decode_blocks-code_chars [] h = decode-nil

-- How many characters there are, and what they decode to in number.
converted_length-code_chars :
    (bytes : List ℕ) → converted_length (length (code_chars bytes)) ≡ length bytes
unfolding code_chars converted_length
converted_length-code_chars (a ∷ b ∷ c ∷ rest) = ground (arith, converted_length-code_chars rest)
converted_length-code_chars (a ∷ b ∷ []) = refl
converted_length-code_chars (a ∷ []) = refl
converted_length-code_chars [] = refl

-- The padding completes the last group.
length-padding : (bytes : List ℕ) → ((length (code_chars bytes) + length (padding bytes)) % 4 ≡ 0)
unfolding code_chars padding
length-padding (a ∷ b ∷ c ∷ rest) = omega (arith, length-padding rest)
length-padding (a ∷ b ∷ []) = refl
length-padding (a ∷ []) = refl
length-padding [] = refl

length-code_chars : (bytes : List ℕ) → 0 < length bytes → 0 < length (code_chars bytes)
unfolding code_chars
length-code_chars (a ∷ b ∷ c ∷ rest) h = omega arith
length-code_chars (a ∷ b ∷ []) h = omega arith
length-code_chars (a ∷ []) h = omega arith
length-code_chars [] h = absurd (omega arith)

-- There are none, one or two padding characters.
padding-cases :
    (bytes : List ℕ)
    → (padding bytes ≡ []) ⊎ (padding bytes ≡ b'=' ∷ []) ⊎ (padding bytes ≡ b'=' ∷ b'=' ∷ [])
unfolding padding
padding-cases (a ∷ b ∷ c ∷ rest) = padding-cases rest
padding-cases (a ∷ b ∷ []) = inr (inl refl)
padding-cases (a ∷ []) = inr (inr refl)
padding-cases [] = inl refl

module _ (chars pad : List ℕ) where
  -- Trimming drops a padding character.
  trim-step :
      (i : ℕ)
      → get_or pad i 0 ≡ b'='
      → trim_pad (chars ++ pad) (suc (length chars + i)) ≡ some (length chars + i)
  unfolding trim_pad
  trim-step i e =
      let t : (get_or (chars ++ pad) (length chars + i) 0 == b'=') ≡ true =
        ground (arith, get_or-append_right chars pad i (length chars + i) 0 refl) in
      rw t

module _ (chars pad : List ℕ) (ok : All IsProper chars) where
  -- It stops at a proper character.
  trim-stop : 0 < length chars → trim_pad (chars ++ pad) (length chars) ≡ some (length chars)
  unfolding trim_pad
  trim-stop h =
      let n = length chars - 1 in
      let e : length chars ≡ suc n = omega arith in
      let g : get_or (chars ++ pad) n 0 ≢ b'=' = (λ q.
        (All-get_or IsProper chars n 0 ok (omega arith)).1
          (sym (get_or-append_left chars pad n 0 (omega arith)) ∙ q)) in
      let t : (get_or (chars ++ pad) n 0 == b'=') ≡ false = ground arith in
      ap (trim_pad (chars ++ pad)) e ∙ rw t (ap some (sym e))

trimmed_by :
    (string : List ℕ) (m n : ℕ)
    → length string % 4 ≡ 0
    → trim_pad string (length string) ≡ some m
    → trim_pad string m ≡ some n
    → trimmed_length string ≡ some n
unfolding trimmed_length
trimmed_by string m n full once twice =
    let t : (length string % 4 == 0) ≡ true = ground arith in rw (t, once, twice)

-- Trimming the text that stands for data leaves the characters before the padding.
trimmed_length-padded :
    (bytes : List ℕ)
    → All IsByte bytes
    → 0 < length bytes
    → trimmed_length (code_chars bytes ++ padding bytes) ≡ some (length (code_chars bytes))
trimmed_length-padded bytes h pos =
    let chars = code_chars bytes in
    let pad = padding bytes in
    let ok = code_chars-IsProper bytes h in
    let some_chars : 0 < length chars = length-code_chars bytes pos in
    let stop = trim-stop chars pad ok some_chars in
    let full : length (chars ++ pad) % 4 ≡ 0 =
      rw (length-append chars pad) (length-padding bytes) in
    elim (padding-cases bytes) [
      | inl e ↦
          let l : length (chars ++ pad) ≡ length chars =
            length-append chars pad ∙ rw e (omega arith) in
          trimmed_by (chars ++ pad) (length chars) _ full (rw l stop) stop
      | inr (inl e) ↦
          let l : length (chars ++ pad) ≡ suc (length chars + 0) =
            length-append chars pad ∙ rw e (omega arith) in
          trimmed_by (chars ++ pad) (length chars) _ full
            (rw l (trim-step chars pad 0 (rw e) ∙ ap some (omega arith))) stop
      | inr (inr e) ↦
          let l : length (chars ++ pad) ≡ suc (length chars + 1) =
            length-append chars pad ∙ rw e (omega arith) in
          trimmed_by (chars ++ pad) (length chars + 1) _ full (rw l (trim-step chars pad 1 (rw e)))
            (ap (trim_pad (chars ++ pad)) (omega arith)
              ∙ trim-step chars pad 0 (rw e)
              ∙ ap some (omega arith))
    ]

All-nonzero : (cs : List ℕ) → All IsProper cs → All (λ c. c ≢ 0) cs
All-nonzero [] h = tt
All-nonzero (c ∷ cs) h = (h.0.0, All-nonzero cs h.1)

padding-nonzero : (bytes : List ℕ) → All (λ c. c ≢ 0) (padding bytes)
unfolding padding
padding-nonzero (a ∷ b ∷ c ∷ rest) = padding-nonzero rest
padding-nonzero (a ∷ b ∷ []) = (omega arith, tt)
padding-nonzero (a ∷ []) = (omega arith, (omega arith, tt))
padding-nonzero [] = tt

-- What is encoded is a C string without NUL before its end.
c_string-encode :
    (bytes : List ℕ)
    → All IsByte bytes
    → c_string (base64_encode bytes) ≡ code_chars bytes ++ padding bytes
c_string-encode bytes h =
    ap c_string (
      base64_encode-code_chars bytes h
      ∙ sym (append_assoc (code_chars bytes) (padding bytes) (0 ∷ [])))
    ∙ c_string-append (code_chars bytes ++ padding bytes) [] (
        All-append (λ c. c ≢ 0) (code_chars bytes) (padding bytes)
          (All-nonzero (code_chars bytes) (code_chars-IsProper bytes h)) (padding-nonzero bytes))

decode-accepts :
    (string out : List ℕ) (max_length n : ℕ)
    → trimmed_length string ≡ some n
    → converted_length n ≤ max_length
    → decode_blocks D (take n string) ≡ (base64_ok, out)
    → base64_decode D string max_length
      ≡ some (record { status = base64_ok; converted = converted_length n; written = out })
unfolding base64_decode
decode-accepts string out max_length n t room blocks =
    let fits : ltb max_length (converted_length n) ≡ false = ground arith in
    rw (t, base64_decode) (rw (fits, blocks))

-- Decoding the text that `base64_encode` wrote for some bytes, into a buffer with room for them,
-- gives status OK, their number and the bytes themselves.
pub base64_decode-encode :
    (bytes : List ℕ) (max_length : ℕ)
    → All IsByte bytes
    → 0 < length bytes
    → length bytes ≤ max_length
    → base64_decode initialise_base64 (c_string (base64_encode bytes)) max_length
      ≡ some (record { status = base64_ok; converted = length bytes; written = bytes })
base64_decode-encode bytes max_length h pos room =
    let k = converted_length-code_chars bytes in
    rw (c_string-encode bytes h) (
      decode-accepts (code_chars bytes ++ padding bytes) bytes max_length
        (length (code_chars bytes)) (trimmed_length-padded bytes h pos) (rw k room)
        (rw (take-append (code_chars bytes) (padding bytes)) (decode_blocks-code_chars bytes h))
      ∙ rw k)
