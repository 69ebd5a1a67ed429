-- ===== src/Base64.antt =====
-- server/base64.c: base 64 encoding and decoding. Bytes and characters are numbers below 256, a
-- string is the list of its characters, and memory that is written is the list of what is written.
pub mod Tables
pub mod RoundTrip
pub mod Bounds
pub mod Lengths
mod Tests
use pand_ablocks_server.Prelude.{
  ℕ, zero, suc, ◌+◌, ◌-◌, ◌*◌, ◌/◌, ◌%◌, Bool, true, false, ◌&&◌, List, [], ◌∷◌, Option, none, some,
  bit_and, bit_or, u8, ltb, ◌==◌, if◌then◌else◌, length, get_or, set, take, replicate,
}

-- The encoding table, in ASCII.
abbrev pub encode : List ℕ
encode =
    65 ∷ 66 ∷ 67 ∷ 68 ∷ 69 ∷ 70 ∷ 71 ∷ 72 ∷ 73 ∷ 74 ∷ 75 ∷ 76 ∷ 77 ∷ 78 ∷ 79 ∷ 80 ∷ 81 ∷ 82 ∷ 83
    ∷ 84 ∷ 85 ∷ 86 ∷ 87 ∷ 88 ∷ 89 ∷ 90 ∷ 97 ∷ 98 ∷ 99 ∷ 100 ∷ 101 ∷ 102 ∷ 103 ∷ 104 ∷ 105 ∷ 106
    ∷ 107 ∷ 108 ∷ 109 ∷ 110 ∷ 111 ∷ 112 ∷ 113 ∷ 114 ∷ 115 ∷ 116 ∷ 117 ∷ 118 ∷ 119 ∷ 120 ∷ 121 ∷ 122
    ∷ 48 ∷ 49 ∷ 50 ∷ 51 ∷ 52 ∷ 53 ∷ 54 ∷ 55 ∷ 56 ∷ 57 ∷ 43 ∷ 47 ∷ []

unfoldable pub encode_at : ℕ → ℕ
encode_at i = get_or encode i 0

-- The characters that are written, with the NUL at the end; the length returned is theirs.
unfoldable pub base64_encode : List ℕ → List ℕ
base64_encode (a ∷ b ∷ c ∷ rest) =
    encode_at (a / 4)
    ∷ encode_at (bit_and (bit_or (a * 16) (b / 16)) 0x3f)
    ∷ encode_at (bit_and (bit_or (b * 4) (c / 64)) 0x3f)
    ∷ encode_at (bit_and c 0x3f)
    ∷ base64_encode rest
base64_encode (a ∷ b ∷ []) =
    encode_at (a / 4)
    ∷ encode_at (bit_and (bit_or (a * 16) (b / 16)) 0x3f)
    ∷ encode_at (bit_and (b * 4) 0x3f)
    ∷ b'='
    ∷ 0
    ∷ []
base64_encode (a ∷ []) =
    encode_at (a / 4) ∷ encode_at (bit_and (a * 16) 0x3f) ∷ b'=' ∷ b'=' ∷ 0 ∷ []
base64_encode [] = 0 ∷ []

-- The loop of `initialise_base64` over the encoding table.
unfoldable pub fill_decode : List ℕ → ℕ → List ℕ → List ℕ
fill_decode [] i decode = decode
fill_decode (c ∷ cs) i decode = fill_decode cs (i + 1) (set decode c (u8 i))

-- The decoding table that `initialise_base64` leaves.
unfoldable pub initialise_base64 : List ℕ
unfolding fill_decode
initialise_base64 = fill_decode encode 0 (replicate 256 0xff)

pub data Base64Status : Type 0 where
  base64_ok base64_malformed base64_overrun : Base64Status

-- What a call of `base64_decode` leaves: the status, the converted length and the bytes written.
pub record Decoded : Type 0 where
  pub status : Base64Status
  pub converted : ℕ
  pub written : List ℕ

-- The two conversion loops over the characters that are left after trimming.
unfoldable pub decode_blocks : List ℕ → List ℕ → Base64Status × List ℕ
decode_blocks decode (p ∷ q ∷ r ∷ s ∷ rest) =
    let a = get_or decode p 0 in
    let b = get_or decode q 0 in
    let c = get_or decode r 0 in
    let d = get_or decode s 0 in
    let (status, out) = decode_blocks decode rest in
    if bit_or (bit_or (bit_or a b) c) d == 0xff then (base64_malformed, []) else (
      status,
      u8 (bit_or (a * 4) (b / 16)) ∷ u8 (bit_or (b * 16) (c / 4)) ∷ u8 (bit_or (c * 64) d) ∷ out,
    )
decode_blocks decode (p ∷ q ∷ r ∷ []) =
    let a = get_or decode p 0 in
    let b = get_or decode q 0 in
    let c = get_or decode r 0 in
    if bit_or (bit_or a b) c == 0xff
    then (base64_malformed, [])
    else (base64_ok, u8 (bit_or (a * 4) (b / 16)) ∷ u8 (bit_or (b * 16) (c / 4)) ∷ [])
decode_blocks decode (p ∷ q ∷ []) =
    let a = get_or decode p 0 in
    let b = get_or decode q 0 in
    if bit_or a b == 0xff
    then (base64_malformed, [])
    else (base64_ok, u8 (bit_or (a * 4) (b / 16)) ∷ [])
decode_blocks decode (p ∷ []) = (base64_malformed, [])
decode_blocks decode [] = (base64_ok, [])

-- `if (string[in_length - 1] == '=') in_length -= 1;`, where `none` is a read before the string.
unfoldable pub trim_pad : List ℕ → ℕ → Option ℕ
trim_pad string zero = none
trim_pad string (suc n) = some (if get_or string n 0 == b'=' then n else suc n)

unfoldable pub trimmed_length : List ℕ → Option ℕ
trimmed_length string =
    let n = length string in
    if n % 4 == 0
    then elim (trim_pad string n) [ none ↦ none | some m ↦ trim_pad string m ]
    else some n

unfoldable pub converted_length : ℕ → ℕ
converted_length n = 3 * (n / 4) + (if ltb 0 (n % 4) then n % 4 - 1 else 0)

-- `none` is undefined behaviour: the read before the start of an empty string.
unfoldable pub base64_decode : List ℕ → List ℕ → ℕ → Option Decoded
base64_decode decode string max_length = elim (trimmed_length string) [
  | none ↦ none
  | some n ↦
      let converted = converted_length n in
      if ltb max_length converted
      then some (record { status = base64_overrun; converted = converted; written = [] })
      else let (status, out) = decode_blocks decode (take n string) in
        some (record { status = status; converted = converted; written = out })
]
