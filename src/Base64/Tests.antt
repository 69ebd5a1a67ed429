-- ===== src/Base64/Tests.antt =====
-- Runs of server/base64.c, and its theorems at them.
use pand_ablocks_server.Prelude.{
  ℕ, ◌+◌, ◌*◌, ◌/◌, ◌≤◌, ◌<◌, ◌≡◌, ◌↔◌, refl, arith, [], ◌∷◌, none, some, length, c_string,
}
use pand_ablocks_server.Base64.{
  encode_at, base64_encode, initialise_base64, base64_ok, base64_malformed, base64_overrun, Decoded,
  decode_blocks, trim_pad, trimmed_length, converted_length, base64_decode,
}
use pand_ablocks_server.Base64.RoundTrip.{base64_decode-encode}
use pand_ablocks_server.Base64.Bounds.{base64_decode_bounds, length-base64_encode}

program : Unit {0}
unfolding c_string encode_at base64_encode initialise_base64 decode_blocks trim_pad trimmed_length
    converted_length base64_decode
program = tt

-- "TWFu", "TWE=" and "TQ==".
encodes :
    (base64_encode (77 ∷ 97 ∷ 110 ∷ []) ≡ b'T' ∷ b'W' ∷ b'F' ∷ b'u' ∷ 0 ∷ [])
    × (base64_encode (77 ∷ 97 ∷ []) ≡ b'T' ∷ b'W' ∷ b'E' ∷ b'=' ∷ 0 ∷ [])
    × (base64_encode (77 ∷ []) ≡ b'T' ∷ b'Q' ∷ b'=' ∷ b'=' ∷ 0 ∷ [])
unfolding program
encodes = (refl, refl, refl)

-- The padding is optional, a stray character is an error, and so is a third padding character.
decodes :
    (base64_decode initialise_base64 (b'T' ∷ b'Q' ∷ []) 9
      ≡ some (record { status = base64_ok; converted = 1; written = 77 ∷ [] }))
    × (base64_decode initialise_base64 (b'T' ∷ b'?' ∷ []) 9
        ≡ some (record { status = base64_malformed; converted = 1; written = [] }))
    × (base64_decode initialise_base64 (b'T' ∷ b'=' ∷ b'=' ∷ b'=' ∷ []) 9
        ≡ some (record { status = base64_malformed; converted = 1; written = [] }))
    × (base64_decode initialise_base64 (b'T' ∷ b'W' ∷ b'F' ∷ b'u' ∷ []) 2
        ≡ some (record { status = base64_overrun; converted = 3; written = [] }))
    × (base64_decode initialise_base64 [] 9 ≡ none)
unfolding program
decodes = (refl, refl, refl, refl, refl)

base64_decode-encode_example :
    base64_decode initialise_base64 (c_string (base64_encode (77 ∷ 0 ∷ []))) 9
    ≡ some (record { status = base64_ok; converted = 2; written = 77 ∷ 0 ∷ [] })
base64_decode-encode_example =
    base64_decode-encode (77 ∷ 0 ∷ []) 9 (omega arith) (omega arith) (omega arith)

base64_decode_bounds_example :
    (r : Decoded) × (base64_decode initialise_base64 (b'T' ∷ b'Q' ∷ []) 0 ≡ some r)
    × (length r.written ≤ r.converted)
    × (length r.written ≤ 0)
    × ((r.status ≡ base64_overrun) ↔ (0 < r.converted))
base64_decode_bounds_example =
    base64_decode_bounds initialise_base64 (b'T' ∷ b'Q' ∷ []) 0 (λ e. cc e)

length-base64_encode_example :
    length (base64_encode (77 ∷ [])) ≡ 4 * ((length {A = ℕ} (77 ∷ []) + 2) / 3) + 1
length-base64_encode_example = length-base64_encode (77 ∷ [])
