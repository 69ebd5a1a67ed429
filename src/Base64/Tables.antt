-- ===== src/Base64/Tables.antt =====
-- The two tables of server/base64.c undo one another.
use pand_ablocks_server.Prelude.{
  ℕ, ◌<◌, ◌≡◌, ◌≢◌, refl, arith, Bool, true, ◌&&◌, not, ◌==◌, get_or, holds_below, holds_below_lem,
  List,
}
use pand_ablocks_server.Base64.{encode_at, initialise_base64}

-- One code: the decoding of its character, which is neither NUL nor the padding.
abbrev code_fits : List ℕ → ℕ → Bool
code_fits decode i =
    get_or decode (encode_at i) 0 == i && not (encode_at i == 0) && not (encode_at i == b'=')

table_checked : (let decode = initialise_base64 in holds_below (code_fits decode) 64) ≡ true
unfolding encode_at initialise_base64 holds_below
table_checked = refl

pub encode_at_lem :
    (i : ℕ)
    → i < 64
    → (get_or initialise_base64 (encode_at i) 0 ≡ i) × (encode_at i ≢ 0) × (encode_at i ≢ b'=')
encode_at_lem i h =
    let t = holds_below_lem (code_fits initialise_base64) 64 table_checked i h in ground arith
