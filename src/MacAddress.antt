-- ===== src/MacAddress.antt =====
-- server/mac_address.c: the addresses of the FPGA's network ports, one on each line of a file.
mod Tests
use native.Mathlib.Nat.{mod-eq_of_lt}
use pand_ablocks_server.Prelude.{
  ℕ, zero, suc, ◌+◌, ◌-◌, ◌*◌, ◌/◌, ◌%◌, ◌^◌, ◌≤◌, ◌<◌, ◌≡◌, refl, sym, ap, ◌∙◌, arith, Bool, true,
  false, ◌&&◌, List, [], ◌∷◌, ◌++◌, ltb, leb, ◌==◌, if◌then◌else◌, length, drop, peek, u8, u64_mod,
  bit_or, All,
}
use pand_ablocks_server.Prelude.Bits.{bit_or-shift}
use pand_ablocks_server.Parse.{
  Outcome, ok, fail, Parser, then_parse, parse_char, read_char, bad_octet, comment_too_long,
  too_many_entries,
}

abbrev pub mac_address_count : ℕ
mac_address_count = 4

-- The character is passed even if it is no digit.
unfoldable pub parse_nibble : Parser ℕ
parse_nibble s =
    let ch = peek s in
    if leb b'0' ch && leb ch b'9'
    then (ok (ch - b'0'), drop 1 s)
    else if leb b'A' ch && leb ch b'F'
    then (ok (ch - b'A' + 10), drop 1 s)
    else if leb b'a' ch && leb ch b'f'
    then (ok (ch - b'a' + 10), drop 1 s)
    else (fail bad_octet, drop 1 s)

unfoldable pub parse_octet : Parser ℕ
parse_octet s =
    then_parse (parse_nibble s)
      (λ high t. then_parse (parse_nibble t) (λ low u. (ok (u8 (bit_or (high * 16) low)), u)))

-- The loop at index `i`, with `count` octets to come.
unfoldable pub parse_octets : ℕ → ℕ → ℕ → Parser ℕ
parse_octets i zero mac_address s = (ok mac_address, s)
parse_octets i (suc count) mac_address s =
    then_parse (if ltb 0 i then parse_char b':' s else (ok tt, s)) (λ _ t.
      then_parse (parse_octet t)
        (λ octet u. parse_octets (suc i) count (bit_or (mac_address * 256 % u64_mod) octet) u))

unfoldable pub parse_mac_address : Parser ℕ
parse_mac_address s =
    then_parse (parse_octets 0 6 0 s)
      (λ mac_address t. then_parse (parse_char b'\n' t) (λ _ u. (ok mac_address, u)))

-- Whether there is a newline in the buffer.
unfoldable pub has_newline : List ℕ → Bool
has_newline [] = false
has_newline (ch ∷ s) = if ch == b'\n' then true else has_newline s

-- What the loop keeps: the offset of the next entry, and the calls of `hw_write_mac_address`, the
-- last one first.
pub record Loaded : Type 0 where
  pub offset : ℕ
  pub writes : List (ℕ × ℕ)

unfoldable pub load_line : List ℕ → Loaded → Outcome Loaded
load_line line l =
    if peek line == b'#'
    then if has_newline line then ok l else fail comment_too_long
    else if peek line == b'\n'
    then ok (record l { offset = suc l.offset })
    else if ltb l.offset mac_address_count
    then (then_parse (parse_mac_address line) (λ mac_address rest. (
      ok (record { offset = suc l.offset; writes = (l.offset, mac_address) ∷ l.writes }),
      rest,
    ))).0
    else fail too_many_entries

-- The lines are those that `fgets` gives with a buffer of 82 characters.
unfoldable pub load_lines : List (List ℕ) → Loaded → Outcome Loaded × Loaded
load_lines [] l = (ok l, l)
load_lines (line ∷ lines) l = then_parse (load_line line l, l) (λ l' _. load_lines lines l')

-- An octet as two digits, and an address as its octets between colons.
unfoldable pub hex_digit : ℕ → ℕ
hex_digit d = if ltb d 10 then b'0' + d else b'A' + (d - 10)

unfoldable pub print_octets : List ℕ → List ℕ → List ℕ
print_octets [] after = after
print_octets (x ∷ xs) after = b':' ∷ hex_digit (x / 16) ∷ hex_digit (x % 16) ∷ print_octets xs after

-- The octets as the digits of a number, the highest first.
abbrev pub from_octets : ℕ → List ℕ → ℕ
from_octets high [] = high
from_octets high (x ∷ xs) = from_octets (high * 256 + x) xs

parse_nibble-digit : (d : ℕ) (s : List ℕ) → d < 16 → parse_nibble (hex_digit d ∷ s) ≡ (ok d, s)
unfolding parse_nibble hex_digit
parse_nibble-digit d s h = ground arith

parse_octet-print :
    (x : ℕ) (s : List ℕ)
    → x < 256
    → parse_octet (hex_digit (x / 16) ∷ hex_digit (x % 16) ∷ s) ≡ (ok x, s)
unfolding parse_octet then_parse
parse_octet-print x s h =
    let e : bit_or (x / 16 * 16) (x % 16) ≡ x =
      bit_or-shift 4 (x / 16) (x % 16) (omega arith) ∙ omega arith in
    let m : x % 256 ≡ x = mod-eq_of_lt h in
    rw
      (
        parse_nibble-digit (x / 16) (hex_digit (x % 16) ∷ s) (omega arith),
        parse_nibble-digit (x % 16) s (omega arith),
        e,
        m,
      )
      refl

from_octets_le : (high : ℕ) (xs : List ℕ) → high ≤ from_octets high xs
from_octets_le high [] = omega arith
from_octets_le high (x ∷ xs) = omega (arith, from_octets_le (high * 256 + x) xs)

shifted :
    (high x : ℕ) (xs : List ℕ)
    → x < 256
    → from_octets high (x ∷ xs) < u64_mod
    → bit_or (high * 256 % u64_mod) x ≡ high * 256 + x
shifted high x xs h small =
    let l : high * 256 < u64_mod = omega (arith, from_octets_le (high * 256 + x) xs) in
    let m : high * 256 % u64_mod ≡ high * 256 = mod-eq_of_lt l in rw m (bit_or-shift 8 high x h)

parse_octets-print :
    (i high : ℕ) (xs after : List ℕ)
    → All (λ x. x < 256) xs
    → from_octets high xs < u64_mod
    → parse_octets (suc i) (length xs) high (print_octets xs after)
      ≡ (ok (from_octets high xs), after)
unfolding parse_octets print_octets then_parse parse_char read_char
parse_octets-print i high [] after a small = refl
parse_octets-print i high (x ∷ xs) after (h, a) small =
    let pos : ltb 0 (suc i) ≡ true = ground arith in
    rw (pos, parse_octet-print x (print_octets xs after) h, shifted high x xs h small)
      (parse_octets-print (suc i) (high * 256 + x) xs after a small)

-- Six octets, printed with two hexadecimal digits each and colons between them, and a newline are
-- parsed by `parse_mac_address` to the number whose digits to the base 256 they are, the highest
-- first, and what follows the newline is left.
pub parse_mac_address-print :
    (a b c d e f : ℕ) (rest : List ℕ)
    → All (λ x. x < 256) (a ∷ b ∷ c ∷ d ∷ e ∷ f ∷ [])
    → parse_mac_address (drop 1 (print_octets (a ∷ b ∷ c ∷ d ∷ e ∷ f ∷ []) (b'\n' ∷ rest)))
      ≡ (ok (from_octets 0 (a ∷ b ∷ c ∷ d ∷ e ∷ f ∷ [])), rest)
unfolding parse_mac_address parse_octets print_octets then_parse parse_char read_char
parse_mac_address-print a b c d e f rest (ha, all) =
    let xs = b ∷ c ∷ d ∷ e ∷ f ∷ [] in
    let (hb, (hc, (hd, (he, (hf, t))))) = all in
    let small : from_octets 0 (a ∷ xs) < u64_mod = omega arith in
    rw
      (
        parse_octet-print a (print_octets xs (b'\n' ∷ rest)) ha,
        shifted 0 a xs ha small,
        parse_octets-print 0 (0 * 256 + a) xs (b'\n' ∷ rest) all small,
      )
      refl
