-- ===== src/MacAddress/Tests.antt =====
-- Runs of server/mac_address.c, and its theorem at an address.
use pand_ablocks_server.Prelude.{◌≡◌, refl, arith, [], ◌∷◌, drop}
use pand_ablocks_server.Parse.{
  ok, fail, char_expected, then_parse, parse_char, read_char, bad_octet,
}
use pand_ablocks_server.MacAddress.{
  parse_nibble, parse_octet, parse_octets, parse_mac_address, has_newline, load_line, load_lines,
  hex_digit, print_octets, from_octets, parse_mac_address-print,
}

program : Unit {0}
unfolding then_parse parse_char read_char parse_nibble parse_octet parse_octets parse_mac_address
    has_newline load_line load_lines hex_digit print_octets
program = tt

-- "00:0A:35:00:22:01" with its newline is printed as it is read, and without it is an error.
reads :
    (print_octets (0 ∷ 10 ∷ []) [] ≡ b':' ∷ b'0' ∷ b'0' ∷ b':' ∷ b'0' ∷ b'A' ∷ [])
    × (parse_octet (b'g' ∷ b'0' ∷ []) ≡ (fail bad_octet, b'0' ∷ []))
    × (parse_mac_address (drop 1 (print_octets (0 ∷ 10 ∷ 53 ∷ 0 ∷ 34 ∷ 1 ∷ []) []))
        ≡ (fail char_expected, []))
unfolding program
reads = (refl, refl, refl)

-- A comment, a blank line and an address, which is written at the offset 1.
loads :
    load_lines
      ((b'#' ∷ 10 ∷ [])
        ∷ (10 ∷ [])
        ∷ drop 1 (print_octets (0 ∷ 0 ∷ 0 ∷ 0 ∷ 1 ∷ 2 ∷ []) (10 ∷ []))
        ∷ [])
      (record { offset = 0; writes = [] })
    ≡ (
      ok (record { offset = 2; writes = (1, 258) ∷ [] }),
      record { offset = 2; writes = (1, 258) ∷ [] },
    )
unfolding program
loads = refl

parse_mac_address-print_example :
    parse_mac_address (drop 1 (print_octets (0 ∷ 10 ∷ 53 ∷ 0 ∷ 34 ∷ 1 ∷ []) (b'\n' ∷ [])))
    ≡ (ok (from_octets 0 (0 ∷ 10 ∷ 53 ∷ 0 ∷ 34 ∷ 1 ∷ [])), [])
parse_mac_address-print_example =
    parse_mac_address-print 0 10 53 0 34 1 []
      (omega arith, (omega arith, (omega arith, (omega arith, (omega arith, (omega arith, tt))))))
