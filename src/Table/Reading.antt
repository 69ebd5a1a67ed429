-- ===== src/Table/Reading.antt =====
-- server/table.c: the lines in which a table is read, as numbers and in base 64, and that they are
-- lines which write the same words.
use pand_ablocks_server.Prelude.{
  ℕ, zero, suc, ◌+◌, ◌*◌, ◌/◌, ◌%◌, ◌≤◌, ◌<◌, ◌≡◌, ◌≢◌, ◌⊎◌, inl, inr, refl, ap, ◌∙◌, arith, true,
  false, List, [], ◌∷◌, none, some, ◌==◌, length, take, drop, All, c_string, u32_mod, append-nil,
  map, All-take-drop, take-drop, length-drop, length-append,
}
use pand_ablocks_server.Base64.{base64_encode, initialise_base64}
use pand_ablocks_server.Base64.Lengths.{base64_decode-empty}
use pand_ablocks_server.Base64.RoundTrip.{IsByte, base64_decode-encode}
use pand_ablocks_server.Parse.{Outcome, ok, fail}
use pand_ablocks_server.Parse.Numbers.{
  parse_num, parse_uint32, digit_value, strtoul, convert_digits, check_number, skip_spaces,
  number_base, read_digits,
}
use pand_ablocks_server.Parse.Printed.{print_uint, parse_num-print}
use pand_ablocks_server.Table.{
  Conversion, bad_number, TableBlock, table_data, words_of_bytes, convert_base64_line,
  convert_ascii_line, convert_line,
}
use pand_ablocks_server.Table.Writes.{lines_words, lines_words-more}

abbrev pub base64_line_bytes : ℕ
base64_line_bytes = 48

-- `write_ascii`: the lines given to `write_many`.
unfoldable pub write_ascii : TableBlock → List (List ℕ)
write_ascii block = map print_uint (table_data block)

-- The bytes of words in memory.
unfoldable pub bytes_of_words : List ℕ → List ℕ
bytes_of_words [] = []
bytes_of_words (w ∷ ws) =
    w % 0x100 ∷ w / 0x100 % 0x100 ∷ w / 0x10000 % 0x100 ∷ w / 0x1000000 % 0x100 ∷ bytes_of_words ws

-- The loop of `write_base_64`, on fuel.
unfoldable pub base64_lines : ℕ → List ℕ → List (List ℕ)
base64_lines zero bytes = []
base64_lines (suc fuel) [] = []
base64_lines (suc fuel) (b ∷ bytes) =
    c_string (base64_encode (take base64_line_bytes (b ∷ bytes)))
    ∷ base64_lines fuel (drop base64_line_bytes (b ∷ bytes))

unfoldable pub write_base_64 : TableBlock → List (List ℕ)
write_base_64 block =
    let bytes = bytes_of_words (table_data block) in base64_lines (length bytes) bytes

words_of_bytes_of_words :
    (ws : List ℕ) → All (λ w. w < u32_mod) ws → words_of_bytes (bytes_of_words ws) ≡ ws
unfolding words_of_bytes bytes_of_words
words_of_bytes_of_words [] h = refl
words_of_bytes_of_words (w ∷ ws) (h, hs) =
    let e : w % 0x100
          + w / 0x100 % 0x100 * 0x100
          + w / 0x10000 % 0x100 * 0x10000
          + w / 0x1000000 % 0x100 * 0x1000000
        ≡ w =
      omega arith in
    rw (e, words_of_bytes_of_words ws hs) refl

pub bytes_of_words-IsByte : (ws : List ℕ) → All IsByte (bytes_of_words ws)
unfolding bytes_of_words
bytes_of_words-IsByte [] = tt
bytes_of_words-IsByte (w ∷ ws) =
    (omega arith, (omega arith, (omega arith, (omega arith, bytes_of_words-IsByte ws))))

pub length-bytes_of_words : (ws : List ℕ) → length (bytes_of_words ws) ≡ 4 * length ws
unfolding bytes_of_words
length-bytes_of_words [] = omega arith
length-bytes_of_words (w ∷ ws) = omega (arith, length-bytes_of_words ws)

abbrev quad : ℕ → ℕ
quad zero = 0
quad (suc n) = suc (suc (suc (suc (quad n))))

take-bytes_of_words :
    (n : ℕ) (ws : List ℕ) → take (quad n) (bytes_of_words ws) ≡ bytes_of_words (take n ws)
unfolding bytes_of_words
take-bytes_of_words zero ws = refl
take-bytes_of_words (suc n) [] = refl
take-bytes_of_words (suc n) (w ∷ ws) = rw (take-bytes_of_words n ws) refl

drop-bytes_of_words :
    (n : ℕ) (ws : List ℕ) → drop (quad n) (bytes_of_words ws) ≡ bytes_of_words (drop n ws)
unfolding bytes_of_words
drop-bytes_of_words zero ws = refl
drop-bytes_of_words (suc n) [] = refl
drop-bytes_of_words (suc n) (w ∷ ws) = drop-bytes_of_words n ws

base64_lines-cons :
    (fuel : ℕ) (bytes : List ℕ)
    → 0 < length bytes
    → base64_lines (suc fuel) bytes
      ≡ c_string (base64_encode (take 48 bytes)) ∷ base64_lines fuel (drop 48 bytes)
unfolding base64_lines
base64_lines-cons fuel [] h = absurd (omega arith)
base64_lines-cons fuel (b ∷ bytes) h = refl

module _ (ulong_mod max_length row_words : ℕ) where
  convert-base64_encode :
      (ws : List ℕ)
      → All (λ w. w < u32_mod) ws
      → 0 < length ws
      → length ws ≤ max_length
      → convert_line ulong_mod initialise_base64 true max_length
          (c_string (base64_encode (bytes_of_words ws)))
        ≡ (none, ws)
  unfolding convert_line convert_base64_line
  convert-base64_encode ws h pos fits =
      let l = length-bytes_of_words ws in
      let d =
        base64_decode-encode (bytes_of_words ws) (max_length * 4) (bytes_of_words-IsByte ws)
          (omega arith) (omega arith) in
      let whole : (length (bytes_of_words ws) % 4 == 0) ≡ true = rw l (ground arith) in
      rw (convert_base64_line, d, whole, words_of_bytes_of_words ws h) refl

  -- One line, of up to twelve words, before lines that give the other words.
  one_line :
      (fuel : ℕ) (ws : List ℕ)
      → 0 < length ws
      → All (λ w. w < u32_mod) (take 12 ws)
      → length ws ≤ max_length
      → lines_words ulong_mod initialise_base64 max_length row_words true
          (base64_lines fuel (bytes_of_words (drop 12 ws)))
        ≡ some (drop 12 ws)
      → lines_words ulong_mod initialise_base64 max_length row_words true
          (base64_lines (suc fuel) (bytes_of_words ws))
        ≡ some ws
  one_line fuel ws pos h fits r =
      let l = length-drop 12 ws in
      let a = ap length (take-drop 12 ws) in
      let b = length-append (take 12 ws) (drop 12 ws) in
      let n = length-bytes_of_words ws in
      let c = convert-base64_encode (take 12 ws) h (omega arith) (omega arith) in
      let t : take 48 (bytes_of_words ws) ≡ bytes_of_words (take 12 ws) =
        take-bytes_of_words 12 ws in
      let d : drop 48 (bytes_of_words ws) ≡ bytes_of_words (drop 12 ws) =
        drop-bytes_of_words 12 ws in
      let line = c_string (base64_encode (bytes_of_words (take 12 ws))) in
      let e : base64_lines (suc fuel) (bytes_of_words ws)
          ≡ line ∷ base64_lines fuel (bytes_of_words (drop 12 ws)) =
        base64_lines-cons fuel (bytes_of_words ws) (omega arith)
        ∙ ap (λ x. c_string (base64_encode x) ∷ base64_lines fuel (drop 48 (bytes_of_words ws))) t
        ∙ ap (λ x. line ∷ base64_lines fuel x) d in
      rw e (
        lines_words-more ulong_mod initialise_base64 max_length row_words true line
          (base64_lines fuel (bytes_of_words (drop 12 ws))) (take 12 ws) (drop 12 ws) c r
        ∙ ap some (take-drop 12 ws))

  pub base64_lines-lines_words :
      (fuel : ℕ) (ws : List ℕ)
      → All (λ w. w < u32_mod) ws
      → length ws ≤ max_length
      → length ws ≤ fuel
      → lines_words ulong_mod initialise_base64 max_length row_words true
          (base64_lines fuel (bytes_of_words ws))
        ≡ some ws
  unfolding base64_lines lines_words bytes_of_words
  base64_lines-lines_words zero [] h fits enough = refl
  base64_lines-lines_words (suc fuel) [] h fits enough = refl
  base64_lines-lines_words zero (w ∷ ws) h fits enough = absurd (omega arith)
  base64_lines-lines_words (suc fuel) (w ∷ ws) h fits enough =
      let (hf, hr) = All-take-drop (λ w. w < u32_mod) 12 (w ∷ ws) h in
      let l = length-drop 12 (w ∷ ws) in
      one_line fuel (w ∷ ws) (omega arith) hf fits
        (base64_lines-lines_words fuel (drop 12 (w ∷ ws)) hr (omega arith) (omega arith))

  no_number : (w : ℕ) → parse_uint32 ulong_mod [] ≢ (ok w, [])
  unfolding parse_uint32 parse_num strtoul convert_digits check_number skip_spaces number_base
      read_digits digit_value
  no_number w h = absurd (cc (ap (λ (x : Outcome ℕ × List ℕ). x.0) h))

  one_number :
      (room w : ℕ) (line : List ℕ)
      → parse_uint32 ulong_mod line ≡ (ok w, [])
      → 0 < room
      → (convert_ascii_line ulong_mod room line ≡ (none, w ∷ [])) × (0 < length line)
  unfolding convert_ascii_line
  one_number room w [] h pos = absurd (no_number w h)
  one_number zero w (c ∷ cs) h pos = absurd (omega arith)
  one_number (suc room) w (c ∷ cs) h pos = (
    ap
        (λ (p : Outcome ℕ × List ℕ). elim p.0 as (λ _. Conversion) [
          | fail e ↦ (some (bad_number e), [])
          | ok v ↦ (
            (convert_ascii_line ulong_mod room p.1).0,
            v ∷ (convert_ascii_line ulong_mod room p.1).1,
          )
        ])
        h,
    omega arith,
  )

  parse-print_uint :
      (w : ℕ)
      → w < u32_mod
      → u32_mod ≤ ulong_mod
      → parse_uint32 ulong_mod (print_uint w) ≡ (ok w, [])
  unfolding parse_uint32 digit_value
  parse-print_uint w h wide =
      rw (append-nil (print_uint w)) at
        (parse_num-print ulong_mod w [] (omega arith) (omega arith) u32_mod h)

  convert-print_uint :
      (w : ℕ)
      → w < u32_mod
      → u32_mod ≤ ulong_mod
      → 0 < max_length
      → convert_line ulong_mod initialise_base64 false max_length (print_uint w) ≡ (none, w ∷ [])
  unfolding convert_line
  convert-print_uint w h wide room =
      (one_number max_length w (print_uint w) (parse-print_uint w h wide) room).0

  pub print_uint-lines_words :
      (ws : List ℕ)
      → All (λ w. w < u32_mod) ws
      → u32_mod ≤ ulong_mod
      → 0 < max_length
      → lines_words ulong_mod initialise_base64 max_length row_words false (map print_uint ws)
        ≡ some ws
  unfolding lines_words
  print_uint-lines_words [] h wide room = refl
  print_uint-lines_words (w ∷ ws) (h, hs) wide room =
      lines_words-more ulong_mod initialise_base64 max_length row_words false (print_uint w)
        (map print_uint ws) (w ∷ []) ws (convert-print_uint w h wide room)
        (print_uint-lines_words ws hs wide room)

  pub print_uint_nonempty :
      (ws : List ℕ)
      → All (λ w. w < u32_mod) ws
      → u32_mod ≤ ulong_mod
      → All (λ l. 0 < length l) (map print_uint ws)
  print_uint_nonempty [] h wide = tt
  print_uint_nonempty (w ∷ ws) (h, hs) wide = (
    (one_number 1 w (print_uint w) (parse-print_uint w h wide) (omega arith)).1,
    print_uint_nonempty ws hs wide,
  )

-- The encoding of some bytes is not empty.
base64_encode_nonempty :
    (bytes : List ℕ)
    → All IsByte bytes
    → 0 < length bytes
    → 0 < length (c_string (base64_encode bytes))
base64_encode_nonempty bytes h pos = elim (list_cases (c_string (base64_encode bytes))) [
  | inl e ↦ absurd (
      base64_decode-empty initialise_base64 (length bytes) _
        (rw e at (base64_decode-encode bytes (length bytes) h pos (omega arith))))
  | inr p ↦ p
]
  where
    list_cases : (s : List ℕ) → (s ≡ []) ⊎ (0 < length s)
    list_cases [] = inl refl
    list_cases (c ∷ s) = inr (omega arith)

pub base64_lines_nonempty :
    (fuel : ℕ) (bytes : List ℕ)
    → All IsByte bytes
    → All (λ l. 0 < length l) (base64_lines fuel bytes)
unfolding base64_lines
base64_lines_nonempty zero bytes h = tt
base64_lines_nonempty (suc fuel) [] h = tt
base64_lines_nonempty (suc fuel) (b ∷ bytes) h =
    let (t, d) = All-take-drop IsByte 48 (b ∷ bytes) h in
    (
      base64_encode_nonempty (take 48 (b ∷ bytes)) t (omega arith),
      base64_lines_nonempty fuel (drop 48 (b ∷ bytes)) d,
    )
