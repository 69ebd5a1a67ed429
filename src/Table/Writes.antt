-- ===== src/Table/Writes.antt =====
-- server/table.c: what the lines of a table write add to its buffer.
use pand_ablocks_server.Prelude.{
  ℕ, zero, suc, ◌+◌, ◌*◌, ◌/◌, ◌%◌, ◌≤◌, ◌<◌, ◌≡◌, ◌⊎◌, refl, sym, ap, ◌∙◌, arith, Bool, true,
  false, List, [], ◌∷◌, ◌++◌, Option, none, some, leb, ◌==◌, ==_iff, if◌then◌else◌, length, sub32,
  u32_mod, Bool-cases, Option-cases, inl, inr, length-append, append-nil, append_assoc,
}
use pand_ablocks_server.Parse.{Outcome, ok, fail}
use pand_ablocks_server.Parse.Numbers.{parse_uint32}
use pand_ablocks_server.Base64.{
  Base64Status, base64_ok, base64_malformed, base64_overrun, base64_decode,
}
use pand_ablocks_server.Base64.Lengths.{base64_decode_ok}
use pand_ablocks_server.Config.PutTable.{PutTableWriter}
use pand_ablocks_server.Config.Lines.{write_all}
use pand_ablocks_server.Table.{
  TableError, TableBlock, Conversion, bad_number, words_of_bytes, invalid_length, bad_base64,
  convert_base64_line, convert_ascii_line, convert_line, write_table_line, complete_table_write,
}

-- The block with other words written.
unfoldable pub with_words : TableBlock → List ℕ → TableBlock
with_words block words = record block { write_data = words }

length-words_of_bytes : (bytes : List ℕ) → length (words_of_bytes bytes) ≡ length bytes / 4
unfolding words_of_bytes
length-words_of_bytes (a ∷ b ∷ c ∷ d ∷ rest) = omega (arith, length-words_of_bytes rest)
length-words_of_bytes (a ∷ b ∷ c ∷ []) = omega arith
length-words_of_bytes (a ∷ b ∷ []) = omega arith
length-words_of_bytes (a ∷ []) = omega arith
length-words_of_bytes [] = omega arith

-- A conversion that succeeds fits, and does the same wherever its words fit.
abbrev FitsAnywhere : (ℕ → Conversion) → ℕ → List ℕ → Type 0
FitsAnywhere convert room words =
    (length words ≤ room) × ((other : ℕ) → length words ≤ other → convert other ≡ (none, words))

decoded_words :
    (status : Base64Status) (whole : Bool) (written words : List ℕ)
    → (elim status as (λ _. Conversion) [
      | base64_ok ↦ if whole then (none, words_of_bytes written) else (some invalid_length, [])
      | base64_malformed ↦ (some (bad_base64 base64_malformed), [])
      | base64_overrun ↦ (some (bad_base64 base64_overrun), [])
    ])
      ≡ (none, words)
    → (status ≡ base64_ok) × (whole ≡ true) × (words ≡ words_of_bytes written)
decoded_words base64_ok true written words h = (refl, refl, sym (ap (λ (c : Conversion). c.1) h))
decoded_words base64_ok false written words h = absurd (cc h)
decoded_words base64_malformed whole written words h = absurd (cc h)
decoded_words base64_overrun whole written words h = absurd (cc h)

convert_base64_line-fits :
    (decode line : List ℕ) (room : ℕ) (words : List ℕ)
    → convert_base64_line decode line room ≡ (none, words)
    → FitsAnywhere (convert_base64_line decode line) room words
unfolding convert_base64_line
convert_base64_line-fits decode line room words h =
    elim (Option-cases (base64_decode decode line (room * 4))) [
      | inl e ↦ absurd (cc (h, e))
      | inr (r, e) ↦
          let (s, w, g) =
            decoded_words r.status (r.converted % 4 == 0) r.written words
              (rw (e, convert_base64_line) at h) in
          let (len, small, same) = base64_decode_ok decode line (room * 4) r e s in
          let c : r.converted % 4 ≡ 0 = (==_iff (r.converted % 4) 0).0 w in
          let l = length-words_of_bytes r.written in
          (
            rw g (omega arith),
            λ other k.
                let k' : length (words_of_bytes r.written) ≤ other = rw g at k in
                rw (same (other * 4) (omega arith), convert_base64_line, s, w, g) refl,
          )
    ]

module _ (ulong_mod : ℕ) where
  next_word :
      (room : ℕ) (line words : List ℕ) (result : Outcome ℕ)
      → (elim result as (λ _. Conversion) [
        | fail e ↦ (some (bad_number e), [])
        | ok v ↦ (
          (convert_ascii_line ulong_mod room line).0,
          v ∷ (convert_ascii_line ulong_mod room line).1,
        )
      ])
        ≡ (none, words)
      → (v : ℕ) × (rest : List ℕ) × (result ≡ ok v)
        × (convert_ascii_line ulong_mod room line ≡ (none, rest))
        × (words ≡ v ∷ rest)
  next_word room line words (fail e) h = absurd (cc h)
  next_word room line words (ok v) h = (
    v,
    (convert_ascii_line ulong_mod room line).1,
    refl,
    ap (λ x. (x, (convert_ascii_line ulong_mod room line).1)) (ap (λ (c : Conversion). c.0) h),
    sym (ap (λ (c : Conversion). c.1) h),
  )

  convert_ascii_line-fits :
      (room : ℕ) (line words : List ℕ)
      → convert_ascii_line ulong_mod room line ≡ (none, words)
      → FitsAnywhere (λ other. convert_ascii_line ulong_mod other line) room words
  unfolding convert_ascii_line
  convert_ascii_line-fits room [] words h =
      let w : words ≡ [] = sym (ap (λ (c : Conversion). c.1) h) in
      (rw w (omega arith), λ other k. rw w refl)
  convert_ascii_line-fits zero (c ∷ cs) words h = absurd (cc h)
  convert_ascii_line-fits (suc room) (c ∷ cs) words h =
      let (v, rest, e, f, g) =
        next_word room (parse_uint32 ulong_mod (c ∷ cs)).1 words (parse_uint32 ulong_mod (c ∷ cs)).0
          h in
      let (le, more) = convert_ascii_line-fits room (parse_uint32 ulong_mod (c ∷ cs)).1 rest f in
      (
        rw g (omega arith),
        λ other.
            elim other
              as (λ k. length words ≤ k → convert_ascii_line ulong_mod k (c ∷ cs) ≡ (none, words)) [
                | zero ↦ λ k. let k' : suc (length rest) ≤ 0 = rw g at k in absurd (omega arith)
                | suc o ↦ λ k.
                    let k' : suc (length rest) ≤ suc o = rw g at k in
                    rw (e, convert_ascii_line, more o (omega arith), g) refl
              ],
      )

  module _ (decode : List ℕ) (max_length row_words : ℕ) where
    convert_line-fits :
        (binary : Bool) (room : ℕ) (line words : List ℕ)
        → convert_line ulong_mod decode binary room line ≡ (none, words)
        → FitsAnywhere (λ other. convert_line ulong_mod decode binary other line) room words
    unfolding convert_line
    convert_line-fits true room line words h = convert_base64_line-fits decode line room words h
    convert_line-fits false room line words h = convert_ascii_line-fits room line words h

    -- The words of some lines, each converted with room for a whole table, if none is an error.
    unfoldable pub lines_words : Bool → List (List ℕ) → Option (List ℕ)
    lines_words binary [] = some []
    lines_words binary (line ∷ lines) =
        let (error, words) = convert_line ulong_mod decode binary max_length line in
        elim error [
          | some e ↦ none
          | none ↦ elim (lines_words binary lines) [
            | none ↦ none
            | some more ↦ some (words ++ more)
          ]
        ]

    abbrev pub writer : PutTableWriter TableBlock TableError
    writer = record {
      write = write_table_line ulong_mod decode max_length row_words;
      close = complete_table_write ulong_mod decode max_length row_words;
    }

    -- One line: an error and the block as it is, or the words that it adds.
    write_table_line_cases :
        (block : TableBlock) (line : List ℕ)
        → block.write_offset + length block.write_data ≤ max_length
        → max_length < u32_mod
        → ((e : TableError) × (write_table_line ulong_mod decode max_length row_words line block
              ≡ (some e, block))
            × ((words : List ℕ)
                → convert_line ulong_mod decode block.write_binary max_length line ≡ (none, words)
                → max_length < block.write_offset + length block.write_data + length words))
          ⊎ ((words : List ℕ) × (write_table_line ulong_mod decode max_length row_words line block
                ≡ (none, with_words block (block.write_data ++ words)))
              × (convert_line ulong_mod decode block.write_binary max_length line ≡ (none, words))
              × (block.write_offset + length block.write_data + length words ≤ max_length))
    unfolding write_table_line with_words
    write_table_line_cases block line fits small =
        let room = sub32 (sub32 max_length block.write_offset) (length block.write_data) in
        let e : room + (block.write_offset + length block.write_data) ≡ max_length = omega arith in
        let words = (convert_line ulong_mod decode block.write_binary room line).1 in
        elim (Option-cases (convert_line ulong_mod decode block.write_binary room line).0) [
          | inr (error, f) ↦ inl (
            error,
            rw (write_table_line, f) refl,
            λ words' h. elim (Bool-cases (leb (length words') room)) [
              | inl t ↦
                  let (l, same) = convert_line-fits block.write_binary max_length line words' h in
                  absurd (cc (same room (ground arith), f))
              | inr t ↦ ground arith
            ],
          )
          | inl f ↦
              let h : convert_line ulong_mod decode block.write_binary room line ≡ (none, words) =
                ap (λ x. (x, words)) f in
              let (l, same) = convert_line-fits block.write_binary room line words h in
              inr (words, rw (write_table_line, f) refl, same max_length (omega arith), omega arith)
        ]

    lines_words-cons :
        (binary : Bool) (line : List ℕ) (lines : List (List ℕ)) (more : List ℕ)
        → lines_words binary (line ∷ lines) ≡ some more
        → (words rest : List ℕ) × (convert_line ulong_mod decode binary max_length line
            ≡ (none, words))
          × (lines_words binary lines ≡ some rest)
          × (more ≡ words ++ rest)
    unfolding lines_words
    lines_words-cons binary line lines more h =
        let words = (convert_line ulong_mod decode binary max_length line).1 in
        elim (Option-cases (convert_line ulong_mod decode binary max_length line).0) [
          | inr (e, f) ↦ absurd (cc (rw (lines_words, f) at h))
          | inl f ↦ elim (Option-cases (lines_words binary lines)) [
            | inl g ↦ absurd (cc (rw (lines_words, f, g) at h))
            | inr (rest, g) ↦
                let k : some (words ++ rest) ≡ some more = rw (lines_words, f, g) at h in
                (words, rest, ap (λ x. (x, words)) f, g, cc k)
          ]
        ]

    pub lines_words-more :
        (binary : Bool) (line : List ℕ) (lines : List (List ℕ)) (words rest : List ℕ)
        → convert_line ulong_mod decode binary max_length line ≡ (none, words)
        → lines_words binary lines ≡ some rest
        → lines_words binary (line ∷ lines) ≡ some (words ++ rest)
    unfolding lines_words
    lines_words-more binary line lines words rest g h =
        rw (lines_words, g, h) (ap (λ (c : Conversion). some (c.1 ++ rest)) g)

    -- A write that is under way: the block with the words of the lines so far, or as the first error
    -- left it.
    pub write_all_cases :
        (block : TableBlock) (lines : List (List ℕ))
        → block.write_offset + length block.write_data ≤ max_length
        → max_length < u32_mod
        → ((e : TableError) × (words : List ℕ) × (write_all writer lines block
              ≡ (some e, with_words block words))
            × ((more : List ℕ)
                → lines_words block.write_binary lines ≡ some more
                → max_length < block.write_offset + length block.write_data + length more))
          ⊎ ((words : List ℕ) × (write_all writer lines block
                ≡ (none, with_words block (block.write_data ++ words)))
              × (lines_words block.write_binary lines ≡ some words)
              × (block.write_offset + length block.write_data + length words ≤ max_length))
    unfolding with_words write_all lines_words
    write_all_cases block [] fits small =
        inr ([], rw (append-nil block.write_data) refl, refl, omega arith)
    write_all_cases block (line ∷ lines) fits small =
        elim (write_table_line_cases block line fits small) [
          | inl (e, f, much) ↦ inl (
            e,
            block.write_data,
            rw (write_all, f) (ap (λ (x : Option TableError × TableBlock). (some e, x.1)) f),
            λ more h.
                let (words, rest, g, k, l) =
                  lines_words-cons block.write_binary line lines more h in
                let n : length more ≡ length words + length rest =
                  rw l (length-append words rest) in
                omega (arith, much words g),
          )
          | inr (words, f, g, k) ↦
              let next = with_words block (block.write_data ++ words) in
              let l = length-append block.write_data words in
              let step : write_all writer (line ∷ lines) block ≡ write_all writer lines next =
                rw (write_all, f)
                  (ap (λ (x : Option TableError × TableBlock). write_all writer lines x.1) f) in
              elim (write_all_cases next lines (omega arith) small) [
                | inl (e, words', f', much) ↦ inl (
                  e,
                  words',
                  step ∙ f',
                  λ more h.
                      let (words1, rest, g1, k1, l1) =
                        lines_words-cons block.write_binary line lines more h in
                      let same : words1 ≡ words = ap (λ (c : Conversion). c.1) (sym g1 ∙ g) in
                      let n : length more ≡ length words + length rest =
                        rw (l1, same) (length-append words rest) in
                      omega (arith, much rest k1),
                )
                | inr (words', f', g', k') ↦
                    let n = length-append words words' in
                    inr (
                      words ++ words',
                      step
                          ∙ f'
                          ∙ ap (λ x. (none, with_words block x))
                              (append_assoc block.write_data words words'),
                      lines_words-more block.write_binary line lines words words' g g',
                      omega arith,
                    )
              ]
        ]
