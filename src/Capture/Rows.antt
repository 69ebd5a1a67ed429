-- ===== src/Capture/Rows.antt =====
-- server/capture.c: the printing of samples reads what the conversion has written.
use pand_ablocks_server.Prelude.{
  ℕ, zero, suc, ◌+◌, ◌*◌, ◌≤◌, ◌≡◌, refl, sym, ap, ◌∙◌, arith, List, [], ◌∷◌, ◌++◌, All, Option,
  some, length, get_or, take, drop, map, append-nil, append_assoc, length-append, length-take_le,
  length-drop, drop-drop,
}
use native.Mathlib.Nat.{suc-mul, zero-mul}
use pand_ablocks_server.Capture.{
  Doubles, Scaling, DataCapture, DataProcess, process_raw, process_unscaled, process_scaled, Item,
  word, real, words_at, average64, longs, used_count, copy_unscaled_fields, average_unscaled_data,
  convert_unscaled_sample, convert_unscaled_data, scale_values, convert_scaled32, convert_scaled64,
  average_values, average_scaled_data, convert_scaled_sample, convert_scaled_data,
  convert_raw_data_to_binary,
}
use pand_ablocks_server.Capture.Layout.{IsLaidOut}
use pand_ablocks_server.Capture.Sizes.{length-words_at, length-longs}
use pand_ablocks_server.Capture.Ascii.{
  Printed, unsigned32, signed32, double, Formatted, add_printed, then_format, format_words,
  format_longs, format_doubles, send_raw_as_ascii, send_unscaled_as_ascii, send_scaled_as_ascii,
  send_row, send_binary_as_ascii,
}

drop_all : (n : ℕ) (ws : List ℕ) → length ws ≡ n → drop n ws ≡ []
drop_all zero [] h = refl
drop_all zero (w ∷ ws) h = absurd (omega arith)
drop_all (suc n) [] h = refl
drop_all (suc n) (w ∷ ws) h = drop_all n ws (omega arith)

length-map_numbers : (f : ℕ → ℕ) (xs : List ℕ) → length (map f xs) ≡ length xs
length-map_numbers f [] = refl
length-map_numbers f (x ∷ xs) = ap suc (length-map_numbers f xs)

drop-drop-drop {ℓ} :
    {A : Type ℓ} (a b c total : ℕ) (xs : List A)
    → total ≡ a + b + c
    → drop total xs ≡ drop c (drop b (drop a xs))
drop-drop-drop a b c total xs h =
    drop-drop (a + b) c total xs h ∙ ap (λ t. drop c t) (drop-drop a b (a + b) xs refl)

append_four {ℓ} :
    {A : Type ℓ} (a b c e rest : List A)
    → (a ++ (b ++ (c ++ e))) ++ rest ≡ a ++ (b ++ (c ++ (e ++ rest)))
append_four a b c e rest =
    append_assoc a (b ++ (c ++ e)) rest
    ∙ ap (λ t. a ++ t) (append_assoc b (c ++ e) rest ∙ ap (λ t. b ++ t) (append_assoc c e rest))

module _ {D : Type 0} where
  -- So many numbers are printed, and then the memory is that.
  abbrev Prints : Formatted D → ℕ → List (Item D) → Type 0
  Prints formatted n rest =
      (ps : List (Printed D)) × (formatted ≡ some (ps, rest)) × (length ps ≡ n)

  then_format-Prints :
      (first : Formatted D) (next : List (Item D) → Formatted D) (n m : ℕ)
      (middle rest : List (Item D))
      → Prints first n middle
      → Prints (next middle) m rest
      → Prints (then_format first next) (n + m) rest
  unfolding then_format
  then_format-Prints first next n m middle rest (ps, e, l) (qs, f, k) =
      (ps ++ qs, rw (e, then_format, f) refl, length-append ps qs ∙ rw (l, k) refl)

  add_printed-Prints :
      (p : Printed D) (formatted : Formatted D) (n : ℕ) (rest : List (Item D))
      → Prints formatted n rest
      → Prints (add_printed p formatted) (suc n) rest
  unfolding add_printed
  add_printed-Prints p formatted n rest (ps, e, l) = (p ∷ ps, rw e refl, ap suc l)

  -- Words, with more after them.
  abbrev words_then : List ℕ → List (Item D) → List (Item D)
  words_then ws rest = map word ws ++ rest

  format_words-Prints :
      (print : ℕ → Printed D) (n : ℕ) (ws : List ℕ) (rest : List (Item D))
      → n ≤ length ws
      → Prints (format_words print n (words_then ws rest)) n (words_then (drop n ws) rest)
  unfolding format_words
  format_words-Prints print zero ws rest h = ([], refl, refl)
  format_words-Prints print (suc n) [] rest h = absurd (omega arith)
  format_words-Prints print (suc n) (w ∷ ws) rest h =
      add_printed-Prints (print w) _ n _ (format_words-Prints print n ws rest (omega arith))

  format_longs-Prints :
      (n : ℕ) (ws : List ℕ) (rest : List (Item D))
      → 2 * n ≤ length ws
      → Prints (format_longs n (words_then ws rest)) n (words_then (drop (2 * n) ws) rest)
  unfolding format_longs
  format_longs-Prints zero ws rest h = ([], refl, refl)
  format_longs-Prints (suc n) [] rest h = absurd (omega arith)
  format_longs-Prints (suc n) (w ∷ []) rest h = absurd (omega arith)
  format_longs-Prints (suc n) (low ∷ high ∷ ws) rest h =
      let e : 2 * suc n ≡ suc (suc (2 * n)) = omega arith in
      rw e (add_printed-Prints _ _ n _ (format_longs-Prints n ws rest (omega arith)))

  -- Memory that holds so many doubles.
  abbrev AreReals : List (Item D) → ℕ → Type 0
  AreReals items n = (ds : List D) × (items ≡ map real ds) × (length ds ≡ n)

  format_doubles-Prints :
      (ds : List D) (n : ℕ) (rest : List (Item D))
      → length ds ≡ n
      → Prints (format_doubles n (map real ds ++ rest)) n rest
  unfolding format_doubles
  format_doubles-Prints [] zero rest h = ([], refl, refl)
  format_doubles-Prints [] (suc n) rest h = absurd (omega arith)
  format_doubles-Prints (d ∷ ds) zero rest h = absurd (omega arith)
  format_doubles-Prints (d ∷ ds) (suc n) rest h =
      add_printed-Prints (double d) _ n rest (format_doubles-Prints ds n rest (omega arith))

  words_exactly :
      (print : ℕ → Printed D) (n : ℕ) (ws : List ℕ) (rest : List (Item D))
      → length ws ≡ n
      → Prints (format_words print n (words_then ws rest)) n rest
  words_exactly print n ws rest h =
      rw (drop_all n ws h) at (format_words-Prints print n ws rest (omega arith))

  longs_exactly :
      (n : ℕ) (ws : List ℕ) (rest : List (Item D))
      → length ws ≡ 2 * n
      → Prints (format_longs n (words_then ws rest)) n rest
  longs_exactly n ws rest h =
      rw (drop_all (2 * n) ws h) at (format_longs-Prints n ws rest (omega arith))

  map_word-map :
      (f : ℕ → ℕ) (xs : List ℕ) → map {B = Item D} (λ x. word (f x)) xs ≡ map word (map f xs)
  map_word-map f [] = refl
  map_word-map f (x ∷ xs) = ap (λ t. word (f x) ∷ t) (map_word-map f xs)

  map_real-append : (ds es : List D) → map {B = Item D} real (ds ++ es) ≡ map real ds ++ map real es
  map_real-append [] es = refl
  map_real-append (d ∷ ds) es = ap (λ t. real d ∷ t) (map_real-append ds es)

  AreReals-append :
      (xs ys : List (Item D)) (n m : ℕ)
      → AreReals xs n
      → AreReals ys m
      → AreReals (xs ++ ys) (n + m)
  AreReals-append xs ys n m (ds, e, l) (es, f, k) =
      (ds ++ es, rw (e, f) (sym (map_real-append ds es)), length-append ds es ∙ rw (l, k) refl)

  reals_exactly :
      (items : List (Item D)) (n : ℕ) (rest : List (Item D))
      → AreReals items n
      → Prints (format_doubles n (items ++ rest)) n rest
  reals_exactly items n rest (ds, e, l) = rw e (format_doubles-Prints ds n rest l)

  module _ (capture : DataCapture D) where
    -- The numbers of a row.
    unfoldable pub row_numbers : DataProcess → ℕ
    row_numbers process_raw =
        capture.unscaled.index
        + capture.unscaled.count
        + (capture.scaled32.count + (capture.scaled64.count + capture.averaged.count))
    row_numbers process_unscaled =
        capture.unscaled.count
        + (capture.scaled32.count + (capture.scaled64.count + capture.averaged.count))
    row_numbers process_scaled =
        capture.unscaled.count
        + (capture.scaled32.count + capture.scaled64.count + capture.averaged.count)

    -- So many rows, of so many numbers each, and then the memory is that.
    unfoldable pub PrintsRows :
        DataProcess → ℕ → Option (List (List (Printed D)) × List (Item D)) → List (Item D) → Type 0
    PrintsRows process n result after =
        (rows : List (List (Printed D))) × (result ≡ some (rows, after))
        × (length rows ≡ n)
        × All (λ row. length row ≡ row_numbers process) rows

  module _ (capture : DataCapture D) (laid_out : IsLaidOut capture) where
    row_unscaled :
        (input : List ℕ) (rest : List (Item D))
        → capture.raw_sample_words ≤ length input
        → Prints
            (send_unscaled_as_ascii capture (convert_unscaled_sample capture input ++ rest))
            (capture.unscaled.count
              + (capture.scaled32.count + (capture.scaled64.count + capture.averaged.count)))
            rest
    unfolding send_unscaled_as_ascii convert_unscaled_sample copy_unscaled_fields
        average_unscaled_data IsLaidOut
    row_unscaled input rest h =
        let (a, b, c, e, f) = laid_out in
        let count = used_count (get_or input capture.sample_count_index 0) in
        let sums = words_at input capture.averaged.index (2 * capture.averaged.count) in
        let w1 = words_at input capture.unscaled.index (1 * capture.unscaled.count) in
        let w2 = words_at input capture.scaled32.index (1 * capture.scaled32.count) in
        let w3 = words_at input capture.scaled64.index (2 * capture.scaled64.count) in
        let w4 = map (λ bits. average64 bits count) (longs sums) in
        let n1 =
          length-words_at input capture.unscaled.index (1 * capture.unscaled.count) (omega arith) in
        let n2 =
          length-words_at input capture.scaled32.index (1 * capture.scaled32.count) (omega arith) in
        let n3 =
          length-words_at input capture.scaled64.index (2 * capture.scaled64.count) (omega arith) in
        let n4 =
          length-words_at input capture.averaged.index (2 * capture.averaged.count) (omega arith) in
        let l4 = length-longs sums in
        let k4 = length-map_numbers (λ bits. average64 bits count) (longs sums) in
        let tail = words_then w2 (words_then w3 (words_then w4 rest)) in
        let split : (map word w1
                ++ (map word w2
                    ++ (map word w3
                        ++ map {B = Item D} (λ bits. word (average64 bits count)) (longs sums))))
              ++ rest
            ≡ words_then w1 tail =
          rw (map_word-map (λ bits. average64 bits count) (longs sums))
            (append_four (map word w1) (map word w2) (map word w3) (map word w4) rest) in
        rw split (
          then_format-Prints _ _ _ _ tail rest (words_exactly unsigned32 _ w1 tail (omega arith)) (
            then_format-Prints _ _ _ _ (words_then w3 (words_then w4 rest)) rest
              (words_exactly signed32 _ w2 _ (omega arith))
              (then_format-Prints _ _ _ _ (words_then w4 rest) rest
                (longs_exactly _ w3 _ (omega arith))
                (words_exactly signed32 _ w4 rest (omega arith)))))

    row_raw :
        (ws : List ℕ) (rest : List (Item D))
        → capture.raw_sample_words ≤ length ws
        → Prints
            (send_raw_as_ascii capture (words_then ws rest))
            (capture.unscaled.index
              + capture.unscaled.count
              + (capture.scaled32.count + (capture.scaled64.count + capture.averaged.count)))
            (words_then (drop capture.raw_sample_words ws) rest)
    unfolding send_raw_as_ascii IsLaidOut
    row_raw ws rest h =
        let (a, b, c, e, f) = laid_out in
        let n1 = capture.unscaled.index + capture.unscaled.count in
        let n2 = capture.scaled32.count in
        let n3 = capture.scaled64.count + capture.averaged.count in
        let w1 = drop n1 ws in
        let w2 = drop n2 w1 in
        let l1 = length-drop n1 ws in
        let l2 = length-drop n2 w1 in
        let whole : drop capture.raw_sample_words ws ≡ drop (2 * n3) w2 =
          drop-drop-drop n1 n2 (2 * n3) capture.raw_sample_words ws (omega arith) in
        rw whole (
          then_format-Prints _ _ n1 _ (words_then w1 rest) _
            (format_words-Prints unsigned32 n1 ws rest (omega arith))
            (then_format-Prints _ _ n2 n3 (words_then w2 rest) _
              (format_words-Prints signed32 n2 w1 rest (omega arith))
              (format_longs-Prints n3 w2 rest (omega arith))))

    module _ (d : Doubles D) where
      scale_values-AreReals :
          (convert : ℕ → D) (scalings : List (Scaling D)) (index : ℕ) (xs : List ℕ)
          → AreReals (scale_values d convert scalings index xs) (length xs)
      unfolding scale_values
      scale_values-AreReals convert scalings index [] = ([], refl, refl)
      scale_values-AreReals convert scalings index (x ∷ xs) =
          let (ds, e, l) = scale_values-AreReals convert scalings (suc index) xs in
          let s = get_or scalings index (record { scale = d.nought; offset = d.nought }) in
          let v = d.plus (d.times s.scale (convert x)) s.offset in
          (v ∷ ds, ap (λ t. real v ∷ t) e, ap suc l)

      average_values-AreReals :
          (count : ℕ) (scalings : List (Scaling D)) (index : ℕ) (xs : List ℕ)
          → AreReals (average_values d count scalings index xs) (length xs)
      unfolding average_values
      average_values-AreReals count scalings index [] = ([], refl, refl)
      average_values-AreReals count scalings index (x ∷ xs) =
          let (ds, e, l) = average_values-AreReals count scalings (suc index) xs in
          let s = get_or scalings index (record { scale = d.nought; offset = d.nought }) in
          let v = d.plus (d.over (d.times s.scale (d.of_int64 x)) count) s.offset in
          (v ∷ ds, ap (λ t. real v ∷ t) e, ap suc l)

      row_scaled :
          (input : List ℕ) (rest : List (Item D))
          → capture.raw_sample_words ≤ length input
          → Prints
              (send_scaled_as_ascii capture (convert_scaled_sample d capture input ++ rest))
              (capture.unscaled.count
                + (capture.scaled32.count + capture.scaled64.count + capture.averaged.count))
              rest
      unfolding send_scaled_as_ascii convert_scaled_sample copy_unscaled_fields convert_scaled32
          convert_scaled64 average_scaled_data IsLaidOut
      row_scaled input rest h =
          let (a, b, c, e, f) = laid_out in
          let count = used_count (get_or input capture.sample_count_index 0) in
          let w1 = words_at input capture.unscaled.index (1 * capture.unscaled.count) in
          let w2 = words_at input capture.scaled32.index capture.scaled32.count in
          let w3 = words_at input capture.scaled64.index (2 * capture.scaled64.count) in
          let w4 = words_at input capture.averaged.index (2 * capture.averaged.count) in
          let n1 =
            length-words_at input capture.unscaled.index (1 * capture.unscaled.count)
              (omega arith) in
          let n2 =
            length-words_at input capture.scaled32.index capture.scaled32.count (omega arith) in
          let n3 =
            length-words_at input capture.scaled64.index (2 * capture.scaled64.count)
              (omega arith) in
          let n4 =
            length-words_at input capture.averaged.index (2 * capture.averaged.count)
              (omega arith) in
          let l3 = length-longs w3 in
          let l4 = length-longs w4 in
          let x2 = scale_values d d.of_int32 capture.scalings capture.scaled32.scaling w2 in
          let x3 = scale_values d d.of_int64 capture.scalings capture.scaled64.scaling (longs w3) in
          let x4 = average_values d count capture.scalings capture.averaged.scaling (longs w4) in
          let total : length w2 + (length (longs w3) + length (longs w4))
              ≡ capture.scaled32.count + capture.scaled64.count + capture.averaged.count =
            omega arith in
          let reals =
            AreReals-append x2 (x3 ++ x4) _ _
              (scale_values-AreReals d.of_int32 capture.scalings capture.scaled32.scaling w2)
              (AreReals-append x3 x4 _ _
                (scale_values-AreReals d.of_int64 capture.scalings capture.scaled64.scaling
                  (longs w3))
                (average_values-AreReals count capture.scalings capture.averaged.scaling
                  (longs w4))) in
          rw (append_assoc (map word w1) (x2 ++ (x3 ++ x4)) rest) (
            then_format-Prints _ _ _ _ ((x2 ++ (x3 ++ x4)) ++ rest) rest
              (words_exactly unsigned32 _ w1 _ (omega arith))
              (reals_exactly (x2 ++ (x3 ++ x4)) _ rest (rw total at reals)))

      one_row :
          (process : DataProcess) (n : ℕ) (items rest after : List (Item D))
          → Prints (send_row capture process items) (row_numbers capture process) rest
          → PrintsRows capture process n (send_binary_as_ascii capture process n rest) after
          → PrintsRows capture process
              (suc n)
              (send_binary_as_ascii capture process (suc n) items)
              after
      unfolding PrintsRows send_binary_as_ascii
      one_row process n items rest after (row, e, l) (rows, f, k, m) =
          (row ∷ rows, rw (e, send_binary_as_ascii, f) refl, ap suc k, (l, m))

      rows_unscaled :
          (n : ℕ) (input : List ℕ)
          → n * capture.raw_sample_words ≤ length input
          → PrintsRows capture process_unscaled n
              (send_binary_as_ascii capture process_unscaled n
                (convert_unscaled_data capture n input))
              []
      unfolding PrintsRows send_binary_as_ascii convert_unscaled_data row_numbers send_row
      rows_unscaled zero input h = ([], refl, refl, tt)
      rows_unscaled (suc n) input h =
          let m = suc-mul n capture.raw_sample_words in
          let l = length-drop capture.raw_sample_words input in
          one_row process_unscaled n _ _ []
            (row_unscaled input
              (convert_unscaled_data capture n (drop capture.raw_sample_words input)) (omega arith))
            (rows_unscaled n (drop capture.raw_sample_words input) (omega arith))

      rows_scaled :
          (n : ℕ) (input : List ℕ)
          → n * capture.raw_sample_words ≤ length input
          → PrintsRows capture process_scaled n
              (send_binary_as_ascii capture process_scaled n
                (convert_scaled_data d capture n input))
              []
      unfolding PrintsRows send_binary_as_ascii convert_scaled_data row_numbers send_row
      rows_scaled zero input h = ([], refl, refl, tt)
      rows_scaled (suc n) input h =
          let m = suc-mul n capture.raw_sample_words in
          let l = length-drop capture.raw_sample_words input in
          one_row process_scaled n _ _ []
            (row_scaled input
              (convert_scaled_data d capture n (drop capture.raw_sample_words input)) (omega arith))
            (rows_scaled n (drop capture.raw_sample_words input) (omega arith))

      rows_raw :
          (n : ℕ) (ws : List ℕ)
          → n * capture.raw_sample_words ≤ length ws
          → PrintsRows capture process_raw n
              (send_binary_as_ascii capture process_raw n (words_then ws []))
              (words_then (drop (n * capture.raw_sample_words) ws) [])
      unfolding PrintsRows send_binary_as_ascii row_numbers send_row
      rows_raw zero ws h = let z = zero-mul capture.raw_sample_words in rw z ([], refl, refl, tt)
      rows_raw (suc n) ws h =
          let raw = capture.raw_sample_words in
          let m = suc-mul n raw in
          let l = length-drop raw ws in
          let e = drop-drop raw (n * raw) (suc n * raw) ws (omega arith) in
          rw e (
            one_row process_raw n _ _ _ (row_raw ws [] (omega arith))
              (rows_raw n (drop raw ws) (omega arith)))

      -- For a capture that is laid out as gather_data_capture does it, and input of at least so
      -- many raw samples, send_binary_as_ascii reads the converted data with the types with which
      -- they were written, never past their end, in every form of processing: it prints a row for
      -- each sample, with a number for each field and in raw form for the hidden word as well, and
      -- all the data are read then.
      pub send_binary_as_ascii-convert_raw_data_to_binary :
          (process : DataProcess) (n : ℕ) (input : List ℕ)
          → n * capture.raw_sample_words ≤ length input
          → PrintsRows capture process n
              (send_binary_as_ascii capture process n
                (convert_raw_data_to_binary d capture process n input))
              []
      unfolding convert_raw_data_to_binary
      send_binary_as_ascii-convert_raw_data_to_binary process_unscaled n input h =
          rows_unscaled n input h
      send_binary_as_ascii-convert_raw_data_to_binary process_scaled n input h =
          rows_scaled n input h
      send_binary_as_ascii-convert_raw_data_to_binary process_raw n input h =
          let size = n * capture.raw_sample_words in
          let l = length-take_le size input h in
          let r = rows_raw n (take size input) (omega arith) in
          rw
            (
              drop_all size (take size input) l,
              append-nil (map {B = Item D} word (take size input)),
            )
            at r
