-- ===== src/Capture/Sizes.antt =====
-- server/capture.c: how many bytes a conversion writes.
use pand_ablocks_server.Prelude.{
  ℕ, zero, suc, ◌+◌, ◌*◌, ◌/◌, ◌≤◌, ◌≡◌, sym, ap, ◌∙◌, arith, List, [], ◌∷◌, ◌++◌, length, get_or,
  take, drop, map, length-take_le, length-drop,
}
use native.Mathlib.Nat.{suc-mul, zero-mul}
use pand_ablocks_server.Capture.{
  FieldGroup, Doubles, Scaling, DataCapture, DataProcess, process_raw, process_unscaled,
  process_scaled, Item, word, item_bytes, bytes_written, words_at, average64, longs, used_count,
  copy_unscaled_fields, average_unscaled_data, convert_unscaled_sample, convert_unscaled_data,
  get_binary_sample_length, scale_values, convert_scaled32, convert_scaled64, average_values,
  average_scaled_data, convert_scaled_sample, convert_scaled_data, convert_raw_data_to_binary,
}
use pand_ablocks_server.Capture.Layout.{IsLaidOut}

pub length-words_at :
    (input : List ℕ) (index count : ℕ)
    → index + count ≤ length input
    → length (words_at input index count) ≡ count
unfolding words_at
length-words_at input index count h =
    let d = length-drop index input in length-take_le count (drop index input) (omega arith)

pub length-longs : (words : List ℕ) → length (longs words) ≡ length words / 2
unfolding longs
length-longs (low ∷ high ∷ words) = omega (arith, length-longs words)
length-longs (low ∷ []) = omega arith
length-longs [] = omega arith

module _ (D : Type 0) where
  bytes_written-map_word :
      {A : Type 0} (f : A → ℕ) (xs : List A)
      → bytes_written {D = D} (map (λ x. word (f x)) xs) ≡ 4 * length xs
  unfolding bytes_written item_bytes
  bytes_written-map_word f [] = omega arith
  bytes_written-map_word f (x ∷ xs) = omega (arith, bytes_written-map_word f xs)

  bytes_written-copy :
      (fields : FieldGroup) (input : List ℕ) (field_words : ℕ)
      → fields.index + field_words * fields.count ≤ length input
      → bytes_written {D = D} (copy_unscaled_fields fields input field_words)
        ≡ 4 * (field_words * fields.count)
  unfolding copy_unscaled_fields
  bytes_written-copy fields input field_words h =
      bytes_written-map_word (λ w. w) (words_at input fields.index (field_words * fields.count))
      ∙ ap (λ n. 4 * n) (length-words_at input fields.index (field_words * fields.count) h)

module _ {D : Type 0} where
  bytes_written-append :
      (xs ys : List (Item D)) → bytes_written (xs ++ ys) ≡ bytes_written xs + bytes_written ys
  unfolding bytes_written
  bytes_written-append [] ys = omega arith
  bytes_written-append (x ∷ xs) ys = omega (arith, bytes_written-append xs ys)

  module _ (d : Doubles D) where
    bytes_written-scale_values :
        (convert : ℕ → D) (scalings : List (Scaling D)) (index : ℕ) (xs : List ℕ)
        → bytes_written (scale_values d convert scalings index xs) ≡ 8 * length xs
    unfolding bytes_written item_bytes scale_values
    bytes_written-scale_values convert scalings index [] = omega arith
    bytes_written-scale_values convert scalings index (x ∷ xs) =
        omega (arith, bytes_written-scale_values convert scalings (suc index) xs)

    bytes_written-average_values :
        (count : ℕ) (scalings : List (Scaling D)) (index : ℕ) (xs : List ℕ)
        → bytes_written (average_values d count scalings index xs) ≡ 8 * length xs
    unfolding bytes_written item_bytes average_values
    bytes_written-average_values count scalings index [] = omega arith
    bytes_written-average_values count scalings index (x ∷ xs) =
        omega (arith, bytes_written-average_values count scalings (suc index) xs)

    module _ (capture : DataCapture D) (laid_out : IsLaidOut capture) where
      -- One sample of each form.
      bytes_written-unscaled :
          (input : List ℕ)
          → capture.raw_sample_words ≤ length input
          → bytes_written (convert_unscaled_sample capture input)
            ≡ get_binary_sample_length capture process_unscaled
      unfolding convert_unscaled_sample get_binary_sample_length average_unscaled_data IsLaidOut
      bytes_written-unscaled input h =
          let (a, b, c, e, f) = laid_out in
          let count = used_count (get_or input capture.sample_count_index 0) in
          let sums = longs (words_at input capture.averaged.index (2 * capture.averaged.count)) in
          let x1 = bytes_written-copy D capture.unscaled input 1 (omega arith) in
          let x2 = bytes_written-copy D capture.scaled32 input 1 (omega arith) in
          let x3 = bytes_written-copy D capture.scaled64 input 2 (omega arith) in
          let x4 = bytes_written-map_word D (λ bits. average64 bits count) sums in
          let n1 =
            length-longs (words_at input capture.averaged.index (2 * capture.averaged.count)) in
          let n2 =
            length-words_at input capture.averaged.index (2 * capture.averaged.count)
              (omega arith) in
          let p1 = bytes_written-append (copy_unscaled_fields capture.unscaled input 1) (
            copy_unscaled_fields capture.scaled32 input 1
            ++ (copy_unscaled_fields capture.scaled64 input 2
                ++ average_unscaled_data capture input)) in
          let p2 = bytes_written-append (copy_unscaled_fields capture.scaled32 input 1) (
            copy_unscaled_fields capture.scaled64 input 2 ++ average_unscaled_data capture input) in
          let p3 =
            bytes_written-append (copy_unscaled_fields capture.scaled64 input 2)
              (average_unscaled_data capture input) in
          omega arith

      bytes_written-scaled :
          (input : List ℕ)
          → capture.raw_sample_words ≤ length input
          → bytes_written (convert_scaled_sample d capture input)
            ≡ get_binary_sample_length capture process_scaled
      unfolding convert_scaled_sample get_binary_sample_length IsLaidOut convert_scaled32
          convert_scaled64 average_scaled_data
      bytes_written-scaled input h =
          let (a, b, c, e, f) = laid_out in
          let count = used_count (get_or input capture.sample_count_index 0) in
          let w32 = words_at input capture.scaled32.index capture.scaled32.count in
          let w64 = words_at input capture.scaled64.index (2 * capture.scaled64.count) in
          let sums = words_at input capture.averaged.index (2 * capture.averaged.count) in
          let x1 = bytes_written-copy D capture.unscaled input 1 (omega arith) in
          let x2 =
            bytes_written-scale_values d.of_int32 capture.scalings capture.scaled32.scaling w32 in
          let x3 =
            bytes_written-scale_values d.of_int64 capture.scalings capture.scaled64.scaling
              (longs w64) in
          let x4 =
            bytes_written-average_values count capture.scalings capture.averaged.scaling
              (longs sums) in
          let n2 =
            length-words_at input capture.scaled32.index capture.scaled32.count (omega arith) in
          let n3 =
            length-words_at input capture.scaled64.index (2 * capture.scaled64.count)
              (omega arith) in
          let n4 =
            length-words_at input capture.averaged.index (2 * capture.averaged.count)
              (omega arith) in
          let m3 = length-longs w64 in
          let m4 = length-longs sums in
          let p1 = bytes_written-append (copy_unscaled_fields capture.unscaled input 1) (
            convert_scaled32 d capture input
            ++ (convert_scaled64 d capture input ++ average_scaled_data d capture input)) in
          let p2 =
            bytes_written-append (convert_scaled32 d capture input)
              (convert_scaled64 d capture input ++ average_scaled_data d capture input) in
          let p3 =
            bytes_written-append (convert_scaled64 d capture input)
              (average_scaled_data d capture input) in
          omega arith

      samples_unscaled :
          (n : ℕ) (input : List ℕ)
          → n * capture.raw_sample_words ≤ length input
          → bytes_written (convert_unscaled_data capture n input)
            ≡ n * get_binary_sample_length capture process_unscaled
      unfolding convert_unscaled_data bytes_written
      samples_unscaled zero input h =
          sym (zero-mul (get_binary_sample_length capture process_unscaled))
      samples_unscaled (suc n) input h =
          let m = suc-mul n capture.raw_sample_words in
          let k = suc-mul n (get_binary_sample_length capture process_unscaled) in
          let l = length-drop capture.raw_sample_words input in
          let rest = convert_unscaled_data capture n (drop capture.raw_sample_words input) in
          let a = bytes_written-append (convert_unscaled_sample capture input) rest in
          let b = bytes_written-unscaled input (omega arith) in
          let c = samples_unscaled n (drop capture.raw_sample_words input) (omega arith) in
          omega arith

      samples_scaled :
          (n : ℕ) (input : List ℕ)
          → n * capture.raw_sample_words ≤ length input
          → bytes_written (convert_scaled_data d capture n input)
            ≡ n * get_binary_sample_length capture process_scaled
      unfolding convert_scaled_data bytes_written
      samples_scaled zero input h = sym (zero-mul (get_binary_sample_length capture process_scaled))
      samples_scaled (suc n) input h =
          let m = suc-mul n capture.raw_sample_words in
          let k = suc-mul n (get_binary_sample_length capture process_scaled) in
          let l = length-drop capture.raw_sample_words input in
          let rest = convert_scaled_data d capture n (drop capture.raw_sample_words input) in
          let a = bytes_written-append (convert_scaled_sample d capture input) rest in
          let b = bytes_written-scaled input (omega arith) in
          let c = samples_scaled n (drop capture.raw_sample_words input) (omega arith) in
          omega arith

      -- For a capture that is laid out as gather_data_capture does it, and input of at least so
      -- many raw samples, convert_raw_data_to_binary writes as many bytes as
      -- get_binary_sample_length says for each sample, in every form of processing.
      pub convert_raw_data_to_binary-bytes_written :
          (process : DataProcess) (n : ℕ) (input : List ℕ)
          → n * capture.raw_sample_words ≤ length input
          → bytes_written (convert_raw_data_to_binary d capture process n input)
            ≡ n * get_binary_sample_length capture process
      unfolding convert_raw_data_to_binary get_binary_sample_length
      convert_raw_data_to_binary-bytes_written process_raw n input h =
          let a = bytes_written-map_word D (λ w. w) (take (n * capture.raw_sample_words) input) in
          let l = length-take_le (n * capture.raw_sample_words) input h in
          let c : n * (4 * capture.raw_sample_words) ≡ 4 * (n * capture.raw_sample_words) =
            grind arith in
          omega arith
      convert_raw_data_to_binary-bytes_written process_unscaled n input h =
          samples_unscaled n input h
      convert_raw_data_to_binary-bytes_written process_scaled n input h = samples_scaled n input h
