-- ===== src/Capture.antt =====
-- server/capture.c: the layout of a captured sample and its conversions. A raw sample is a list of
-- 32-bit words; what is written for a client is a list of items, words of four bytes and doubles of
-- eight. The arithmetic of doubles is an interface. Capture/Gather lays a sample out.
pub mod Gather
pub mod Layout
pub mod Sizes
pub mod Ascii
pub mod Rows
mod Tests
use pand_ablocks_server.Prelude.{
  ℕ, zero, suc, ◌+◌, ◌-◌, ◌*◌, ◌/◌, ◌%◌, ◌^◌, Bool, true, false, List, [], ◌∷◌, ◌++◌, Option, none,
  some, ltb, ◌==◌, if◌then◌else◌, length, take, drop, get_or, u32_mod, u64_mod, map,
}

pub record FieldGroup : Type 0 where
  pub index : ℕ
  pub count : ℕ
  pub scaling : ℕ

-- `double` with the operations that the conversions use. An integer is given by its bits.
pub record Doubles (D : Type 0) : Type 0 where
  pub of_int32 : ℕ → D
  pub of_int64 : ℕ → D
  pub times : D → D → D
  pub plus : D → D → D
  pub over : D → ℕ → D
  pub nought : D

pub record Scaling (D : Type 0) : Type 0 where
  pub scale : D
  pub offset : D

-- `struct data_capture`.
pub record DataCapture (D : Type 0) : Type 0 where
  pub raw_sample_words : ℕ
  pub sample_count_index : ℕ
  pub sample_count_anonymous : Bool
  pub unscaled : FieldGroup
  pub scaled32 : FieldGroup
  pub scaled64 : FieldGroup
  pub averaged : FieldGroup
  pub scalings : List (Scaling D)

pub data DataProcess : Type 0 where
  process_raw process_unscaled process_scaled : DataProcess

-- What is written to the output memory.
pub data Item (D : Type 0) : Type 0 where
  word : ℕ → Item D
  real : D → Item D

unfoldable pub item_bytes : {D : Type 0} → Item D → ℕ
item_bytes (word w) = 4
item_bytes (real d) = 8

unfoldable pub bytes_written : {D : Type 0} → List (Item D) → ℕ
bytes_written [] = 0
bytes_written (i ∷ items) = item_bytes i + bytes_written items

-- `&input[index]`, with as many words.
unfoldable pub words_at : List ℕ → ℕ → ℕ → List ℕ
words_at input index count = take count (drop index input)

-- `averages[i] / sample_count`, for a signed number of 64 bits, cut to 32 bits.
unfoldable pub average64 : ℕ → ℕ → ℕ
average64 bits count =
    if ltb bits (2 ^ 63)
    then bits / count % u32_mod
    else (u32_mod - (u64_mod - bits) / count % u32_mod) % u32_mod

-- The 64-bit numbers in some words.
unfoldable pub longs : List ℕ → List ℕ
longs (low ∷ high ∷ words) = (low + high * u32_mod) ∷ longs words
longs words = []

unfoldable pub used_count : ℕ → ℕ
used_count sample_count = if sample_count == 0 then 1 else sample_count

module _ {D : Type 0} where
  -- With fields of `field_words` words.
  unfoldable pub copy_unscaled_fields : FieldGroup → List ℕ → ℕ → List (Item D)
  copy_unscaled_fields fields input field_words =
      map word (words_at input fields.index (field_words * fields.count))

  unfoldable pub average_unscaled_data : DataCapture D → List ℕ → List (Item D)
  average_unscaled_data capture input =
      let sample_count = used_count (get_or input capture.sample_count_index 0) in
      map (λ bits. word (average64 bits sample_count))
        (longs (words_at input capture.averaged.index (2 * capture.averaged.count)))

  -- One sample.
  unfoldable pub convert_unscaled_sample : DataCapture D → List ℕ → List (Item D)
  convert_unscaled_sample capture input =
      copy_unscaled_fields capture.unscaled input 1
      ++ (copy_unscaled_fields capture.scaled32 input 1
          ++ (copy_unscaled_fields capture.scaled64 input 2 ++ average_unscaled_data capture input))

  unfoldable pub convert_unscaled_data : DataCapture D → ℕ → List ℕ → List (Item D)
  convert_unscaled_data capture zero input = []
  convert_unscaled_data capture (suc n) input =
      convert_unscaled_sample capture input
      ++ convert_unscaled_data capture n (drop capture.raw_sample_words input)

  unfoldable pub get_raw_sample_length : DataCapture D → ℕ
  get_raw_sample_length capture = 4 * capture.raw_sample_words

  unfoldable pub get_binary_sample_length : DataCapture D → DataProcess → ℕ
  get_binary_sample_length capture process_raw = 4 * capture.raw_sample_words
  get_binary_sample_length capture process_unscaled =
      4 * (capture.unscaled.count + capture.scaled32.count + capture.averaged.count)
      + 8 * capture.scaled64.count
  get_binary_sample_length capture process_scaled =
      4 * capture.unscaled.count
      + 8 * (capture.scaled32.count + capture.scaled64.count + capture.averaged.count)

  module _ (d : Doubles D) where
    -- A loop over values with the scalings from `index` on.
    unfoldable pub scale_values : (ℕ → D) → List (Scaling D) → ℕ → List ℕ → List (Item D)
    scale_values convert scalings index [] = []
    scale_values convert scalings index (x ∷ xs) =
        let s = get_or scalings index (record { scale = d.nought; offset = d.nought }) in
        real (d.plus (d.times s.scale (convert x)) s.offset)
        ∷ scale_values convert scalings (suc index) xs

    unfoldable pub convert_scaled32 : DataCapture D → List ℕ → List (Item D)
    convert_scaled32 capture input =
        scale_values d.of_int32 capture.scalings capture.scaled32.scaling
          (words_at input capture.scaled32.index capture.scaled32.count)

    unfoldable pub convert_scaled64 : DataCapture D → List ℕ → List (Item D)
    convert_scaled64 capture input =
        scale_values d.of_int64 capture.scalings capture.scaled64.scaling
          (longs (words_at input capture.scaled64.index (2 * capture.scaled64.count)))

    -- The loop of the averages: the product is divided before the offset is added.
    unfoldable pub average_values : ℕ → List (Scaling D) → ℕ → List ℕ → List (Item D)
    average_values sample_count scalings index [] = []
    average_values sample_count scalings index (x ∷ xs) =
        let s = get_or scalings index (record { scale = d.nought; offset = d.nought }) in
        real (d.plus (d.over (d.times s.scale (d.of_int64 x)) sample_count) s.offset)
        ∷ average_values sample_count scalings (suc index) xs

    unfoldable pub average_scaled_data : DataCapture D → List ℕ → List (Item D)
    average_scaled_data capture input =
        average_values (used_count (get_or input capture.sample_count_index 0)) capture.scalings
          capture.averaged.scaling
          (longs (words_at input capture.averaged.index (2 * capture.averaged.count)))

    unfoldable pub convert_scaled_sample : DataCapture D → List ℕ → List (Item D)
    convert_scaled_sample capture input =
        copy_unscaled_fields capture.unscaled input 1
        ++ (convert_scaled32 capture input
            ++ (convert_scaled64 capture input ++ average_scaled_data capture input))

    unfoldable pub convert_scaled_data : DataCapture D → ℕ → List ℕ → List (Item D)
    convert_scaled_data capture zero input = []
    convert_scaled_data capture (suc n) input =
        convert_scaled_sample capture input
        ++ convert_scaled_data capture n (drop capture.raw_sample_words input)

    -- The raw words are copied as they are.
    unfoldable pub convert_raw_data_to_binary :
        DataCapture D → DataProcess → ℕ → List ℕ → List (Item D)
    convert_raw_data_to_binary capture process_raw n input =
        map word (take (n * capture.raw_sample_words) input)
    convert_raw_data_to_binary capture process_unscaled n input =
        convert_unscaled_data capture n input
    convert_raw_data_to_binary capture process_scaled n input = convert_scaled_data capture n input
