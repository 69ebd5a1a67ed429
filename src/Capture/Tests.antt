-- ===== src/Capture/Tests.antt =====
-- Runs of server/capture.c, and its theorems at them.
use pand_ablocks_server.Prelude.{
  ℕ, ◌+◌, ◌*◌, ◌/◌, ◌-◌, ◌^◌, ◌≡◌, refl, arith, true, List, [], ◌∷◌, some,
}
use pand_ablocks_server.Capture.{
  Doubles, DataCapture, process_raw, process_unscaled, process_scaled, word, real, item_bytes,
  bytes_written, words_at, average64, longs, used_count, copy_unscaled_fields,
  average_unscaled_data, convert_unscaled_sample, convert_unscaled_data, get_binary_sample_length,
  scale_values, convert_scaled32, convert_scaled64, average_values, average_scaled_data,
  convert_scaled_sample, convert_scaled_data, convert_raw_data_to_binary,
}
use pand_ablocks_server.Capture.Gather.{
  CaptureInfo, CapturedFields, mode_scaled32, mode_average, mode_unscaled, add_to_group,
  group_captures, prepare_captured_fields, emit_capture, find_capture, ensure_sample_count,
  emit_all, prepare_output_group, gather_sample_count, gather_data_capture,
}
use pand_ablocks_server.Capture.Layout.{IsLaidOut}
use pand_ablocks_server.Capture.Sizes.{convert_raw_data_to_binary-bytes_written}
use pand_ablocks_server.Capture.Ascii.{
  unsigned32, signed32, signed64, add_printed, then_format, format_words, format_longs,
  format_doubles, send_raw_as_ascii, send_unscaled_as_ascii, send_scaled_as_ascii, send_row,
  send_binary_as_ascii,
}
use pand_ablocks_server.Capture.Rows.{PrintsRows, send_binary_as_ascii-convert_raw_data_to_binary}

program : Unit {0}
unfolding item_bytes bytes_written words_at average64 longs used_count copy_unscaled_fields
    average_unscaled_data convert_unscaled_sample convert_unscaled_data get_binary_sample_length
    scale_values convert_scaled32 convert_scaled64 average_values average_scaled_data
    convert_scaled_sample convert_scaled_data convert_raw_data_to_binary add_to_group group_captures
    prepare_captured_fields emit_capture find_capture ensure_sample_count emit_all
    prepare_output_group gather_sample_count gather_data_capture add_printed then_format
    format_words format_longs format_doubles send_raw_as_ascii send_unscaled_as_ascii
    send_scaled_as_ascii send_row send_binary_as_ascii
program = tt

-- Whole numbers for doubles.
abbrev whole : Doubles ℕ
whole = record {
  of_int32 = λ n. n;
  of_int64 = λ n. n;
  times = λ a b. a * b;
  plus = λ a b. a + b;
  over = λ a n. a / n;
  nought = 0;
}

abbrev sample_count : CaptureInfo ℕ
sample_count = record {
  capture_index = (40, 0);
  capture_mode = mode_unscaled;
  scale = 1;
  offset = 0;
}

abbrev outputs : List (CaptureInfo ℕ)
outputs =
    record { capture_index = (3, 4); capture_mode = mode_average; scale = 10; offset = 1 }
    ∷ record { capture_index = (5, 0); capture_mode = mode_scaled32; scale = 2; offset = 100 }
    ∷ record { capture_index = (6, 0); capture_mode = mode_unscaled; scale = 1; offset = 0 }
    ∷ []

abbrev fields : CapturedFields ℕ
fields = record {
  sample_count = sample_count;
  unscaled_outputs =
      record { capture_index = (6, 0); capture_mode = mode_unscaled; scale = 1; offset = 0 } ∷ [];
  scaled32_outputs =
      record { capture_index = (5, 0); capture_mode = mode_scaled32; scale = 2; offset = 100 } ∷ [];
  scaled64_outputs = [];
  averaged_outputs =
      record { capture_index = (3, 4); capture_mode = mode_average; scale = 10; offset = 1 } ∷ [];
}

abbrev capture : DataCapture ℕ
capture = record {
  raw_sample_words = 5;
  sample_count_index = 0;
  sample_count_anonymous = true;
  unscaled = record { index = 1; count = 1; scaling = 0 };
  scaled32 = record { index = 2; count = 1; scaling = 0 };
  scaled64 = record { index = 3; count = 0; scaling = 1 };
  averaged = record { index = 3; count = 1; scaling = 1 };
  scalings = record { scale = 2; offset = 100 } ∷ record { scale = 10; offset = 1 } ∷ [];
}

gathers :
    (prepare_captured_fields sample_count outputs ≡ fields)
    × ((gather_data_capture fields 9).0 ≡ capture)
    × ((gather_data_capture fields 9).1.capture_indices ≡ 40 ∷ 6 ∷ 5 ∷ 3 ∷ 4 ∷ [])
unfolding program
gathers = (refl, refl, refl)

-- A sample: the count, an unscaled word, a scaled one and a sum.
abbrev raw : List ℕ
raw = 4 ∷ 77 ∷ 8 ∷ 20 ∷ 0 ∷ []

converts :
    (convert_raw_data_to_binary whole capture process_unscaled 1 raw
      ≡ word 77 ∷ word 8 ∷ word 5 ∷ [])
    × (convert_raw_data_to_binary whole capture process_scaled 1 raw
        ≡ word 77 ∷ real 116 ∷ real 51 ∷ [])
    × (send_binary_as_ascii capture process_raw 1
          (convert_raw_data_to_binary whole capture process_raw 1 raw)
        ≡ some ((unsigned32 4 ∷ unsigned32 77 ∷ signed32 8 ∷ signed64 20 ∷ []) ∷ [], []))
    × (average64 (2 ^ 64 - 7) 2 ≡ 2 ^ 32 - 3)
unfolding program
converts = (refl, refl, refl, refl)

convert_raw_data_to_binary-bytes_written_example :
    bytes_written (convert_raw_data_to_binary whole capture process_scaled 1 raw)
    ≡ 1 * get_binary_sample_length capture process_scaled
unfolding IsLaidOut
convert_raw_data_to_binary-bytes_written_example =
    convert_raw_data_to_binary-bytes_written whole capture (refl, refl, refl, refl, refl)
      process_scaled 1 raw (omega arith)

send_binary_as_ascii-convert_raw_data_to_binary_example :
    PrintsRows capture process_scaled 1
      (send_binary_as_ascii capture process_scaled 1
        (convert_raw_data_to_binary whole capture process_scaled 1 raw))
      []
unfolding IsLaidOut
send_binary_as_ascii-convert_raw_data_to_binary_example =
    send_binary_as_ascii-convert_raw_data_to_binary capture (refl, refl, refl, refl, refl) whole
      process_scaled 1 raw (omega arith)
