-- ===== src/Capture/Gather.antt =====
-- server/prepare.c and server/capture.c: the fields to capture in their groups, and the layout of a
-- sample. Memory that is filled in order is a list.
use pand_ablocks_server.Prelude.{
  ℕ, suc, Bool, true, false, List, [], ◌∷◌, ◌++◌, Option, none, some, ltb, ◌==◌, if◌then◌else◌,
  length,
}
use pand_ablocks_server.Capture.{FieldGroup, Scaling, DataCapture}

pub data CaptureMode : Type 0 where
  mode_scaled32 mode_scaled64 mode_average mode_unscaled : CaptureMode

-- `struct capture_info`, without its names.
pub record CaptureInfo (D : Type 0) : Type 0 where
  pub capture_index : ℕ × ℕ
  pub capture_mode : CaptureMode
  pub scale : D
  pub offset : D

-- `struct captured_fields`, with each group a list.
pub record CapturedFields (D : Type 0) : Type 0 where
  pub sample_count : CaptureInfo D
  pub unscaled_outputs : List (CaptureInfo D)
  pub scaled32_outputs : List (CaptureInfo D)
  pub scaled64_outputs : List (CaptureInfo D)
  pub averaged_outputs : List (CaptureInfo D)

-- The indices captured so far, and the scalings written.
pub record Gathered (D : Type 0) : Type 0 where
  pub capture_indices : List ℕ
  pub scalings : List (Scaling D)

module _ {D : Type 0} where
  unfoldable pub add_to_group : CaptureInfo D → CapturedFields D → CapturedFields D
  add_to_group info fields = elim info.capture_mode [
    | mode_scaled32 ↦ record fields { scaled32_outputs = fields.scaled32_outputs ++ (info ∷ []) }
    | mode_scaled64 ↦ record fields { scaled64_outputs = fields.scaled64_outputs ++ (info ∷ []) }
    | mode_average ↦ record fields { averaged_outputs = fields.averaged_outputs ++ (info ∷ []) }
    | mode_unscaled ↦ record fields { unscaled_outputs = fields.unscaled_outputs ++ (info ∷ []) }
  ]

  unfoldable pub group_captures : List (CaptureInfo D) → CapturedFields D → CapturedFields D
  group_captures [] fields = fields
  group_captures (info ∷ infos) fields = group_captures infos (add_to_group info fields)

  -- The captured values come from the outputs, in the order of `iterate_captured_values`.
  unfoldable pub prepare_captured_fields : CaptureInfo D → List (CaptureInfo D) → CapturedFields D
  prepare_captured_fields sample_count infos = group_captures infos (record {
    sample_count = sample_count;
    unscaled_outputs = [];
    scaled32_outputs = [];
    scaled64_outputs = [];
    averaged_outputs = [];
  })

  -- With one or two indices.
  unfoldable pub emit_capture : Gathered D → CaptureInfo D → Bool → Bool → Gathered D
  emit_capture gather field two scaled =
      let (first, second) = field.capture_index in
      record {
        capture_indices = gather.capture_indices ++ (first ∷ (if two then second ∷ [] else []));
        scalings =
            if scaled
            then gather.scalings ++ (record { scale = field.scale; offset = field.offset } ∷ [])
            else gather.scalings;
      }

  -- The place of the first output with the index.
  unfoldable pub find_capture : ℕ → List (CaptureInfo D) → Option ℕ
  find_capture index [] = none
  find_capture index (field ∷ fields) =
      let later = find_capture index fields in
      if field.capture_index.0 == index
      then some 0
      else elim later [ none ↦ none | some i ↦ some (suc i) ]

  -- Whether the count is anonymous, its index, and what is gathered.
  unfoldable pub ensure_sample_count : CapturedFields D → Gathered D → Bool × (ℕ × Gathered D)
  ensure_sample_count fields gather =
      elim (find_capture fields.sample_count.capture_index.0 fields.unscaled_outputs) [
        | some i ↦ (false, (i, gather))
        | none ↦ (
          true,
          (length gather.capture_indices, emit_capture gather fields.sample_count false false),
        )
      ]

  unfoldable pub emit_all : Gathered D → List (CaptureInfo D) → Bool → Bool → Gathered D
  emit_all gather [] two scaled = gather
  emit_all gather (field ∷ fields) two scaled =
      emit_all (emit_capture gather field two scaled) fields two scaled

  unfoldable pub prepare_output_group :
      Gathered D → List (CaptureInfo D) → Bool → Bool → FieldGroup × Gathered D
  prepare_output_group gather group two scaled = (
    record {
      index = length gather.capture_indices;
      count = length group;
      scaling = length gather.scalings;
    },
    emit_all gather group two scaled,
  )

  -- The sample count, if there are averages; `old_index` is what the static state holds.
  unfoldable pub gather_sample_count : CapturedFields D → ℕ → Gathered D → Bool × (ℕ × Gathered D)
  gather_sample_count fields old_index gather =
      if ltb 0 (length fields.averaged_outputs)
      then ensure_sample_count fields gather
      else (false, (old_index, gather))

  unfoldable pub gather_data_capture : CapturedFields D → ℕ → DataCapture D × Gathered D
  gather_data_capture fields old_index =
      let (anonymous, (count_index, gather0)) =
        gather_sample_count fields old_index (record { capture_indices = []; scalings = [] }) in
      let (unscaled, gather1) = prepare_output_group gather0 fields.unscaled_outputs false false in
      let (scaled32, gather2) = prepare_output_group gather1 fields.scaled32_outputs false true in
      let (scaled64, gather3) = prepare_output_group gather2 fields.scaled64_outputs true true in
      let (averaged, gather4) = prepare_output_group gather3 fields.averaged_outputs true true in
      (
        record {
          raw_sample_words = length gather4.capture_indices;
          sample_count_index = count_index;
          sample_count_anonymous = anonymous;
          unscaled = unscaled;
          scaled32 = scaled32;
          scaled64 = scaled64;
          averaged = averaged;
          scalings = gather4.scalings;
        },
        gather4,
      )

  -- The layout with the indices for the hardware, or the error that nothing is captured.
  unfoldable pub prepare_data_capture : CapturedFields D → ℕ → Option (DataCapture D × List ℕ)
  prepare_data_capture fields old_index =
      let (capture, gather) = gather_data_capture fields old_index in
      if ltb 0 (length gather.capture_indices) then some (capture, gather.capture_indices) else none
