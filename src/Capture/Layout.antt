-- ===== src/Capture/Layout.antt =====
-- server/capture.c: where the groups of fields lie in a raw sample.
use pand_ablocks_server.Prelude.{ℕ, ◌+◌, ◌*◌, ◌≡◌, Bool, List, [], ◌∷◌, ◌++◌, if◌then◌else◌, length}
use pand_ablocks_server.Capture.{Scaling, DataCapture}
use pand_ablocks_server.Capture.Gather.{CaptureInfo, CapturedFields}

module _ {D : Type 0} where
  -- The indices of a group, one or two for each field.
  unfoldable pub group_indices : Bool → List (CaptureInfo D) → List ℕ
  group_indices two [] = []
  group_indices two (field ∷ fields) =
      (field.capture_index.0 ∷ (if two then field.capture_index.1 ∷ [] else []))
      ++ group_indices two fields

  -- The groups follow one another after the hidden words, and fill the sample.
  unfoldable pub IsLaidOut : DataCapture D → Type 0
  IsLaidOut capture =
      (capture.unscaled.index ≡ (if capture.sample_count_anonymous then 1 else 0))
      × (capture.scaled32.index ≡ capture.unscaled.index + capture.unscaled.count)
      × (capture.scaled64.index ≡ capture.scaled32.index + capture.scaled32.count)
      × (capture.averaged.index ≡ capture.scaled64.index + 2 * capture.scaled64.count)
      × (capture.raw_sample_words ≡ capture.averaged.index + 2 * capture.averaged.count)

  -- The scalings of a group.
  unfoldable pub group_scalings : List (CaptureInfo D) → List (Scaling D)
  group_scalings [] = []
  group_scalings (field ∷ fields) =
      record { scale = field.scale; offset = field.offset } ∷ group_scalings fields

  -- The counts are those of the groups, and the scalings are those of the scaled groups in their order.
  unfoldable pub HasFields : CapturedFields D → DataCapture D → Type 0
  HasFields fields capture =
      (capture.unscaled.count ≡ length fields.unscaled_outputs)
      × (capture.scaled32.count ≡ length fields.scaled32_outputs)
      × (capture.scaled64.count ≡ length fields.scaled64_outputs)
      × (capture.averaged.count ≡ length fields.averaged_outputs)
      × (capture.scaled32.scaling ≡ 0)
      × (capture.scaled64.scaling ≡ capture.scaled32.count)
      × (capture.averaged.scaling ≡ capture.scaled32.count + capture.scaled64.count)
      × (capture.scalings
          ≡ (group_scalings fields.scaled32_outputs ++ group_scalings fields.scaled64_outputs)
            ++ group_scalings fields.averaged_outputs)
