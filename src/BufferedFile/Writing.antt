-- ===== src/BufferedFile/Writing.antt =====
-- server/buffered_file.c: the functions that write.
use pand_ablocks_server.Prelude.{
  ℕ, zero, suc, ◌-◌, ◌<◌, ◌≤◌, ◌≡◌, inl, inr, refl, sym, ap, ◌∙◌, arith, true, false, List, [], ◌∷◌,
  ◌++◌, some, if◌then◌else◌, leb, ltb, Bool-cases, by_if, length, take, drop, min, append-nil,
  append_assoc, take-drop, length-drop, length-append,
}
use pand_ablocks_server.BufferedFile.{
  BufferedFile, send_entire_buffer, flush_out_buf, write_loop, write_string, write_formatted_string,
  write_block, write_char,
}
use pand_ablocks_server.BufferedFile.Output.{
  IsPrefix, stream, Wrote, Wrote-trans, Sent, send_entire_buffer-Sent, send_entire_buffer_out_buf,
}

-- More bytes in `out_buf`, which then need not have room.
abbrev filled : BufferedFile → List ℕ → BufferedFile
filled file bytes = record file { out_buf = file.out_buf ++ bytes }

flush-filled :
    (file : BufferedFile) (bytes : List ℕ)
    → file.error ≡ false
    → Wrote file bytes (flush_out_buf (filled file bytes))
unfolding Wrote flush_out_buf stream Sent IsPrefix
flush-filled file bytes ok =
    let (size, all, part, bad) =
      send_entire_buffer-Sent (filled file bytes) (file.out_buf ++ bytes) in
    (
      size,
      (λ e. (
        ok,
        append-nil (send_entire_buffer (filled file bytes) (file.out_buf ++ bytes)).sent
            ∙ all ok e
            ∙ sym (append_assoc file.sent file.out_buf bytes),
        λ h. rw size (omega arith),
      )),
      (λ e. let (rest, f) = part ok in (rest, f ∙ sym (append_assoc file.sent file.out_buf bytes))),
      (λ e. absurd (cc (sym ok ∙ e))),
    )

filled-Wrote :
    (file : BufferedFile) (bytes : List ℕ)
    → (length file.out_buf < file.out_buf_size → length (file.out_buf ++ bytes) < file.out_buf_size)
    → file.error ≡ false
    → Wrote file bytes (filled file bytes)
unfolding Wrote stream IsPrefix
filled-Wrote file bytes room ok =
    let same = sym (append_assoc file.sent file.out_buf bytes) in
    (
      refl,
      (λ e. (ok, same, room)),
      (λ e. (file.out_buf ++ bytes, same)),
      (λ e. absurd (cc (sym ok ∙ e))),
    )

-- Nothing happens after an error.
failed-Wrote : (file : BufferedFile) (bytes : List ℕ) → file.error ≡ true → Wrote file bytes file
unfolding Wrote
failed-Wrote file bytes bad =
    (refl, (λ e. absurd (cc (sym bad ∙ e))), (λ e. absurd (cc (sym bad ∙ e))), (λ e. (bad, refl)))

pub flush_out_buf-Wrote : (file : BufferedFile) → Wrote file [] (flush_out_buf file)
unfolding Wrote flush_out_buf stream Sent IsPrefix
flush_out_buf-Wrote file =
    let (size, all, part, bad) = send_entire_buffer-Sent file file.out_buf in
    (
      size,
      (λ e. elim (Bool-cases file.error) [
        | inl t ↦ let (b, s) = bad t in absurd (cc (sym b ∙ e))
        | inr t ↦ (
          t,
          append-nil (send_entire_buffer file file.out_buf).sent
              ∙ all t e
              ∙ sym (append-nil (file.sent ++ file.out_buf)),
          λ h. rw size (omega arith),
        )
      ]),
      (λ e. let (rest, f) = part e in (rest, f ∙ sym (append-nil (file.sent ++ file.out_buf)))),
      bad,
    )

-- What goes to the socket at once, with nothing in `out_buf`.
sent-Wrote :
    (file : BufferedFile) (buffer : List ℕ)
    → file.out_buf ≡ []
    → Wrote file buffer (send_entire_buffer file buffer)
unfolding Wrote Sent stream IsPrefix
sent-Wrote file buffer empty =
    let (size, all, part, bad) = send_entire_buffer-Sent file buffer in
    let after = send_entire_buffer_out_buf file buffer ∙ empty in
    let before = ap (λ t. file.sent ++ t) empty ∙ append-nil file.sent in
    (
      size,
      (λ e. elim (Bool-cases file.error) [
        | inl t ↦ let (b, s) = bad t in absurd (cc (sym b ∙ e))
        | inr t ↦ (
          t,
          ap (λ t. (send_entire_buffer file buffer).sent ++ t) after
              ∙ append-nil (send_entire_buffer file buffer).sent
              ∙ all t e
              ∙ ap (λ t. t ++ buffer) (sym before),
          λ h. rw (size, after) (omega arith),
        )
      ]),
      (λ e. let (rest, f) = part e in (rest, f ∙ ap (λ t. t ++ buffer) (sym before))),
      bad,
    )

placed-Wrote :
    (file : BufferedFile) (text : List ℕ)
    → file.out_buf ≡ []
    → length text < file.out_buf_size
    → file.error ≡ false
    → Wrote file text (record file { out_buf = text })
unfolding Wrote stream IsPrefix
placed-Wrote file text empty fits ok =
    let before = ap (λ t. file.sent ++ t) empty ∙ append-nil file.sent in
    let same = ap (λ t. t ++ text) (sym before) in
    (refl, (λ e. (ok, same, λ h. fits)), (λ e. (text, same)), (λ e. absurd (cc (sym ok ∙ e))))

long-Wrote :
    (file : BufferedFile) (text : List ℕ)
    → file.error ≡ false
    → Wrote file text (record file { out_buf = text; error = true })
unfolding Wrote stream IsPrefix
long-Wrote file text ok = (
  refl,
  (λ e. absurd (cc e)),
  (λ e. (file.out_buf ++ text, sym (append_assoc file.sent file.out_buf text))),
  (λ e. absurd (cc (sym ok ∙ e))),
)

pub nothing-Wrote : (file : BufferedFile) → Wrote file [] file
unfolding Wrote stream IsPrefix
nothing-Wrote file = (
  refl,
  (λ e. (e, sym (append-nil (file.sent ++ file.out_buf)), λ h. h)),
  (λ e. (file.out_buf, sym (append-nil (file.sent ++ file.out_buf)))),
  (λ e. (e, refl)),
)

flush_out_buf_size : (file : BufferedFile) → (flush_out_buf file).out_buf_size ≡ file.out_buf_size
unfolding Wrote
flush_out_buf_size file = (flush_out_buf-Wrote file).0

flush_out_buf_empty : (file : BufferedFile) → (flush_out_buf file).out_buf ≡ []
unfolding flush_out_buf
flush_out_buf_empty file = refl

pub write_char-Wrote : (file : BufferedFile) (ch : ℕ) → Wrote file (ch ∷ []) (write_char file ch)
unfolding write_char
write_char-Wrote file ch =
    by_if (λ f. Wrote file (ch ∷ []) f) file.error file _ (failed-Wrote file (ch ∷ []))
      (λ t.
        by_if (λ f. Wrote file (ch ∷ []) f)
          (leb file.out_buf_size (length (file.out_buf ++ ch ∷ []))) _ _
          (λ full. flush-filled file (ch ∷ []) t)
          (λ room. filled-Wrote file (ch ∷ []) (λ h. ground arith) t))

pub write_block-Wrote :
    (file : BufferedFile) (buffer : List ℕ) → Wrote file buffer (write_block file buffer)
unfolding write_block flush_out_buf
write_block-Wrote file buffer =
    Wrote-trans file (flush_out_buf file) (write_block file buffer) [] buffer
      (flush_out_buf-Wrote file) (sent-Wrote (flush_out_buf file) buffer refl)

pub write_formatted_string-Wrote :
    (file : BufferedFile) (text : List ℕ) → Wrote file text (write_formatted_string file text)
unfolding write_formatted_string
write_formatted_string-Wrote file text =
    by_if (λ f. Wrote file text f) file.error file _ (failed-Wrote file text)
      (λ t.
        by_if (λ f. Wrote file text f) (ltb (length text) (file.out_buf_size - length file.out_buf))
          _ _
          (λ room.
            filled-Wrote file text (λ h. let n = length-append file.out_buf text in ground arith) t)
          (λ full.
            let flushed = flush_out_buf-Wrote file in
            by_if (λ f. Wrote file text f) (flush_out_buf file).error (flush_out_buf file) _
              (λ bad.
                Wrote-trans file (flush_out_buf file) (flush_out_buf file) [] text flushed
                  (failed-Wrote (flush_out_buf file) text bad))
              (λ ok. Wrote-trans file (flush_out_buf file) _ [] text flushed (
                by_if (λ f. Wrote (flush_out_buf file) text f) (ltb (length text) file.out_buf_size)
                  _ _
                  (λ fits.
                    placed-Wrote (flush_out_buf file) text (flush_out_buf_empty file)
                      (rw (flush_out_buf_size file) (ground arith)) ok)
                  (λ long. long-Wrote (flush_out_buf file) text ok)))))

-- Any part of the string goes into `out_buf`, which is sent once it is full.
abbrev stored : BufferedFile → List ℕ → BufferedFile
stored file bytes =
    if leb file.out_buf_size (length (file.out_buf ++ bytes))
    then flush_out_buf (filled file bytes)
    else filled file bytes

stored-Wrote :
    (file : BufferedFile) (bytes : List ℕ)
    → file.error ≡ false
    → Wrote file bytes (stored file bytes)
stored-Wrote file bytes ok =
    by_if (λ f. Wrote file bytes f) (leb file.out_buf_size (length (file.out_buf ++ bytes))) _ _
      (λ full. flush-filled file bytes ok) (λ room. filled-Wrote file bytes (λ h. ground arith) ok)

stored_room :
    (file : BufferedFile) (bytes : List ℕ)
    → length file.out_buf < file.out_buf_size
    → length (stored file bytes).out_buf < (stored file bytes).out_buf_size
stored_room file bytes room =
    by_if (λ (f : BufferedFile). length f.out_buf < f.out_buf_size)
      (leb file.out_buf_size (length (file.out_buf ++ bytes))) _ _
      (λ full.
        rw (flush_out_buf_size (filled file bytes), flush_out_buf_empty (filled file bytes))
          (omega arith))
      (λ t. ground arith)

write_loop-Wrote :
    (fuel : ℕ) (file : BufferedFile) (string : List ℕ)
    → length string ≤ fuel
    → (file.error ≡ false → length file.out_buf < file.out_buf_size)
    → (file' : BufferedFile) × (write_loop fuel file string ≡ some file') × Wrote file string file'
unfolding write_loop
write_loop-Wrote fuel file [] enough room = (file, refl, nothing-Wrote file)
write_loop-Wrote zero file (c ∷ string) enough room = absurd (omega arith)
write_loop-Wrote (suc fuel) file (c ∷ string) enough room = elim (Bool-cases file.error) [
  | inl t ↦ (
    file,
    by_if (λ r. r ≡ some file) file.error (some file) _ (λ _. refl) (λ f. absurd (cc (sym t ∙ f))),
    failed-Wrote file (c ∷ string) t,
  )
  | inr t ↦
      let n = min (file.out_buf_size - length file.out_buf) (length (c ∷ string)) in
      let bytes = take n (c ∷ string) in
      let next = stored file bytes in
      let shorter = length-drop n (c ∷ string) in
      let room_t = room t in
      let some_taken : 0 < n = omega arith in
      let (file', e, wrote) =
        write_loop-Wrote fuel next (drop n (c ∷ string)) (omega arith)
          (λ _. stored_room file bytes (room t)) in
      let both =
        Wrote-trans file next file' bytes (drop n (c ∷ string)) (stored-Wrote file bytes t) wrote in
      (
        file',
        by_if (λ r. r ≡ some file') file.error (some file) _ (λ f. absurd (cc (sym t ∙ f)))
            (λ _. e),
        rw (take-drop n (c ∷ string)) at both,
      )
]

pub Wrote-length :
    (file file' : BufferedFile) (bytes : List ℕ)
    → (file.error ≡ false → length file.out_buf < file.out_buf_size)
    → Wrote file bytes file'
    → file'.error ≡ false
    → length file'.out_buf < file'.out_buf_size
unfolding Wrote
Wrote-length file file' bytes room (size, good, part, bad) ok =
    let (e, same, small) = good ok in small (room e)

pub write_string-Wrote :
    (file : BufferedFile) (string : List ℕ)
    → (file.error ≡ false → length file.out_buf < file.out_buf_size)
    → (file' : BufferedFile) × (write_string file string ≡ some file') × Wrote file string file'
unfolding write_string
write_string-Wrote file string room =
    write_loop-Wrote (length string) file string (omega arith) room
