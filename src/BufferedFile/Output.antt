-- ===== src/BufferedFile/Output.antt =====
-- server/buffered_file.c: the bytes that are written, as a stream, and what sending makes of them.
use pand_ablocks_server.Prelude.{
  ℕ, ◌<◌, ◌≡◌, inl, inr, refl, sym, ap, ◌∙◌, true, false, List, [], ◌∷◌, ◌++◌, Bool-cases, by_if,
  length, take, drop, append-nil, append_assoc, take-drop,
}
use pand_ablocks_server.BufferedFile.{
  WriteOutcome, failed_write, takes, BufferedFile, send_loop, send_entire_buffer,
}

unfoldable pub IsPrefix : List ℕ → List ℕ → Type 0
IsPrefix xs ys = (rest : List ℕ) × (xs ++ rest ≡ ys)

-- All that is written so far: what is sent, and what waits in `out_buf`.
unfoldable pub stream : BufferedFile → List ℕ
stream file = file.sent ++ file.out_buf

-- The step from one file to the other writes the bytes: they come after those before them, and what is
-- sent is never more than that, nor anything else, even if there is an error.
unfoldable pub Wrote : BufferedFile → List ℕ → BufferedFile → Type 0
Wrote file bytes file' =
    (file'.out_buf_size ≡ file.out_buf_size)
    × (file'.error ≡ false
        → (file.error ≡ false)
          × (stream file' ≡ stream file ++ bytes)
          × (length file.out_buf < file.out_buf_size → length file'.out_buf < file'.out_buf_size))
    × (file.error ≡ false → IsPrefix file'.sent (stream file ++ bytes))
    × (file.error ≡ true → (file'.error ≡ true) × (file'.sent ≡ file.sent))

pub Wrote-trans :
    (a b c : BufferedFile) (xs ys : List ℕ) → Wrote a xs b → Wrote b ys c → Wrote a (xs ++ ys) c
unfolding Wrote IsPrefix
Wrote-trans a b c xs ys (size, good, part, bad) (size', good', part', bad') = (
  size' ∙ size,
  (λ e.
      let (eb, sb, lb) = good' e in
      let (ea, sa, la) = good eb in
      (ea, sb ∙ ap (λ t. t ++ ys) sa ∙ append_assoc (stream a) xs ys, λ h. lb (la h))),
  (λ e. elim (Bool-cases b.error) [
    | inl t ↦
        let (rest, f) = part e in
        let (ec, sent) = bad' t in
        (
          rest ++ ys,
          ap (λ t. t ++ (rest ++ ys)) sent
              ∙ sym (append_assoc b.sent rest ys)
              ∙ ap (λ t. t ++ ys) f
              ∙ append_assoc (stream a) xs ys,
        )
    | inr t ↦
        let (rest, f) = part' t in
        let (ea, sa, la) = good t in
        (rest, f ∙ ap (λ t. t ++ ys) sa ∙ append_assoc (stream a) xs ys)
  ]),
  (λ e. let (eb, sb) = bad e in let (ec, sc) = bad' eb in (ec, sc ∙ sb)),
)

-- What the calls of `write` take is a prefix, and everything if they do not fail.
send_loop_lem :
    (outcomes : List WriteOutcome) (buffer : List ℕ)
    → ((send_loop outcomes buffer).0 ≡ false → (send_loop outcomes buffer).1 ≡ buffer)
      × IsPrefix (send_loop outcomes buffer).1 buffer
unfolding send_loop IsPrefix
send_loop_lem [] buffer = ((λ e. refl), ([], append-nil buffer))
send_loop_lem (outcome ∷ outcomes) [] = ((λ e. refl), ([], refl))
send_loop_lem (failed_write ∷ outcomes) (b ∷ buffer) = ((λ e. absurd (cc e)), (b ∷ buffer, refl))
send_loop_lem (takes written ∷ outcomes) (b ∷ buffer) =
    let (all, (rest, e)) = send_loop_lem outcomes (drop written (b ∷ buffer)) in
    let front = take written (b ∷ buffer) in
    (
      (λ f. ap (λ t. front ++ t) (all f) ∙ take-drop written (b ∷ buffer)),
      (
        rest,
        append_assoc front (send_loop outcomes (drop written (b ∷ buffer))).1 rest
            ∙ ap (λ t. front ++ t) e
            ∙ take-drop written (b ∷ buffer),
      ),
    )

-- What one of the functions that call `send_entire_buffer` leaves.
unfoldable pub Sent : BufferedFile → List ℕ → BufferedFile → Type 0
Sent file buffer file' =
    (file'.out_buf_size ≡ file.out_buf_size)
    × (file.error ≡ false → file'.error ≡ false → file'.sent ≡ file.sent ++ buffer)
    × (file.error ≡ false → IsPrefix file'.sent (file.sent ++ buffer))
    × (file.error ≡ true → (file'.error ≡ true) × (file'.sent ≡ file.sent))

pub send_entire_buffer-Sent :
    (file : BufferedFile) (buffer : List ℕ) → Sent file buffer (send_entire_buffer file buffer)
unfolding Sent send_entire_buffer IsPrefix
send_entire_buffer-Sent file buffer =
    let (all, (rest, e)) = send_loop_lem file.outcomes buffer in
    by_if (λ f. Sent file buffer f) file.error file _
      (λ t.
        (refl, (λ f. absurd (cc (sym t ∙ f))), (λ f. absurd (cc (sym t ∙ f))), (λ f. (t, refl))))
      (λ t. (
        refl,
        (λ f g. ap (λ x. file.sent ++ x) (all g)),
        (λ f. (
          rest,
          append_assoc file.sent (send_loop file.outcomes buffer).1 rest
              ∙ ap (λ x. file.sent ++ x) e,
        )),
        (λ f. absurd (cc (sym t ∙ f))),
      ))

pub send_entire_buffer_out_buf :
    (file : BufferedFile) (buffer : List ℕ)
    → (send_entire_buffer file buffer).out_buf ≡ file.out_buf
unfolding send_entire_buffer
send_entire_buffer_out_buf file buffer =
    by_if (λ f. f.out_buf ≡ file.out_buf) file.error file _ (λ t. refl) (λ t. refl)
