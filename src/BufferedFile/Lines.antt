-- ===== src/BufferedFile/Lines.antt =====
-- server/buffered_file.c: `read_line`.
use pand_ablocks_server.Prelude.{
  ℕ, zero, suc, ◌+◌, ◌-◌, ◌<◌, ◌≤◌, ◌≡◌, ◌⊎◌, inl, inr, refl, sym, ap, ◌∙◌, arith, Bool, true,
  false, List, [], ◌∷◌, ◌++◌, All-append, All-split, Option, some, none, ◌||◌, ltb, if◌then◌else◌,
  Bool-cases, Option-cases, by_if, length, take, drop, append_assoc, length-append, length-take_le,
}
use pand_ablocks_server.BufferedFile.{
  newline, BufferedFile, flush_out_buf, fill_in_buf, available, find_char, read_line_loop,
  read_line,
}
use pand_ablocks_server.BufferedFile.Reading.{
  arriving, pending, Lacks, find_char-some, find_char-none, Lacks-split, IsOpen,
  read_socket-pending, SameInput, flush_out_buf-SameInput, taken, LineResult,
}

or_true : (a : Bool) → (a || true) ≡ true
or_true false = refl
or_true true = refl

or_false : (a b : Bool) → a ≡ false → b ≡ false → (a || b) ≡ false
or_false false b ea eb = eb
or_false true b ea eb = absurd (cc ea)

-- The buffer has a whole line, and it fits.
line_here :
    (file : BufferedFile) (line : List ℕ) (line_size n : ℕ)
    → IsOpen file
    → find_char newline (available file) ≡ some n
    → n + 1 < line_size
    → LineResult file line line_size
        (some (line ++ take n (available file)))
        (record file { read_ptr = file.read_ptr + n + 1 })
unfolding LineResult pending
line_here file line line_size n opened e fits =
    let (split, lacks, lt) = find_char-some newline (available file) n e in
    let (opened', rest) = taken file n opened lt in
    let size = length-take_le n (available file) (omega arith) in
    (
      take n (available file),
      refl,
      ap (λ t. t ++ arriving file.incoming) split
          ∙ append_assoc (take n (available file)) (newline ∷ drop (suc n) (available file))
              (arriving file.incoming)
          ∙ ap (λ t. take n (available file) ++ newline ∷ (t ++ arriving file.incoming)) (sym rest),
      lacks,
      omega arith,
      opened',
    )

-- The line in the buffer does not fit.
line_overrun :
    (file : BufferedFile) (line : List ℕ) (line_size n : ℕ)
    → find_char newline (available file) ≡ some n
    → line_size ≤ n + 1
    → LineResult file line line_size none (record file { error = true })
unfolding LineResult pending Lacks
line_overrun file line line_size n e long =
    let (split, lacks, lt) = find_char-some newline (available file) n e in
    let size = length-take_le n (available file) (omega arith) in
    (
      or_true file.eof,
      λ tail rest same lacks' fits.
          let same' =
            sym (
              ap (λ t. t ++ arriving file.incoming) split
              ∙ append_assoc (take n (available file)) (newline ∷ drop (suc n) (available file))
                  (arriving file.incoming))
            ∙ same in
          let (t', f, g) = Lacks-split newline (take n (available file)) _ tail rest lacks same' in
          let longer = ap (λ t. length t) f ∙ length-append (take n (available file)) t' in
          omega arith,
    )

-- What is in the buffer is too long already.
buffer_overrun :
    (file : BufferedFile) (line : List ℕ) (line_size : ℕ)
    → find_char newline (available file) ≡ none
    → line_size ≤ length (available file) + 1
    → LineResult file line line_size none (record file { error = true })
unfolding LineResult pending
buffer_overrun file line line_size e long = (
  or_true file.eof,
  λ tail rest same lacks' fits.
      let (t', f, g) =
        Lacks-split newline (available file) (arriving file.incoming) tail rest
          (find_char-none newline (available file) e) same in
      let longer = ap (λ t. length t) f ∙ length-append (available file) t' in omega arith,
)

-- The line goes on after what is in the buffer.
line_goes_on :
    (file next last : BufferedFile) (line : List ℕ) (line_size : ℕ) (r : Option (List ℕ))
    → find_char newline (available file) ≡ none
    → length (available file) + 1 < line_size
    → pending next ≡ arriving file.incoming
    → LineResult next (line ++ available file) (line_size - length (available file)) r last
    → LineResult file line line_size r last
unfolding LineResult pending Lacks
line_goes_on file next last line line_size none e fits same (closed, no_line) = (
  closed,
  λ tail rest whole lacks small.
      let (t', f, g) =
        Lacks-split newline (available file) (arriving file.incoming) tail rest
          (find_char-none newline (available file) e) whole in
      let longer = ap (λ t. length t) f ∙ length-append (available file) t' in
      no_line t' rest (same ∙ g) (All-split _ (available file) t' (rw f at lacks)).1 (omega arith),
)
line_goes_on file next last line line_size (some l) e fits same
      (tail, lines, whole, lacks, small, opened) =
    let longer = length-append (available file) tail in
    (
      available file ++ tail,
      lines ∙ append_assoc line (available file) tail,
      ap (λ t. available file ++ t) (sym same ∙ whole)
          ∙ sym (append_assoc (available file) tail (newline ∷ pending last)),
      All-append _ (available file) tail (find_char-none newline (available file) e) lacks,
      omega arith,
      opened,
    )

-- With nothing more to come there is no end of the line.
line_ends :
    (file last : BufferedFile) (line : List ℕ) (line_size : ℕ)
    → find_char newline (available file) ≡ none
    → arriving file.incoming ≡ []
    → (last.eof || last.error) ≡ true
    → LineResult file line line_size none last
unfolding LineResult pending
line_ends file last line line_size e empty closed = (
  closed,
  λ tail rest whole lacks small.
      let (t', f, g) =
        Lacks-split newline (available file) (arriving file.incoming) tail rest
          (find_char-none newline (available file) e) whole in
      let size = ap (λ t. length t) (sym empty ∙ g) ∙ length-append t' (newline ∷ rest) in
      omega arith,
)

-- The file before the socket is read.
abbrev flushed : Bool → BufferedFile → BufferedFile
flushed flush file = if flush then flush_out_buf file else file

flushed-SameInput :
    (flush : Bool) (file : BufferedFile)
    → file.error ≡ false
    → (flush ≡ true → (flush_out_buf file).error ≡ false)
    → SameInput file (flushed flush file) × ((flushed flush file).error ≡ false)
unfolding SameInput
flushed-SameInput true file ok sends = (flush_out_buf-SameInput file, sends refl)
flushed-SameInput false file ok sends = ((refl, refl, refl, refl, refl), ok)

fill_in_buf-pending :
    (file : BufferedFile)
    → file.error ≡ false
    → file.eof ≡ false
    → (IsOpen (fill_in_buf file)
        × (pending (fill_in_buf file) ≡ arriving file.incoming)
        × (length (fill_in_buf file).incoming < length file.incoming))
      ⊎ (((fill_in_buf file).eof || (fill_in_buf file).error ≡ true)
          × (arriving file.incoming ≡ []))
unfolding fill_in_buf
fill_in_buf-pending file ok more =
    by_if
      (λ (f : BufferedFile).
        (IsOpen f
          × (pending f ≡ arriving file.incoming)
          × (length f.incoming < length file.incoming))
        ⊎ ((f.eof || f.error ≡ true) × (arriving file.incoming ≡ [])))
      (file.eof || file.error) file _
      (λ t. absurd (cc (sym (or_false file.eof file.error more ok) ∙ t)))
      (λ t. read_socket-pending file.incoming file ok more refl)

module _ (fuel : ℕ) (file : BufferedFile) (line : List ℕ) (line_size : ℕ) (flush : Bool) where
  loop_closed :
      (file.eof || file.error) ≡ true
      → read_line_loop (suc fuel) file line line_size flush ≡ some (none, file)
  unfolding read_line_loop
  loop_closed closed =
      by_if (λ r. r ≡ some (none, file)) (file.eof || file.error) (some (none, file)) _ (λ t. refl)
        (λ t. absurd (cc (sym closed ∙ t)))

  module _ (guard : (file.eof || file.error) ≡ false) where
    loop_line :
        (n : ℕ)
        → find_char newline (available file) ≡ some n
        → ltb (n + 1) line_size ≡ true
        → read_line_loop (suc fuel) file line line_size flush
          ≡ some (
            some (line ++ take n (available file)),
            record file { read_ptr = file.read_ptr + n + 1 },
          )
    unfolding read_line_loop
    loop_line n e t =
        by_if
          (λ r.
            r
            ≡ some (
              some (line ++ take n (available file)),
              record file { read_ptr = file.read_ptr + n + 1 },
            ))
          (file.eof || file.error) _ _ (λ c. absurd (cc (sym guard ∙ c))) (λ c. rw (e, t) refl)

    loop_overrun :
        (n : ℕ)
        → find_char newline (available file) ≡ some n
        → ltb (n + 1) line_size ≡ false
        → read_line_loop (suc fuel) file line line_size flush
          ≡ some (none, record file { error = true })
    unfolding read_line_loop
    loop_overrun n e t =
        by_if (λ r. r ≡ some (none, record file { error = true })) (file.eof || file.error) _ _
          (λ c. absurd (cc (sym guard ∙ c))) (λ c. rw (e, t) refl)

    loop_full :
        find_char newline (available file) ≡ none
        → ltb (length (available file) + 1) line_size ≡ false
        → read_line_loop (suc fuel) file line line_size flush
          ≡ some (none, record file { error = true })
    unfolding read_line_loop
    loop_full e t =
        by_if (λ r. r ≡ some (none, record file { error = true })) (file.eof || file.error) _ _
          (λ c. absurd (cc (sym guard ∙ c))) (λ c. rw (e, t) refl)

    loop_on :
        find_char newline (available file) ≡ none
        → ltb (length (available file) + 1) line_size ≡ true
        → read_line_loop (suc fuel) file line line_size flush
          ≡ read_line_loop fuel
              (fill_in_buf (flushed flush file))
              (line ++ available file)
              (line_size - length (available file))
              false
    unfolding read_line_loop
    loop_on e t =
        by_if
          (λ r.
            r
            ≡ read_line_loop fuel (fill_in_buf (flushed flush file)) (line ++ available file)
                (line_size - length (available file)) false)
          (file.eof || file.error) _ _ (λ c. absurd (cc (sym guard ∙ c))) (λ c. rw (e, t) refl)

read_line_loop-LineResult :
    (fuel : ℕ) (file : BufferedFile) (line : List ℕ) (line_size : ℕ) (flush : Bool)
    → IsOpen file
    → length file.incoming + 2 ≤ fuel
    → (flush ≡ true → (flush_out_buf file).error ≡ false)
    → (r : Option (List ℕ)) × (file' : BufferedFile) × (read_line_loop fuel file line line_size
          flush
        ≡ some (r, file'))
      × LineResult file line line_size r file'
unfolding IsOpen SameInput
read_line_loop-LineResult zero file line line_size flush opened enough sends = absurd (omega arith)
read_line_loop-LineResult (suc zero) file line line_size flush opened enough sends =
    absurd (omega arith)
read_line_loop-LineResult (suc (suc fuel)) file line line_size flush opened enough sends =
    let (more, ok, le, len) = opened in
    let guard = or_false file.eof file.error more ok in
    let avail = available file in
    elim (Option-cases (find_char newline avail)) [
      | inr (n, e) ↦ elim (Bool-cases (ltb (n + 1) line_size)) [
        | inl t ↦ (
          _,
          _,
          loop_line (suc fuel) file line line_size flush guard n e t,
          line_here file line line_size n opened e (ground arith),
        )
        | inr t ↦ (
          none,
          _,
          loop_overrun (suc fuel) file line line_size flush guard n e t,
          line_overrun file line line_size n e (ground arith),
        )
      ]
      | inl e ↦ elim (Bool-cases (ltb (length avail + 1) line_size)) [
        | inr t ↦ (
          none,
          _,
          loop_full (suc fuel) file line line_size flush guard e t,
          buffer_overrun file line line_size e (ground arith),
        )
        | inl t ↦
            let ((eof', ptr', len', buf', incoming'), ok') =
              flushed-SameInput flush file ok sends in
            let next = fill_in_buf (flushed flush file) in
            let on = loop_on (suc fuel) file line line_size flush guard e t in
            elim (fill_in_buf-pending (flushed flush file) ok' (eof' ∙ more)) [
              | inl (opened', same, shorter) ↦
                  let fewer = ap (λ x. length x) incoming' in
                  let (r, last, f, result) =
                    read_line_loop-LineResult (suc fuel) next (line ++ avail)
                      (line_size - length avail) false opened' (omega arith) (λ x. absurd (cc x)) in
                  (
                    r,
                    last,
                    on ∙ f,
                    line_goes_on file next last line line_size r e (ground arith)
                        (same ∙ ap arriving incoming') result,
                  )
              | inr (closed, empty) ↦ (
                none,
                next,
                on ∙ loop_closed fuel next (line ++ avail) (line_size - length avail) false closed,
                line_ends file next line line_size e (ap arriving (sym incoming') ∙ empty) closed,
              )
            ]
      ]
    ]

-- Reading a line of a file that is neither at its end nor in error, with a flush that does not
-- fail if one is asked for, returns: with a line that has no newline and fits in the line buffer
-- with its end, and this line, its newline and what is then still to be read are what was to be
-- read before, however the bytes come in; or with nothing, at the end of the input or in error,
-- and then what was to be read does not start with a line that fits and is ended by a newline.
pub read_line-LineResult :
    (file : BufferedFile) (line_size : ℕ) (flush : Bool)
    → IsOpen file
    → (flush ≡ true → (flush_out_buf file).error ≡ false)
    → (r : Option (List ℕ)) × (file' : BufferedFile) × (read_line file line_size flush
        ≡ some (r, file'))
      × LineResult file [] line_size r file'
unfolding read_line
read_line-LineResult file line_size flush opened sends =
    read_line_loop-LineResult (length file.incoming + 2) file [] line_size flush opened
      (omega arith) sends
