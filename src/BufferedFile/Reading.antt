-- ===== src/BufferedFile/Reading.antt =====
-- server/buffered_file.c: the lines that are read are those of the bytes that come in.
use pand_ablocks_server.Prelude.{
  ℕ, zero, suc, ◌+◌, ◌-◌, ◌<◌, ◌≤◌, ◌≡◌, ◌≢◌, ◌⊎◌, inl, inr, refl, sym, ap, ◌∙◌, arith, true, false,
  List, [], ◌∷◌, ◌++◌, All, Option, some, none, ◌||◌, ◌==◌, Bool-cases, Option-cases, by_if, length,
  take, drop, length-drop, drop-drop,
}
use pand_ablocks_server.BufferedFile.{
  newline, Arrival, failed_read, arrives, BufferedFile, send_entire_buffer, flush_out_buf,
  read_socket, available, find_char,
}

-- What comes in until the end of the input or an error.
unfoldable pub arriving : List Arrival → List ℕ
arriving [] = []
arriving (failed_read ∷ arrivals) = []
arriving (arrives [] ∷ arrivals) = []
arriving (arrives (b ∷ bytes) ∷ arrivals) = b ∷ bytes ++ arriving arrivals

-- What is still to be read.
unfoldable pub pending : BufferedFile → List ℕ
pending file = available file ++ arriving file.incoming

unfoldable pub Lacks : ℕ → List ℕ → Type 0
Lacks c s = All (λ a. a ≢ c) s

-- Where a character is found it splits the text.
pub find_char-some :
    (c : ℕ) (s : List ℕ) (n : ℕ)
    → find_char c s ≡ some n
    → (s ≡ take n s ++ c ∷ drop (suc n) s) × Lacks c (take n s) × (n < length s)
unfolding find_char Lacks
find_char-some c [] n h = absurd (cc h)
find_char-some c (a ∷ s) n h = elim (Bool-cases (a == c)) [
  | inl t ↦
      let h' = rw t at h in
      let z : n ≡ 0 = cc h' in
      let same : a ≡ c = ground arith in rw z (ap (λ x. x ∷ s) same, tt, omega arith)
  | inr t ↦
      let h' = rw t at h in
      let ne : a ≢ c = λ e. ground arith in
      elim (Option-cases (find_char c s)) [
        | inl e ↦ absurd (cc (rw e at h'))
        | inr (m, e) ↦
            let h'' = rw e at h' in
            let z : n ≡ suc m = cc h'' in
            let (split, lacks, lt) = find_char-some c s m e in
            rw z (ap (λ x. a ∷ x) split, (ne, lacks), omega arith)
      ]
]

pub find_char-none : (c : ℕ) (s : List ℕ) → find_char c s ≡ none → Lacks c s
unfolding find_char Lacks
find_char-none c [] h = tt
find_char-none c (a ∷ s) h = elim (Bool-cases (a == c)) [
  | inl t ↦ absurd (cc (rw t at h))
  | inr t ↦
      let h' = rw t at h in
      let ne : a ≢ c = λ e. ground arith in
      elim (Option-cases (find_char c s)) [
        | inl e ↦ (ne, find_char-none c s e)
        | inr (m, e) ↦ absurd (cc (rw e at h'))
      ]
]

take_all : (n : ℕ) (s : List ℕ) → n ≡ length s → take n s ≡ s
take_all zero [] h = refl
take_all zero (a ∷ s) h = absurd (omega arith)
take_all (suc n) [] h = refl
take_all (suc n) (a ∷ s) h = ap (λ t. a ∷ t) (take_all n s (omega arith))

-- A text without the character lies before the first one.
pub Lacks-split :
    (c : ℕ) (a x t r : List ℕ)
    → Lacks c a
    → a ++ x ≡ t ++ c ∷ r
    → (t' : List ℕ) × (t ≡ a ++ t') × (x ≡ t' ++ c ∷ r)
unfolding Lacks
Lacks-split c [] x t r lacks e = (t, refl, e)
Lacks-split c (b ∷ a) x [] r (ne, lacks) e = absurd (ne (cc e))
Lacks-split c (b ∷ a) x (d ∷ t) r (ne, lacks) e =
    let head : b ≡ d = cc e in
    let tail : a ++ x ≡ t ++ c ∷ r = cc e in
    let (t', f, g) = Lacks-split c a x t r lacks tail in
    (t', ap (λ y. y ∷ t) (sym head) ∙ ap (λ y. b ∷ y) f, g)

-- A file from which bytes can be read.
unfoldable pub IsOpen : BufferedFile → Type 0
IsOpen file =
    (file.eof ≡ false)
    × (file.error ≡ false)
    × (file.read_ptr ≤ file.in_length)
    × (file.in_length ≡ length file.in_buf)

-- A read of the socket leaves what is pending, after all that was available: with nothing pending it
-- ends the input or fails.
pub read_socket-pending :
    (arrivals : List Arrival) (file : BufferedFile)
    → file.error ≡ false
    → file.eof ≡ false
    → file.incoming ≡ arrivals
    → (IsOpen (read_socket arrivals file)
        × (pending (read_socket arrivals file) ≡ arriving arrivals)
        × (length (read_socket arrivals file).incoming < length arrivals))
      ⊎ (((read_socket arrivals file).eof || (read_socket arrivals file).error ≡ true)
          × (arriving arrivals ≡ []))
unfolding read_socket arriving pending available IsOpen
read_socket-pending [] file ok more e = inr (refl, refl)
read_socket-pending (failed_read ∷ arrivals) file ok more e = inr (refl, refl)
read_socket-pending (arrives [] ∷ arrivals) file ok more e = inr (refl, refl)
read_socket-pending (arrives (b ∷ bytes) ∷ arrivals) file ok more e = inl (
  (ground arith, ok, omega arith, refl),
  ap (λ t. t ++ arriving arrivals) (take_all (suc (length bytes) - 0) (b ∷ bytes) (omega arith)),
  omega arith,
)

-- A flush leaves the side of the input as it is.
unfoldable pub SameInput : BufferedFile → BufferedFile → Type 0
SameInput file file' =
    (file'.eof ≡ file.eof)
    × (file'.read_ptr ≡ file.read_ptr)
    × (file'.in_length ≡ file.in_length)
    × (file'.in_buf ≡ file.in_buf)
    × (file'.incoming ≡ file.incoming)

pub flush_out_buf-SameInput : (file : BufferedFile) → SameInput file (flush_out_buf file)
unfolding flush_out_buf SameInput send_entire_buffer
flush_out_buf-SameInput file =
    by_if (λ (f : BufferedFile). SameInput file f) file.error file _
      (λ _. (refl, refl, refl, refl, refl)) (λ _. (refl, refl, refl, refl, refl))

pub available_all :
    (file : BufferedFile) → IsOpen file → available file ≡ drop file.read_ptr file.in_buf
unfolding IsOpen available
available_all file (more, ok, le, len) =
    take_all (file.in_length - file.read_ptr) (drop file.read_ptr file.in_buf)
      (rw len (sym (length-drop file.read_ptr file.in_buf)))

-- A line is taken out of the buffer.
pub taken :
    (file : BufferedFile) (n : ℕ)
    → IsOpen file
    → n < length (available file)
    → IsOpen (record file { read_ptr = file.read_ptr + n + 1 })
      × (available (record file { read_ptr = file.read_ptr + n + 1 })
          ≡ drop (suc n) (available file))
unfolding IsOpen
taken file n opened lt =
    let (more, ok, le, len) = opened in
    let all = available_all file opened in
    let size = ap (λ t. length t) all ∙ length-drop file.read_ptr file.in_buf in
    let opened' : IsOpen (record file { read_ptr = file.read_ptr + n + 1 }) =
      (more, ok, omega arith, len) in
    (
      opened',
      available_all (record file { read_ptr = file.read_ptr + n + 1 }) opened'
          ∙ drop-drop file.read_ptr (suc n) (file.read_ptr + n + 1) file.in_buf (omega arith)
          ∙ ap (λ t. drop (suc n) t) (sym all),
    )

-- How the reading of a line ends, after its start: with a line that was pending, or, with no end of a
-- line that fits, at the end of the input or with an error.
unfoldable pub LineResult : BufferedFile → List ℕ → ℕ → Option (List ℕ) → BufferedFile → Type 0
LineResult file line line_size (some l) file' =
    (tail : List ℕ) × (l ≡ line ++ tail)
    × (pending file ≡ tail ++ newline ∷ pending file')
    × Lacks newline tail
    × (length tail + 1 < line_size)
    × IsOpen file'
LineResult file line line_size none file' =
    ((file'.eof || file'.error) ≡ true)
    × ((tail rest : List ℕ)
        → pending file ≡ tail ++ newline ∷ rest
        → Lacks newline tail
        → length tail + 1 < line_size
        → ⊥)
