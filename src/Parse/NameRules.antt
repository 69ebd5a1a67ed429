-- ===== src/Parse/NameRules.antt =====
-- What server/parse.c takes for a name.
use pand_ablocks_server.Prelude.{
  ℕ, zero, suc, ◌≤◌, ◌<◌, ◌≡◌, ◌↔◌, refl, sym, ap, arith, Bool, true, false, List, [], ◌∷◌, ◌++◌,
  length, peek, All, Bool-cases, inl, inr, ◌⊎◌,
}
use pand_ablocks_server.Parse.{Outcome, ok}
use pand_ablocks_server.Parse.Names.{take_filtered, check_name, parse_filtered_name}

-- What a name is, with no word of the loop.
pub record IsName (filter_char : ℕ → Bool) (max_length : ℕ) (s name rest : List ℕ) : Type 0 where
  pub whole : s ≡ name ++ rest
  pub allowed : All (λ ch. filter_char ch ≡ true) name
  pub some_char : 0 < length name
  pub fits : length name < max_length
  pub stops : (rest ≡ []) ⊎ (filter_char (peek rest) ≡ false)

module _ (filter_char : ℕ → Bool) where
  take_filtered_lem :
      (room : ℕ) (s : List ℕ)
      → let r = take_filtered filter_char room s in
        (s ≡ r.0 ++ r.1)
        × All (λ ch. filter_char ch ≡ true) r.0
        × (length r.0 ≤ room)
        × ((length r.0 < room) → (r.1 ≡ []) ⊎ (filter_char (peek r.1) ≡ false))
  unfolding take_filtered
  take_filtered_lem zero s = (refl, tt, omega arith, λ h. absurd (omega arith))
  take_filtered_lem (suc room) [] = (refl, tt, omega arith, λ h. inl refl)
  take_filtered_lem (suc room) (ch ∷ s) = elim (Bool-cases (filter_char ch)) [
    | inl t ↦
        let (a, b, c, d) = take_filtered_lem room s in
        rw t (ap (λ x. ch ∷ x) a, (t, b), omega arith, λ h. d (omega arith))
    | inr t ↦ rw t (refl, tt, omega arith, λ h. inr t)
  ]

  -- A text with the name at its start.
  take_filtered_append :
      (room : ℕ) (name rest : List ℕ)
      → All (λ ch. filter_char ch ≡ true) name
      → length name < room
      → ((rest ≡ []) ⊎ (filter_char (peek rest) ≡ false))
      → take_filtered filter_char room (name ++ rest) ≡ (name, rest)
  unfolding take_filtered
  take_filtered_append zero name rest a h stop = absurd (omega arith)
  take_filtered_append (suc room) [] [] a h stop = refl
  take_filtered_append (suc room) [] (ch ∷ rest) a h stop = elim stop [
    | inl e ↦ cc e
    | inr t ↦ rw t refl
  ]
  take_filtered_append (suc room) (ch ∷ name) rest (t, a) h stop =
      rw (t, take_filtered_append room name rest a (omega arith) stop) refl

  check_name_ok :
      (max_length : ℕ) (text name : List ℕ)
      → check_name max_length text ≡ ok name
      → (text ≡ name) × (0 < length text) × (length text < max_length)
  unfolding check_name
  check_name_ok max_length text name h = ground arith

  check_name_fits :
      (max_length : ℕ) (name : List ℕ)
      → 0 < length name
      → length name < max_length
      → check_name max_length name ≡ ok name
  unfolding check_name
  check_name_fits max_length name some_char fits = ground arith

  parsed-IsName :
      (max_length : ℕ) (s name rest : List ℕ)
      → parse_filtered_name filter_char max_length s ≡ (ok name, rest)
      → IsName filter_char max_length s name rest
  unfolding parse_filtered_name
  parsed-IsName max_length s name rest h =
      let (text, left) = take_filtered filter_char max_length s in
      let f : check_name max_length text ≡ ok name =
        ap (λ (x : Outcome (List ℕ) × List ℕ). x.0) h in
      let g : left ≡ rest = ap (λ (x : Outcome (List ℕ) × List ℕ). x.1) h in
      let (whole, allowed, room, stops) = take_filtered_lem max_length s in
      let (e, some_char, fits) = check_name_ok max_length text name f in
      record {
        whole = rw (sym e, sym g) whole;
        allowed = rw (sym e) allowed;
        some_char = rw (sym e) some_char;
        fits = rw (sym e) fits;
        stops = rw (sym g) (stops fits);
      }

  pub parse_filtered_name_iff :
      (max_length : ℕ) (s name rest : List ℕ)
      → (parse_filtered_name filter_char max_length s ≡ (ok name, rest))
        ↔ IsName filter_char max_length s name rest
  unfolding parse_filtered_name
  parse_filtered_name_iff max_length s name rest = (
    parsed-IsName max_length s name rest,
    λ n.
        rw
          (
            n.whole,
            take_filtered_append max_length name rest n.allowed n.fits n.stops,
            check_name_fits max_length name n.some_char n.fits,
          )
          refl,
  )
