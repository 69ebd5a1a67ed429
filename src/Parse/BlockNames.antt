-- ===== src/Parse/BlockNames.antt =====
-- What server/parse.c takes for a block name.
use pand_ablocks_server.Prelude.{
  ℕ, ◌<◌, ◌≡◌, ◌↔◌, refl, sym, ap, ◌∙◌, arith, true, false, ◌&&◌, List, [], ◌∷◌, ◌++◌,
  if◌then◌else◌, length, is_empty, peek, All, Bool-cases, inl, inr,
}
use pand_ablocks_server.Parse.{Outcome, ok, fail}
use pand_ablocks_server.Parse.Names.{
  is_alpha, is_digit, valid_name_char, valid_alphanum_char, parse_filtered_name,
  parse_alphanum_name, split_digits, give_back, parse_block_name,
}
use pand_ablocks_server.Parse.NameRules.{IsName, parse_filtered_name_iff}

-- The last character of a text.
abbrev pub last : List ℕ → ℕ
last [] = 0
last (ch ∷ []) = ch
last (ch ∷ c ∷ s) = last (c ∷ s)

-- A text in two parts, of which the second is its trailing digits.
record IsSplit (s name digits : List ℕ) : Type 0 where
  pub whole : name ++ digits ≡ s
  pub digits_only : All (λ ch. is_digit ch ≡ true) digits
  pub no_digit : 0 < length name → is_digit (last name) ≡ false

-- One character more at the front.
prepend : ℕ → List ℕ → List ℕ → List ℕ × List ℕ
prepend ch name digits =
    if is_empty name && is_digit ch then ([], ch ∷ digits) else (ch ∷ name, digits)

prepend-IsSplit :
    (ch : ℕ) (s name digits : List ℕ)
    → IsSplit s name digits
    → IsSplit (ch ∷ s) (prepend ch name digits).0 (prepend ch name digits).1
unfolding prepend
prepend-IsSplit ch s [] digits i = elim (Bool-cases (is_digit ch)) [
  | inl t ↦ rw t (record {
    whole = ap (λ x. ch ∷ x) i.whole;
    digits_only = (t, i.digits_only);
    no_digit = λ h. absurd (omega arith);
  })
  | inr t ↦
      rw t (record {
        whole = ap (λ x. ch ∷ x) i.whole;
        digits_only = i.digits_only;
        no_digit = λ h. t;
      })
]
prepend-IsSplit ch s (c ∷ name) digits i = record {
  whole = ap (λ x. ch ∷ x) i.whole;
  digits_only = i.digits_only;
  no_digit = λ h. i.no_digit (omega arith);
}

split_digits-IsSplit : (s : List ℕ) → IsSplit s (split_digits s).0 (split_digits s).1
unfolding split_digits prepend
split_digits-IsSplit [] = record {
  whole = refl;
  digits_only = tt;
  no_digit = λ h. absurd (omega arith);
}
split_digits-IsSplit (ch ∷ s) =
    prepend-IsSplit ch s (split_digits s).0 (split_digits s).1 (split_digits-IsSplit s)

split_digits-digits :
    (digits : List ℕ) → All (λ ch. is_digit ch ≡ true) digits → split_digits digits ≡ ([], digits)
unfolding split_digits
split_digits-digits [] a = refl
split_digits-digits (ch ∷ digits) (t, a) = rw (split_digits-digits digits a, t) refl

split_digits_append :
    (name digits : List ℕ)
    → All (λ ch. is_digit ch ≡ true) digits
    → 0 < length name
    → is_digit (last name) ≡ false
    → split_digits (name ++ digits) ≡ (name, digits)
unfolding split_digits
split_digits_append [] digits a h t = absurd (omega arith)
split_digits_append (ch ∷ []) digits a h t = rw (split_digits-digits digits a, t) refl
split_digits_append (ch ∷ c ∷ name) digits a h t =
    rw (split_digits_append (c ∷ name) digits a (omega arith) t) refl

-- What a block name is, with the digits that are given back and what follows them.
pub record IsBlockName (max_length : ℕ) (s name digits after : List ℕ) : Type 0 where
  pub alphanum : IsName valid_alphanum_char max_length s (name ++ digits) after
  pub starts : valid_name_char (peek s) ≡ true
  pub numeric : All (λ ch. is_digit ch ≡ true) digits
  pub named : 0 < length name
  pub ends : is_digit (last name) ≡ false

is_digit-valid_alphanum : (ch : ℕ) → is_digit ch ≡ true → valid_alphanum_char ch ≡ true
unfolding is_digit valid_alphanum_char is_alpha
is_digit-valid_alphanum ch h = ground arith

digit_no_name : (ch : ℕ) → is_digit ch ≡ true → valid_name_char ch ≡ true → ⊥
unfolding is_digit valid_name_char is_alpha
digit_no_name ch h k = ground arith

first_letter :
    (s name digits after : List ℕ)
    → s ≡ (name ++ digits) ++ after
    → All (λ ch. is_digit ch ≡ true) digits
    → 0 < length (name ++ digits)
    → valid_name_char (peek s) ≡ true
    → 0 < length name
first_letter s [] [] after e a h v = absurd (omega arith)
first_letter s [] (ch ∷ digits) after e a h v =
    absurd (digit_no_name ch a.0 (ap (λ t. valid_name_char (peek t)) (sym e) ∙ v))
first_letter s (ch ∷ name) digits after e a h v = omega arith

alphanum-IsName :
    (max_length : ℕ) (s text after : List ℕ)
    → parse_alphanum_name max_length s ≡ (ok text, after)
    → (valid_name_char (peek s) ≡ true) × IsName valid_alphanum_char max_length s text after
unfolding parse_alphanum_name
alphanum-IsName max_length s text after h = elim (Bool-cases (valid_name_char (peek s))) [
  | inl t ↦ (t, (parse_filtered_name_iff valid_alphanum_char max_length s text after).0 (taken t))
  | inr t ↦ absurd (refused t)
]
  where
    taken :
        valid_name_char (peek s) ≡ true
        → parse_filtered_name valid_alphanum_char max_length s ≡ (ok text, after)
    taken t = rw t at h

    refused : valid_name_char (peek s) ≡ false → ⊥
    refused t = cc (ap (λ (x : Outcome (List ℕ) × List ℕ). x.0) (rw t at h))

give_back_ok :
    (r : Outcome (List ℕ) × List ℕ) (name rest : List ℕ)
    → give_back r ≡ (ok name, rest)
    → (text : List ℕ) × (r ≡ (ok text, r.1))
      × ((split_digits text).0 ≡ name)
      × ((split_digits text).1 ++ r.1 ≡ rest)
unfolding give_back
give_back_ok (ok text, after) name rest h = (
  text,
  refl,
  cc (ap (λ (x : Outcome (List ℕ) × List ℕ). x.0) h),
  ap (λ (x : Outcome (List ℕ) × List ℕ). x.1) h,
)
give_back_ok (fail e, after) name rest h = cc (ap (λ (x : Outcome (List ℕ) × List ℕ). x.0) h)

-- `parse_block_name` gives a name exactly when the text starts with a letter or underscore and
-- letters, underscores and digits, some and fewer than `max_length`, up to a character that is none
-- of these; the name is all of it but the digits at its end, and these are left with what follows.
pub parse_block_name_iff :
    (max_length : ℕ) (s name rest : List ℕ)
    → (parse_block_name max_length s ≡ (ok name, rest)) ↔ (
        (digits : List ℕ) × (after : List ℕ) × (rest ≡ digits ++ after)
        × IsBlockName max_length s name digits after)
unfolding parse_block_name parse_alphanum_name give_back
parse_block_name_iff max_length s name rest = (
  λ h.
      let (text, e, n, d) = give_back_ok (parse_alphanum_name max_length s) name rest h in
      let after = (parse_alphanum_name max_length s).1 in
      let (v, a) = alphanum-IsName max_length s text after e in
      let i = split_digits-IsSplit text in
      let digits = (split_digits text).1 in
      let w : name ++ digits ≡ text = rw (sym n) i.whole in
      let named =
        first_letter s name digits after (rw w a.whole) i.digits_only (rw w a.some_char) v in
      (
        digits,
        after,
        sym d,
        record {
          alphanum = rw w a;
          starts = v;
          numeric = i.digits_only;
          named = named;
          ends = rw (sym n) (i.no_digit (rw n named));
        },
      ),
  λ (digits, after, e, b).
      rw
        (
          b.starts,
          (parse_filtered_name_iff valid_alphanum_char max_length s (name ++ digits) after).1
              b.alphanum,
          split_digits_append name digits b.numeric b.named b.ends,
          e,
          parse_block_name,
          parse_alphanum_name,
          give_back,
        )
        refl,
)
