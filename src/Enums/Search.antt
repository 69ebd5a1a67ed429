-- ===== src/Enums/Search.antt =====
-- The binary search of server/enums.c is a lower bound, and its lookup is that of a plain search.
use native.Mathlib.Decide.{dec_lt}
use native.Mathlib.Nat.{le_refl}
use pand_ablocks_server.Prelude.{
  ℕ, zero, suc, ◌+◌, ◌/◌, ◌≤◌, ◌<◌, ◌≡◌, ◌≢◌, refl, sym, ap, arith, true, false, ◌&&◌, List, [],
  ◌∷◌, Option, none, some, ltb, leb, ◌==◌, if◌then◌else◌, length, get_or, All, All-get_or,
  Bool-cases, inl, inr, ◌⊎◌,
}
use pand_ablocks_server.Enums.{Entry, value_at, search_loop, binary_search, enum_index_to_name}

-- Values that grow.
abbrev pub Sorted : List Entry → Type 0
Sorted [] = Unit
Sorted (entry ∷ es) = All (λ e. entry.value < e.value) es × Sorted es

Sorted-at :
    (es : List Entry)
    → Sorted es
    → (i j : ℕ) → i < j
    → j < length es
    → value_at es i < value_at es j
Sorted-at [] s i j h k = absurd (omega arith)
Sorted-at (e ∷ es) s i zero h k = absurd (omega arith)
Sorted-at (e ∷ es) (a, s) zero (suc j) h k =
    All-get_or (λ x. e.value < x.value) es j (record { name = none; value = 0 }) a (omega arith)
Sorted-at (e ∷ es) (a, s) (suc i) (suc j) h k = Sorted-at es s i j (omega arith) (omega arith)

-- The values below `ix` are less than `value`, those from `ix` on are not.
pub record IsLowerBound (es : List Entry) (value ix : ℕ) : Type 0 where
  pub inside : ix ≤ length es
  pub below : (i : ℕ) → i < ix → value_at es i < value
  pub above : (i : ℕ) → ix ≤ i → i < length es → value ≤ value_at es i

module _ (es : List Entry) (sorted : Sorted es) (value : ℕ) where
  search_loop-IsLowerBound :
      (fuel left right : ℕ)
      → left ≤ right
      → right ≤ length es
      → right < left + fuel
      → ((i : ℕ) → i < left → value_at es i < value)
      → ((i : ℕ) → right ≤ i → i < length es → value ≤ value_at es i)
      → (ix : ℕ) × (search_loop es value fuel left right ≡ some ix) × IsLowerBound es value ix
  unfolding search_loop
  search_loop-IsLowerBound zero left right lr inside enough below above = absurd (omega arith)
  search_loop-IsLowerBound (suc fuel) left right lr inside enough below above =
      elim (Bool-cases (ltb left right)) [
        | inr t ↦
            let e : left ≡ right = ground (arith, t) in
            (
              left,
              rw t refl,
              record {
                inside = omega arith;
                below = below;
                above = λ i h k. above i (omega arith) k;
              },
            )
        | inl t ↦
            let l : left < right = ground (arith, t) in
            let centre = (left + right) / 2 in
            elim (Bool-cases (leb value (value_at es centre))) [
              | inl u ↦
                  let v : value ≤ value_at es centre = ground (arith, u) in
                  let (ix, e, b) =
                    search_loop-IsLowerBound fuel left centre (omega arith) (omega arith)
                      (omega arith) below
                      (λ i h k. elim (dec_lt centre i) [
                        | yes p ↦ (let s = Sorted-at es sorted centre i p k in omega arith)
                        | no p ↦ (let q : i ≡ centre = omega arith in rw q v)
                      ]) in
                  (ix, rw (t, u) e, b)
              | inr u ↦
                  let v : value_at es centre < value = ground (arith, u) in
                  let (ix, e, b) =
                    search_loop-IsLowerBound fuel (centre + 1) right (omega arith) (omega arith)
                      (omega arith)
                      (λ i h. elim (dec_lt i centre) [
                        | yes p ↦
                            (let s = Sorted-at es sorted i centre p (omega arith) in omega arith)
                        | no p ↦ (let q : i ≡ centre = omega arith in rw q v)
                      ])
                      above in
                  (ix, rw (t, u) e, b)
            ]
      ]

-- In a sorted set `binary_search` ends, at the first entry whose value is not less than `value`, or
-- at the end of the set if there is none.
pub binary_search-IsLowerBound :
    (es : List Entry) (value : ℕ)
    → Sorted es
    → (ix : ℕ) × (binary_search es value ≡ some ix) × IsLowerBound es value ix
unfolding binary_search
binary_search-IsLowerBound es value sorted =
    search_loop-IsLowerBound es sorted value (suc (length es)) 0 (length es) (omega arith)
      (omega arith) (omega arith) (λ i h. absurd (omega arith)) (λ i h k. absurd (omega arith))

-- The name of the first entry with a value.
unfoldable pub find_name : List Entry → ℕ → Option (List ℕ)
find_name [] value = none
find_name (entry ∷ es) value = if entry.value == value then entry.name else find_name es value

find_name-at :
    (es : List Entry) (value ix : ℕ)
    → ((i : ℕ) → i < ix → value_at es i < value)
    → ix < length es
    → value_at es ix ≡ value
    → find_name es value ≡ (get_or es ix (record { name = none; value = 0 })).name
unfolding find_name
find_name-at [] value ix below h e = absurd (omega arith)
find_name-at (entry ∷ es) value zero below h e =
    let t : (entry.value == value) ≡ true = ground arith in rw t refl
find_name-at (entry ∷ es) value (suc ix) below h e =
    let l : entry.value < value = below 0 (omega arith) in
    let t : (entry.value == value) ≡ false = ground arith in
    rw t (find_name-at es value ix (λ i k. below (suc i) (omega arith)) (omega arith) e)

pub find_name-missing :
    (es : List Entry) (value : ℕ)
    → ((i : ℕ) → i < length es → value_at es i ≢ value)
    → find_name es value ≡ none
unfolding find_name
find_name-missing [] value missing = refl
find_name-missing (entry ∷ es) value missing =
    let n : entry.value ≢ value = missing 0 (omega arith) in
    let t : (entry.value == value) ≡ false = ground arith in
    rw t (find_name-missing es value (λ i h. missing (suc i) (omega arith)))

-- What is at or after a lower bound, but not at it, is greater.
pub bound_missing :
    (es : List Entry) (value ix : ℕ)
    → Sorted es
    → IsLowerBound es value ix
    → ((ix ≡ length es) ⊎ (value < value_at es ix))
    → (i : ℕ) → i < length es
    → value_at es i ≢ value
bound_missing es value ix sorted b more i h e = elim (dec_lt i ix) [
  | yes p ↦ (let l = b.below i p in omega arith)
  | no p ↦ elim more [
    | inl q ↦ omega arith
    | inr q ↦ elim (dec_lt ix i) [
      | yes k ↦ (let s = Sorted-at es sorted ix i k h in omega arith)
      | no k ↦
          (let f : i ≡ ix = omega arith in
            let g : value_at es i ≡ value_at es ix = ap (value_at es) f in omega arith)
    ]
  ]
]

-- In a sorted set `enum_index_to_name` ends, with the name of the entry that has the value, if one
-- has, and NULL otherwise.
pub enum_index_to_name-find :
    (es : List Entry) (value : ℕ)
    → Sorted es
    → enum_index_to_name es value ≡ some (find_name es value)
unfolding enum_index_to_name
enum_index_to_name-find es value sorted =
    let (ix, e, b) = binary_search-IsLowerBound es value sorted in
    elim (Bool-cases (ltb ix (length es) && value_at es ix == value)) [
      | inl t ↦
          let h : ix < length es = ground (arith, t) in
          let f : value_at es ix ≡ value = ground (arith, t) in
          rw (enum_index_to_name, e, t) (ap some (sym (find_name-at es value ix b.below h f)))
      | inr t ↦
          let more : (ix ≡ length es) ⊎ (value < value_at es ix) = past es value ix b t in
          rw (enum_index_to_name, e, t)
            (ap some (sym (find_name-missing es value (bound_missing es value ix sorted b more))))
    ]
  where
    past :
        (es : List Entry) (value ix : ℕ)
        → IsLowerBound es value ix
        → (ltb ix (length es) && value_at es ix == value) ≡ false
        → (ix ≡ length es) ⊎ (value < value_at es ix)
    past es value ix b t = elim (dec_lt ix (length es)) [
      | no p ↦ (let i = b.inside in inl (omega arith))
      | yes p ↦ (let a = b.above ix (le_refl ix) p in inr (ground (arith, t)))
    ]
