-- ===== src/HashTable/Searching.antt =====
-- server/hashtable.c: what a lookup finds along a list of slots, and how that changes with a slot.
use pand_ablocks_server.Prelude.{
  ℕ, zero, suc, ◌+◌, ◌*◌, ◌/◌, ◌%◌, ◌^◌, ◌<◌, ◌≡◌, ◌⊎◌, inl, inr, refl, sym, ap, ◌∙◌, arith, Bool,
  true, false, ◌&&◌, List, [], ◌∷◌, All, Option, none, some, ◌==◌, bit_and, Bool-cases,
}
use pand_ablocks_server.HashTable.{
  Slot, unused, deleted, used, or_slot, slot_at, at_slot, lookup_from,
}
use pand_ablocks_server.HashTable.Probing.{probes, Meets}

pub Slot-cases :
    {K V : Type 0} (s : Slot K V)
    → (s ≡ unused) ⊎ ((s ≡ deleted) ⊎ ((h : ℕ) × (k : K) × (v : V) × (s ≡ used h k v)))
Slot-cases unused = inl refl
Slot-cases deleted = inr (inl refl)
Slot-cases (used h k v) = inr (inr (h, k, v, refl))

or_slot_cases :
    (first : Option ℕ) (p : ℕ)
    → ((first ≡ none) × (or_slot first p ≡ p))
      ⊎ ((x : ℕ) × (first ≡ some x) × (or_slot first p ≡ x))
unfolding or_slot
or_slot_cases none p = inl (refl, refl)
or_slot_cases (some x) p = inr (x, refl, refl)

module _ {K V : Type 0} (w : ℕ) (hash_of : K → ℕ) (compare : K → K → Bool) where
  unfoldable pub search : List (Slot K V) → K → ℕ → List ℕ → Option ℕ → Option (Bool × ℕ)
  search slots key hash [] first = none
  search slots key hash (p ∷ ps) first =
      at_slot w hash_of compare (slot_at slots p) key hash p first (search slots key hash ps first)
        (search slots key hash ps (some (or_slot first p)))

  pub lookup_from-search :
      (slots : List (Slot K V)) (mask : ℕ) (key : K) (hash fuel ix perturb : ℕ) (first : Option ℕ)
      → lookup_from w hash_of compare slots mask key hash fuel ix perturb first
        ≡ search slots key hash (probes w mask fuel ix perturb) first
  unfolding lookup_from search probes
  lookup_from-search slots mask key hash zero ix perturb first = refl
  lookup_from-search slots mask key hash (suc fuel) ix perturb first =
      let i = bit_and ix mask in
      let ix' = (1 + 5 * ix + perturb / 2 ^ 5) % 2 ^ w in
      let a = lookup_from-search slots mask key hash fuel ix' (perturb / 2 ^ 5) first in
      let b =
        lookup_from-search slots mask key hash fuel ix' (perturb / 2 ^ 5)
          (some (or_slot first i)) in
      rw (a, b) refl

  -- The slot has the key.
  unfoldable pub Matches : K → ℕ → Slot K V → Type 0
  Matches key hash slot = (k : K) × (v : V) × (slot ≡ used hash k v) × (compare key k ≡ true)

  -- The ways a round ends or goes on.
  pub search_cases :
      (slots : List (Slot K V)) (key : K) (hash p : ℕ) (ps : List ℕ) (first : Option ℕ)
      → ((slot_at slots p ≡ unused)
          × (search slots key hash (p ∷ ps) first ≡ some (false, or_slot first p)))
        ⊎ (((slot_at slots p ≡ deleted)
              × (search slots key hash (p ∷ ps) first
                  ≡ search slots key hash ps (some (or_slot first p))))
            ⊎ ((Matches key hash (slot_at slots p)
                  × (search slots key hash (p ∷ ps) first ≡ some (true, p)))
                ⊎ ((h : ℕ) × (k : K) × (v : V) × (slot_at slots p ≡ used h k v)
                    × ((h == hash && compare key k) ≡ false)
                    × (search slots key hash (p ∷ ps) first ≡ search slots key hash ps first))))
  unfolding search at_slot Matches
  search_cases slots key hash p ps first = elim (Slot-cases (slot_at slots p)) [
    | inl e ↦ inl (e, rw (search, e, at_slot) refl)
    | inr (inl e) ↦ inr (inl (e, rw (search, e, at_slot) refl))
    | inr (inr (h, k, v, e)) ↦ elim (Bool-cases (h == hash && compare key k)) [
      | inl t ↦
          let eq : h ≡ hash = ground arith in
          let c : compare key k ≡ true = ground arith in
          inr (inr (inl ((k, v, e ∙ ap (λ x. used x k v) eq, c), rw (search, e, at_slot, t) refl)))
      | inr t ↦ inr (inr (inr (h, k, v, e, t, rw (search, e, at_slot, t) refl)))
    ]
  ]

  -- A search ends if it meets an unused slot.
  pub search_ends :
      (slots : List (Slot K V)) (key : K) (hash j : ℕ) (ps : List ℕ) (first : Option ℕ)
      → Meets j ps
      → slot_at slots j ≡ unused
      → (r : Bool × ℕ) × (search slots key hash ps first ≡ some r)
  unfolding Meets Matches
  search_ends slots key hash j [] first met free = elim met [ ]
  search_ends slots key hash j (p ∷ ps) first met free =
      elim (search_cases slots key hash p ps first) [
        | inl (e, f) ↦ (_, f)
        | inr (inl (e, f)) ↦ elim met [
          | inl h ↦ absurd (cc (rw h at e, free))
          | inr h ↦
              let (r, g) = search_ends slots key hash j ps (some (or_slot first p)) h free in
              (r, f ∙ g)
        ]
        | inr (inr (inl (e, f))) ↦ (_, f)
        | inr (inr (inr (h, k, v, e, t, f))) ↦ elim met [
          | inl m ↦ absurd (cc (rw m at e, free))
          | inr m ↦ let (r, g) = search_ends slots key hash j ps first m free in (r, f ∙ g)
        ]
      ]

  -- What is found is the key.
  pub search-Matches :
      (slots : List (Slot K V)) (key : K) (hash j : ℕ) (ps : List ℕ) (first : Option ℕ)
      → search slots key hash ps first ≡ some (true, j)
      → Matches key hash (slot_at slots j)
  unfolding search
  search-Matches slots key hash j [] first h = absurd (cc h)
  search-Matches slots key hash j (p ∷ ps) first h = elim (search_cases slots key hash p ps first) [
    | inl (e, f) ↦ absurd (cc (sym f ∙ h))
    | inr (inl (e, f)) ↦ search-Matches slots key hash j ps (some (or_slot first p)) (sym f ∙ h)
    | inr (inr (inl (e, f))) ↦
        let k : some (true, p) ≡ some (true, j) = sym f ∙ h in
        let same : p ≡ j = cc k in rw same at e
    | inr (inr (inr (h', k, v, e, t, f))) ↦ search-Matches slots key hash j ps first (sym f ∙ h)
  ]

  -- The slot for a new key is not in use.
  pub search_free :
      (slots : List (Slot K V)) (key : K) (hash i : ℕ) (ps : List ℕ) (first : Option ℕ)
      → search slots key hash ps first ≡ some (false, i)
      → (first ≡ some i) ⊎ ((slot_at slots i ≡ unused) ⊎ (slot_at slots i ≡ deleted))
  unfolding search
  search_free slots key hash i [] first h = absurd (cc h)
  search_free slots key hash i (p ∷ ps) first h = elim (search_cases slots key hash p ps first) [
    | inl (e, f) ↦
        let k : some (false, or_slot first p) ≡ some (false, i) = sym f ∙ h in
        elim (or_slot_cases first p) [
          | inl (n, g) ↦ let same : p ≡ i = cc (k, g) in inr (inl (rw same at e))
          | inr (x, n, g) ↦ let same : x ≡ i = cc (k, g) in inl (n ∙ ap some same)
        ]
    | inr (inl (e, f)) ↦
        elim (search_free slots key hash i ps (some (or_slot first p)) (sym f ∙ h)) [
          | inr free ↦ inr free
          | inl k ↦ elim (or_slot_cases first p) [
            | inl (n, g) ↦ let same : p ≡ i = cc (k, g) in inr (inr (rw same at e))
            | inr (x, n, g) ↦ let same : x ≡ i = cc (k, g) in inl (n ∙ ap some same)
          ]
        ]
    | inr (inr (inl (e, f))) ↦ absurd (cc (sym f ∙ h))
    | inr (inr (inr (h', k, v, e, t, f))) ↦ search_free slots key hash i ps first (sym f ∙ h)
  ]

  -- The slot that a search gives is one that it meets.
  pub search_within :
      (n : ℕ) (slots : List (Slot K V)) (key : K) (hash i : ℕ) (b : Bool) (ps : List ℕ)
      (first : Option ℕ)
      → All (λ p. p < n) ps
      → ((x : ℕ) → first ≡ some x → x < n)
      → search slots key hash ps first ≡ some (b, i)
      → i < n
  unfolding search
  search_within n slots key hash i b [] first a f h = absurd (cc h)
  search_within n slots key hash i b (p ∷ ps) first (a, as') f h =
      let here : or_slot first p < n = elim (or_slot_cases first p) [
        | inl (e, g) ↦ rw g a
        | inr (x, e, g) ↦ rw g (f x e)
      ] in
      elim (search_cases slots key hash p ps first) [
        | inl (e, g) ↦
            let k : some (false, or_slot first p) ≡ some (b, i) = sym g ∙ h in
            let same : or_slot first p ≡ i = cc k in rw same at here
        | inr (inl (e, g)) ↦
            search_within n slots key hash i b ps (some (or_slot first p)) as'
              (λ x e'. let same : or_slot first p ≡ x = cc e' in rw same at here) (sym g ∙ h)
        | inr (inr (inl (e, g))) ↦
            let k : some (true, p) ≡ some (b, i) = sym g ∙ h in
            let same : p ≡ i = cc k in rw same at a
        | inr (inr (inr (h', k, v, e, t, g))) ↦
            search_within n slots key hash i b ps first as' f (sym g ∙ h)
      ]
