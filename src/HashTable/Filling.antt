-- ===== src/HashTable/Filling.antt =====
-- server/hashtable.c: how what a lookup finds changes with a slot.
use pand_ablocks_server.Prelude.{
  ℕ, ◌<◌, ◌≡◌, ◌≢◌, inl, inr, refl, sym, ap, ◌∙◌, Bool, true, false, ◌&&◌, List, [], ◌∷◌, Option,
  none, some, ◌==◌, ==_iff, length, get_or, set, get_or-set_self, get_or-set_ne,
}
use native.Mathlib.Decide.{ℕ_discrete}
use pand_ablocks_server.HashTable.{Slot, unused, used, or_slot, slot_at, at_slot}
use pand_ablocks_server.HashTable.Searching.{search, search_cases, search_free, Matches}

module _ {K V : Type 0} (w : ℕ) (hash_of : K → ℕ) (compare : K → K → Bool) where
  -- A search goes past a slot that is neither unused nor has the key.
  step_past :
      (slots : List (Slot K V)) (key : K) (hash p : ℕ) (ps : List ℕ) (first : Option ℕ)
      → slot_at slots p ≢ unused
      → (Matches w hash_of compare key hash (slot_at slots p) → ⊥)
      → (other : Option ℕ) × (search w hash_of compare slots key hash (p ∷ ps) first
          ≡ search w hash_of compare slots key hash ps other)
  step_past slots key hash p ps first u m =
      elim (search_cases w hash_of compare slots key hash p ps first) [
        | inl (e, f) ↦ absurd (u e)
        | inr (inl (e, f)) ↦ (some (or_slot first p), f)
        | inr (inr (inl (e, f))) ↦ absurd (m e)
        | inr (inr (inr (h, k, v, e, t, f))) ↦ (first, f)
      ]

  step_match :
      (slots : List (Slot K V)) (key : K) (hash p : ℕ) (ps : List ℕ) (first : Option ℕ)
      → Matches w hash_of compare key hash (slot_at slots p)
      → search w hash_of compare slots key hash (p ∷ ps) first ≡ some (true, p)
  unfolding search at_slot Matches
  step_match slots key hash p ps first (k, v, e, c) =
      let same : (hash == hash) ≡ true = (==_iff hash hash).1 refl in
      rw (search, e, at_slot, same, c) refl

  no_match :
      (key : K) (hash h : ℕ) (k : K) (v : V)
      → (h == hash && compare key k) ≡ false
      → Matches w hash_of compare key hash (used h k v)
      → ⊥
  unfolding Matches
  no_match key hash h k v t (k', v', e, c) =
      let eh : h ≡ hash = cc e in
      let ek : k ≡ k' = cc e in
      let same : (hash == hash) ≡ true = (==_iff hash hash).1 refl in
      let t' : (hash == hash && compare key k') ≡ false = rw (eh, ek) at t in
      absurd (cc (rw (same, c) at t'))

  -- A key stays where it is found when another slot changes to one that is not unused and has not
  -- the key.
  module _ (slots : List (Slot K V)) (key : K) (hash i j : ℕ) (s : Slot K V) (ne : i ≢ j)
      (small : i < length slots) (u : s ≢ unused)
      (m : Matches w hash_of compare key hash s → ⊥) where
    past_changed :
        (p : ℕ) (ps : List ℕ) (first : Option ℕ)
        → slot_at slots p ≢ unused
        → (Matches w hash_of compare key hash (slot_at slots p) → ⊥)
        → (other : Option ℕ) × (search w hash_of compare (set slots i s) key hash (p ∷ ps) first
            ≡ search w hash_of compare (set slots i s) key hash ps other)
    unfolding slot_at
    past_changed p ps first nu nm = elim (ℕ_discrete i p) [
      | yes e ↦
          let at_i : get_or (set slots i s) i unused ≡ s = get_or-set_self slots i s unused small in
          let at_p : get_or (set slots i s) p unused ≡ s =
            ap (λ t. get_or (set slots i s) t unused) (sym e) ∙ at_i in
          step_past (set slots i s) key hash p ps first (rw at_p u) (rw at_p m)
      | no d ↦
          let at_p = get_or-set_ne slots i p s unused d in
          step_past (set slots i s) key hash p ps first (rw at_p nu) (rw at_p nm)
    ]

    pub search_kept :
        (ps : List ℕ) (first other : Option ℕ)
        → search w hash_of compare slots key hash ps first ≡ some (true, j)
        → search w hash_of compare (set slots i s) key hash ps other ≡ some (true, j)
    unfolding search slot_at Matches
    search_kept [] first other h = absurd (cc h)
    search_kept (p ∷ ps) first other h =
        elim (search_cases w hash_of compare slots key hash p ps first) [
          | inl (e, f) ↦ absurd (cc (sym f ∙ h))
          | inr (inl (e, f)) ↦
              let (other', g) =
                past_changed p ps other (λ x. cc (sym e ∙ x)) (λ mt. cc (sym e ∙ mt.2)) in
              g ∙ search_kept ps (some (or_slot first p)) other' (sym f ∙ h)
          | inr (inr (inl (e, f))) ↦
              let k : some (true, p) ≡ some (true, j) = sym f ∙ h in
              let same : p ≡ j = cc k in
              let at_p = get_or-set_ne slots i p s unused (λ x. ne (x ∙ same)) in
              step_match (set slots i s) key hash p ps other (rw at_p e)
              ∙ ap (λ t. some (true, t)) same
          | inr (inr (inr (h', k, v, e, t, f))) ↦
              let (other', g) =
                past_changed p ps other (λ x. cc (sym e ∙ x)) (rw e (no_match key hash h' k v t)) in
              g ∙ search_kept ps first other' (sym f ∙ h)
        ]

  -- Once a deleted slot is met a search for a new key gives it.
  search_first :
      (slots : List (Slot K V)) (key : K) (hash i x : ℕ) (ps : List ℕ)
      → search w hash_of compare slots key hash ps (some x) ≡ some (false, i)
      → x ≡ i
  unfolding search or_slot
  search_first slots key hash i x [] h = absurd (cc h)
  search_first slots key hash i x (p ∷ ps) h =
      elim (search_cases w hash_of compare slots key hash p ps (some x)) [
        | inl (e, f) ↦ let k : some (false, x) ≡ some (false, i) = sym f ∙ h in cc k
        | inr (inl (e, f)) ↦ search_first slots key hash i x ps (sym f ∙ h)
        | inr (inr (inl (e, f))) ↦ absurd (cc (sym f ∙ h))
        | inr (inr (inr (h', k, v, e, t, f))) ↦ search_first slots key hash i x ps (sym f ∙ h)
      ]

  -- The free slot that a search gives takes the key.
  pub search_filled :
      (slots : List (Slot K V)) (key : K) (hash i : ℕ) (v : V) (ps : List ℕ) (other : Option ℕ)
      → i < length slots
      → compare key key ≡ true
      → search w hash_of compare slots key hash ps none ≡ some (false, i)
      → search w hash_of compare (set slots i (used hash key v)) key hash ps other ≡ some (true, i)
  unfolding search slot_at Matches or_slot
  search_filled slots key hash i v [] other small c h = absurd (cc h)
  search_filled slots key hash i v (p ∷ ps) other small c h =
      let at_i = get_or-set_self slots i (used hash key v) unused small in
      let here = λ (e : p ≡ i).
        let at_p = ap (λ t. get_or (set slots i (used hash key v)) t unused) e ∙ at_i in
        step_match (set slots i (used hash key v)) key hash p ps other (key, v, at_p, c)
        ∙ ap (λ t. some (true, t)) e in
      elim (search_cases w hash_of compare slots key hash p ps none) [
        | inl (e, f) ↦ let k : some (false, p) ≡ some (false, i) = sym f ∙ h in here (cc k)
        | inr (inl (e, f)) ↦
            let k : search w hash_of compare slots key hash ps (some p) ≡ some (false, i) =
              sym f ∙ h in
            here (search_first slots key hash i p ps k)
        | inr (inr (inl (e, f))) ↦ absurd (cc (sym f ∙ h))
        | inr (inr (inr (h', k, v', e, t, f))) ↦
            let k' = sym f ∙ h in
            let apart : i ≢ p = λ x.
              elim (search_free w hash_of compare slots key hash i ps none k') [
                | inl z ↦ cc z
                | inr (inl z) ↦ cc (sym e ∙ ap (λ y. slot_at slots y) (sym x) ∙ z)
                | inr (inr z) ↦ cc (sym e ∙ ap (λ y. slot_at slots y) (sym x) ∙ z)
              ] in
            let at_p = get_or-set_ne slots i p (used hash key v) unused apart in
            let (other', g) =
              step_past (set slots i (used hash key v)) key hash p ps other
                (rw at_p (λ x. cc (sym e ∙ x))) (rw (at_p, e) (no_match key hash h' k v' t)) in
            g ∙ search_filled slots key hash i v ps other' small c k'
      ]

  -- A slot that has the key keeps its place with a new value.
  pub search_updated :
      (slots : List (Slot K V)) (key : K) (hash i : ℕ) (v : V) (ps : List ℕ)
      (first other : Option ℕ)
      → i < length slots
      → compare key key ≡ true
      → search w hash_of compare slots key hash ps first ≡ some (true, i)
      → search w hash_of compare (set slots i (used hash key v)) key hash ps other ≡ some (true, i)
  unfolding search slot_at Matches
  search_updated slots key hash i v [] first other small c h = absurd (cc h)
  search_updated slots key hash i v (p ∷ ps) first other small c h =
      let new = set slots i (used hash key v) in
      let at_i = get_or-set_self slots i (used hash key v) unused small in
      elim (ℕ_discrete i p) [
        | yes e ↦
            let at_p = ap (λ t. get_or new t unused) (sym e) ∙ at_i in
            step_match new key hash p ps other (key, v, at_p, c) ∙ ap (λ t. some (true, t)) (sym e)
        | no d ↦
            let at_p = get_or-set_ne slots i p (used hash key v) unused d in
            elim (search_cases w hash_of compare slots key hash p ps first) [
              | inl (e, f) ↦ absurd (cc (sym f ∙ h))
              | inr (inl (e, f)) ↦
                  let (other', g) =
                    step_past new key hash p ps other (rw at_p (λ x. cc (sym e ∙ x)))
                      (rw at_p (λ mt. cc (sym e ∙ mt.2))) in
                  g
                  ∙ search_updated slots key hash i v ps (some (or_slot first p)) other' small c
                      (sym f ∙ h)
              | inr (inr (inl (e, f))) ↦
                  let k : some (true, p) ≡ some (true, i) = sym f ∙ h in absurd (d (sym (cc k)))
              | inr (inr (inr (h', k, v', e, t, f))) ↦
                  let (other', g) =
                    step_past new key hash p ps other (rw at_p (λ x. cc (sym e ∙ x)))
                      (rw (at_p, e) (no_match key hash h' k v' t)) in
                  g ∙ search_updated slots key hash i v ps first other' small c (sym f ∙ h)
            ]
      ]
