-- ===== src/Enums/Adding.antt =====
-- Entries added to the sets of server/enums.c: the set stays sorted, its names stay apart, and the
-- table has what the set has.
use pand_ablocks_server.Prelude.{
  ℕ, zero, suc, ◌<◌, ◌≡◌, ◌≢◌, refl, sym, ap, ◌∙◌, arith, true, false, List, [], ◌∷◌, ◌++◌, Option,
  none, some, ◌==◌, if◌then◌else◌, length, take, drop, All, Bool-cases, inl, inr, ◌⊎◌,
}
use pand_ablocks_server.Enums.{
  Entry, NameTable, same_name, is_named, value_at, linear_search, insert_new, insert_entries,
}
use pand_ablocks_server.Enums.Search.{Sorted, IsLowerBound, find_name}

abbrev pub entry_of : List ℕ → ℕ → Entry
entry_of name value = record { name = some name; value = value }

pub same_name_eq : (a b : List ℕ) → same_name a b ≡ true → a ≡ b
unfolding same_name
same_name_eq [] [] h = refl
same_name_eq [] (b ∷ t) h = cc h
same_name_eq (a ∷ s) [] h = cc h
same_name_eq (a ∷ s) (b ∷ t) h =
    let e : a ≡ b = ground (arith, h) in
    let f : same_name s t ≡ true = ground (arith, h) in let g = same_name_eq s t f in rw (e, g) refl

pub same_name_refl : (a : List ℕ) → same_name a a ≡ true
unfolding same_name
same_name_refl [] = refl
same_name_refl (a ∷ s) = let e : (a == a) ≡ true = ground arith in rw (e, same_name_refl s) refl

pub same_name_ne : (a b : List ℕ) → same_name a b ≡ false → a ≢ b
same_name_ne a b h e = cc (sym (same_name_refl a) ∙ ap (same_name a) e ∙ h)

-- Every entry has a name, which no later entry has.
abbrev pub Named : List Entry → Type 0
Named [] = Unit
Named (entry ∷ es) =
    ((name : List ℕ) × (entry.name ≡ some name) × (linear_search es name ≡ none)) × Named es

-- A new entry among the others.
abbrev pub with_entry : ℕ → Entry → List Entry → List Entry
with_entry ix entry es = take ix es ++ (entry ∷ drop ix es)

All-with_entry :
    (P : Entry → Type 0) (ix : ℕ) (entry : Entry) (es : List Entry)
    → P entry
    → All P es
    → All P (with_entry ix entry es)
All-with_entry P zero entry es p a = (p, a)
All-with_entry P (suc ix) entry [] p a = (p, tt)
All-with_entry P (suc ix) entry (x ∷ es) p (q, a) = (q, All-with_entry P ix entry es p a)

All-trans :
    (low high : ℕ) (es : List Entry)
    → low < high
    → All (λ e. high < e.value) es
    → All (λ e. low < e.value) es
All-trans low high [] h a = tt
All-trans low high (x ∷ es) h (p, a) = (omega arith, All-trans low high es h a)

pub with_entry-Sorted :
    (ix : ℕ) (name : List ℕ) (value : ℕ) (es : List Entry)
    → Sorted es
    → IsLowerBound es value ix
    → ((ix ≡ length es) ⊎ (value < value_at es ix))
    → Sorted (with_entry ix (entry_of name value) es)
with_entry-Sorted zero name value [] s b more = (tt, tt)
with_entry-Sorted zero name value (x ∷ es) (a, s) b more =
    let l : value < x.value = elim more [ inl e ↦ absurd (omega arith) | inr l ↦ l ] in
    ((l, All-trans value x.value es l a), (a, s))
with_entry-Sorted (suc ix) name value [] s b more = (tt, tt)
with_entry-Sorted (suc ix) name value (x ∷ es) (a, s) b more =
    let l : x.value < value = b.below 0 (omega arith) in
    let b' : IsLowerBound es value ix = record {
      inside = (let i = b.inside in omega arith);
      below = λ i h. b.below (suc i) (omega arith);
      above = λ i h k. b.above (suc i) (omega arith) (omega arith);
    } in
    let more' : (ix ≡ length es) ⊎ (value < value_at es ix) = elim more [
      | inl e ↦ inl (omega arith)
      | inr l ↦ inr l
    ] in
    (
      All-with_entry (λ e. x.value < e.value) ix (entry_of name value) es l a,
      with_entry-Sorted ix name value es s b' more',
    )

fresh_inv :
    (x : Entry) (es : List Entry) (name : List ℕ)
    → linear_search (x ∷ es) name ≡ none
    → (is_named x name ≡ false) × (linear_search es name ≡ none)
unfolding linear_search
fresh_inv x es name h = elim (Bool-cases (is_named x name)) [
  | inl t ↦ absurd (cc (rw t at h))
  | inr t ↦ (t, rw t at h)
]

-- A name that an entry does not have is no name that it has.
named_apart :
    (x : Entry) (name n : List ℕ)
    → is_named x name ≡ false
    → is_named x n ≡ true
    → same_name name n ≡ false
named_apart x name n f t = elim (Bool-cases (same_name name n)) [
  | inl e ↦ absurd (cc (sym f ∙ ap (is_named x) (same_name_eq name n e) ∙ t))
  | inr e ↦ e
]

-- What a search finds with one entry more.
pub linear_search-with_entry :
    (ix : ℕ) (name : List ℕ) (value : ℕ) (es : List Entry)
    → linear_search es name ≡ none
    → (n : List ℕ)
    → linear_search (with_entry ix (entry_of name value) es) n
      ≡ (if same_name name n then some value else linear_search es n)
unfolding linear_search is_named
linear_search-with_entry zero name value es fresh n = refl
linear_search-with_entry (suc ix) name value [] fresh n = refl
linear_search-with_entry (suc ix) name value (x ∷ es) fresh n =
    let (f, g) = fresh_inv x es name fresh in
    elim (Bool-cases (is_named x n)) [
      | inl t ↦ rw (t, named_apart x name n f t) refl
      | inr t ↦ rw t (linear_search-with_entry ix name value es g n)
    ]

is_named-some : (x : Entry) (m n : List ℕ) → x.name ≡ some m → is_named x n ≡ same_name m n
unfolding is_named
is_named-some x m n e = rw e refl

pub with_entry-Named :
    (ix : ℕ) (name : List ℕ) (value : ℕ) (es : List Entry)
    → Named es
    → linear_search es name ≡ none
    → Named (with_entry ix (entry_of name value) es)
with_entry-Named zero name value es d fresh = ((name, refl, fresh), d)
with_entry-Named (suc ix) name value [] d fresh = ((name, refl, fresh), tt)
with_entry-Named (suc ix) name value (x ∷ es) ((m, e, l), d) fresh =
    let (f, g) = fresh_inv x es name fresh in
    let apart = named_apart x name m f (is_named-some x m m e ∙ same_name_refl m) in
    (
      (m, e, linear_search-with_entry ix name value es g m ∙ rw apart l),
      with_entry-Named ix name value es d g,
    )

abbrev pub or_else : Option ℕ → Option ℕ → Option ℕ
or_else (some v) o = some v
or_else none o = o

module _ {T : Type 0} (table : NameTable T) where
  pub insert_entries-lookup :
      (es : List Entry) (t : T)
      → Named es
      → ((n : List ℕ) (v : ℕ) → linear_search es n ≡ some v → table.lookup t n ≡ none)
      → (t' : T) × (insert_entries table (some t) es ≡ some t')
        × ((n : List ℕ) → table.lookup t' n ≡ or_else (linear_search es n) (table.lookup t n))
  unfolding insert_entries insert_new linear_search
  insert_entries-lookup [] t d apart = (t, refl, λ n. refl)
  insert_entries-lookup (x ∷ es) t ((m, e, l), d) apart =
      let t1 = table.insert t m x.value in
      let self : is_named x m ≡ true = is_named-some x m m e ∙ same_name_refl m in
      let free : table.lookup t m ≡ none = apart m x.value (rw self refl) in
      let apart' : (n : List ℕ) (v : ℕ) → linear_search es n ≡ some v → table.lookup t1 n ≡ none =
        λ n v h. elim (Bool-cases (is_named x n)) [
          | inl q ↦
              (let k : m ≡ n = same_name_eq m n (sym (is_named-some x m n e) ∙ q) in
                absurd (cc (sym l ∙ ap (linear_search es) k ∙ h)))
          | inr q ↦
              let k : m ≢ n = same_name_ne m n (sym (is_named-some x m n e) ∙ q) in
              table.lookup-insert_ne t m n x.value k ∙ apart n v (rw q h)
        ] in
      let (t', f, g) = insert_entries-lookup es t1 d apart' in
      (
        t',
        rw (e, insert_new, free) f,
        λ n. elim (Bool-cases (is_named x n)) [
          | inl q ↦
              let k : m ≡ n = same_name_eq m n (sym (is_named-some x m n e) ∙ q) in
              let r : table.lookup t' m ≡ some x.value =
                g m ∙ rw l (table.lookup-insert_self t m x.value) in
              rw q (ap (table.lookup t') (sym k) ∙ r)
          | inr q ↦
              let k : m ≢ n = same_name_ne m n (sym (is_named-some x m n e) ∙ q) in
              rw q
                (g n ∙ ap (or_else (linear_search es n)) (table.lookup-insert_ne t m n x.value k))
        ],
      )

pub find_name-with_entry :
    (ix : ℕ) (name : List ℕ) (value : ℕ) (es : List Entry)
    → ((i : ℕ) → i < length es → value_at es i ≢ value)
    → (v : ℕ)
    → find_name (with_entry ix (entry_of name value) es) v
      ≡ (if value == v then some name else find_name es v)
unfolding find_name
find_name-with_entry zero name value es fresh v = refl
find_name-with_entry (suc ix) name value [] fresh v = refl
find_name-with_entry (suc ix) name value (x ∷ es) fresh v =
    let n : x.value ≢ value = fresh 0 (omega arith) in
    let ih = find_name-with_entry ix name value es (λ i h. fresh (suc i) (omega arith)) v in
    elim (Bool-cases (x.value == v)) [
      | inl t ↦ (let f : (value == v) ≡ false = ground (arith, t) in rw (t, f) refl)
      | inr t ↦ rw t ih
    ]
