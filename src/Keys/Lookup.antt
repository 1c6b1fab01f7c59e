-- ===== src/Keys/Lookup.antt =====
-- keys.c: what is found in the table, with and without the cache.
use chrony.Common.{
  ℕ, zero, suc, ◌≤◌, Bool, true, false, ◌&&◌, Option, none, some, List, [], ◌∷◌, if◌then◌else◌,
  ◌==◌, get_elem?, ◌≡◌, refl, arith, inl, inr, Bool-cases, Option-cases, subst, sym, ◌∙◌,
}
use chrony.Keys.{reload, Key, Table, get_key, lookup_key, get_key_by_id, key_known}

-- The order that `qsort` makes.
unfoldable pub IsSorted : List Key → Type 0
IsSorted [] = Unit
IsSorted (k ∷ []) = Unit
IsSorted (k ∷ l ∷ ls) = (k.id ≤ l.id) × IsSorted (l ∷ ls)

abbrev pub has_id : ℕ → List Key → Bool
has_id id [] = false
has_id id (k ∷ ks) = if k.id == id then true else has_id id ks

-- A position of a key with the number, or none if no key has it.
unfoldable pub Finds : ℕ → List Key → Option ℕ → Type 0
Finds id keys none = has_id id keys ≡ false
Finds id keys (some position) = (k : Key) × (get_elem? keys position ≡ some k) × (k.id ≡ id)

-- What the C library documents of `bsearch` on a sorted table.
unfoldable pub Searches : (ℕ → List Key → Option ℕ) → Type 0
Searches bsearch = (id : ℕ) (keys : List Key) → IsSorted keys → Finds id keys (bsearch id keys)

-- The table is sorted, and a valid cache holds the position of the key.
unfoldable pub IsValid : Table → Type 0
IsValid t =
    IsSorted t.keys
    × (if t.cache_valid then Finds t.cache_key_id t.keys (some t.cache_key_pos) else Unit)

-- Reloading makes a table valid whatever the cache held.
pub reload-IsValid : (t : Table) (keys : List Key) → IsSorted keys → IsValid (reload t keys)
unfolding IsValid
reload-IsValid t keys sorted = (sorted, tt)

-- What `get_key_by_id` is to return: a key of the table with the number, or NULL if none has it.
unfoldable pub Found : ℕ → List Key → Option Key → Type 0
Found id keys none = has_id id keys ≡ false
Found id keys (some k) = (position : ℕ) × (get_elem? keys position ≡ some k) × (k.id ≡ id)

-- An answer for the number, with a valid table of the same keys.
unfoldable pub Answers : ℕ → Table → Option Key × Table → Type 0
Answers key_id t (key, t') = Found key_id t.keys key × IsValid t' × (t'.keys ≡ t.keys)

-- With a `bsearch` that does what is documented, `get_key_by_id` on a valid table returns a key of
-- the table with the number, or NULL if none has it, whether the cache serves it or not. It keeps
-- the table valid and the keys as they are.
pub get_key_by_id-Answers :
    (bsearch : ℕ → List Key → Option ℕ) (t : Table) (key_id : ℕ)
    → Searches bsearch
    → IsValid t
    → Answers key_id t (get_key_by_id bsearch t key_id)
unfolding get_key_by_id get_key lookup_key Searches IsValid Found Finds Answers
get_key_by_id-Answers bsearch t key_id s (sorted, cached) =
    elim (Bool-cases (t.cache_valid && key_id == t.cache_key_id)) [
      | inl hit ↦
          let valid : t.cache_valid ≡ true = ground (arith, hit) in
          let same : t.cache_key_id ≡ key_id = ground (arith, hit) in
          let (k, at, named) =
            subst (λ b. if b then Finds t.cache_key_id t.keys (some t.cache_key_pos) else Unit)
              valid cached in
          let e : get_key_by_id bsearch t key_id ≡ (some k, t) = rw (hit, at) in
          subst (Answers key_id t) (sym e)
            ((t.cache_key_pos, at, named ∙ same), (sorted, cached), refl)
      | inr miss ↦
          let found = s key_id t.keys sorted in
          elim (Option-cases (bsearch key_id t.keys)) [
            | inl n ↦
                let e : get_key_by_id bsearch t key_id ≡ (none, t) = rw (miss, n) in
                subst (Answers key_id t) (sym e)
                  (subst (Finds key_id t.keys) n found, (sorted, cached), refl)
            | inr (p, n) ↦
                let (k, at, named) = subst (Finds key_id t.keys) n found in
                let e : get_key_by_id bsearch t key_id ≡ (
                  some k,
                  record t { cache_valid = true; cache_key_pos = p; cache_key_id = key_id },
                ) =
                  rw (miss, n, at) in
                subst (Answers key_id t) (sym e) ((p, at, named), (sorted, (k, at, named)), refl)
          ]
    ]

get_elem?-has_id :
    (ks : List Key) (position : ℕ) (k : Key)
    → get_elem? ks position ≡ some k
    → has_id k.id ks ≡ true
get_elem?-has_id [] position k h = absurd (ground (arith, h))
get_elem?-has_id (l ∷ ls) zero k h =
    let same : l ≡ k = ground (arith, h) in
    subst (λ x. has_id x.id (l ∷ ls) ≡ true) same (ground arith)
get_elem?-has_id (l ∷ ls) (suc position) k h = ground (arith, get_elem?-has_id ls position k h)

-- With a `bsearch` that does what is documented, `KEY_KeyKnown` on a valid table tells whether a key
-- of the table has the number.
key_known-has_id :
    (bsearch : ℕ → List Key → Option ℕ) (t : Table) (key_id : ℕ)
    → Searches bsearch
    → IsValid t
    → (key_known bsearch t key_id).0 ≡ has_id key_id t.keys
unfolding key_known Answers Found
key_known-has_id bsearch t key_id s v =
    by_answer (get_key_by_id bsearch t key_id) refl (get_key_by_id-Answers bsearch t key_id s v)
  where
    by_answer :
        (r : Option Key × Table)
        → get_key_by_id bsearch t key_id ≡ r
        → Answers key_id t r
        → (key_known bsearch t key_id).0 ≡ has_id key_id t.keys
    by_answer (none, t') e (f, w, kept) = rw (e, key_known) (sym f)
    by_answer (some k, t') e ((position, at, named), w, kept) =
        rw (e, key_known)
          (sym (subst (λ i. has_id i t.keys ≡ true) named (get_elem?-has_id t.keys position k at)))
