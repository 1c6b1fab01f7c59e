-- ===== src/Keys/Tests.antt =====
-- keys.c: a table of two keys, with a search that goes through it from the front.
use chrony.Common.{
  true, ℕ, suc, false, Option, none, some, List, [], ◌∷◌, if◌then◌else◌, ◌==◌, ◌≡◌, refl, arith,
  inl, inr, Bool-cases, Option-cases, ◌>>=◌, subst,
}
use chrony.Keys.{
  Key, ntp_mac, cmac, Table, reload, get_key, lookup_key, get_key_by_id, check_key_length,
  get_key_info,
}
use chrony.Keys.Lookup.{
  IsSorted, has_id, Finds, Searches, IsValid, Answers, reload-IsValid, get_key_by_id-Answers,
}

abbrev linear_search : ℕ → List Key → Option ℕ
linear_search id [] = none
linear_search id (k ∷ ks) =
    let rest = linear_search id ks in
    if k.id == id then some 0 else (rest >>= λ position. some (suc position))

linear_search_lem : (id : ℕ) (keys : List Key) → Finds id keys (linear_search id keys)
unfolding Finds
linear_search_lem id [] = refl
linear_search_lem id (k ∷ ks) = elim (Bool-cases (k.id == id)) [
  | inl t ↦ let same : k.id ≡ id = ground arith in rw t (k, refl, same)
  | inr f ↦ elim (Option-cases (linear_search id ks)) [
    | inl n ↦
        let gone : has_id id ks ≡ false = subst (Finds id ks) n (linear_search_lem id ks) in
        let none_of : has_id id (k ∷ ks) ≡ false = ground (arith, f, gone) in rw (f, n) none_of
    | inr (p, n) ↦
        let (l, at, named) = subst (Finds id ks) n (linear_search_lem id ks) in
        rw (f, n) (l, at, named)
  ]
]

linear_search-Searches : Searches linear_search
unfolding Searches
linear_search-Searches = λ id keys sorted. linear_search_lem id keys

abbrev sorted_keys : List Key
sorted_keys =
    record { id = 3; type = 1; length = 16; class = ntp_mac }
    ∷ record { id = 9; type = 2; length = 8; class = cmac }
    ∷ []

abbrev old_table : Table
old_table = record { keys = []; cache_valid = true; cache_key_id = 3; cache_key_pos = 7 }

abbrev two_keys : Table
two_keys = reload old_table sorted_keys

sorted_keys-IsSorted : IsSorted sorted_keys
unfolding IsSorted
sorted_keys-IsSorted = (omega arith, tt)

two_keys-IsValid : IsValid two_keys
two_keys-IsValid = reload-IsValid old_table sorted_keys sorted_keys-IsSorted

check_key_length-get_key_info_lem :
    ((check_key_length linear_search two_keys 9).0 ≡ false)
    × ((get_key_info linear_search two_keys 3).0 ≡ some (1, 128))
unfolding check_key_length get_key_info get_key_by_id lookup_key get_key
check_key_length-get_key_info_lem = (refl, refl)

get_key_by_id-Answers_example : Answers 9 two_keys (get_key_by_id linear_search two_keys 9)
get_key_by_id-Answers_example =
    get_key_by_id-Answers linear_search two_keys 9 linear_search-Searches two_keys-IsValid
