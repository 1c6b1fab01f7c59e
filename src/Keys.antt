-- ===== src/Keys.antt =====
-- keys.c: the table of symmetric keys and its cache of the last one found.
--
-- `bsearch` of the C library is an argument: the position of a key with the number in a table that is
-- sorted by the numbers.
pub mod Lookup
mod Tests
use chrony.Common.{
  ℕ, ◌*◌, ◌≤◌, Bool, true, false, ◌&&◌, Option, none, some, List, [], ◌∷◌, if◌then◌else◌, leb, ◌==◌,
  get_elem?,
}

pub data KeyClass : Type 0 where
  ntp_mac cmac : KeyClass

-- `Key` without the secret and its hash function.
pub record Key : Type 0 where
  pub id : ℕ
  pub type : ℕ
  pub length : ℕ
  pub class : KeyClass

pub record Table : Type 0 where
  pub keys : List Key
  pub cache_valid : Bool
  pub cache_key_id : ℕ
  pub cache_key_pos : ℕ

abbrev pub min_secure_key_length : ℕ
min_secure_key_length = 10

-- `KEY_Reload` with the keys that it has read and sorted: the cache is dropped.
abbrev pub reload : Table → List Key → Table
reload t keys = record t { keys = keys; cache_valid = false }

-- `none` is a pointer outside the table.
pub get_key : Table → ℕ → Option Key
get_key t index = get_elem? t.keys index

module _ (bsearch : ℕ → List Key → Option ℕ) where
  -- `none` is -1.
  pub lookup_key : Table → ℕ → Option ℕ
  lookup_key t id = bsearch id t.keys

  -- `none` is NULL, or a pointer outside the table.
  pub get_key_by_id : Table → ℕ → Option Key × Table
  get_key_by_id t key_id =
      if t.cache_valid && key_id == t.cache_key_id
      then (get_key t t.cache_key_pos, t)
      else elim (lookup_key t key_id) [
        | none ↦ (none, t)
        | some position ↦ (
          get_key t position,
          record t { cache_valid = true; cache_key_pos = position; cache_key_id = key_id },
        )
      ]

  pub key_known : Table → ℕ → Bool × Table
  key_known t key_id =
      let r = get_key_by_id t key_id in elim r.0 [ none ↦ (false, r.1) | some key ↦ (true, r.1) ]

  pub check_key_length : Table → ℕ → Bool × Table
  check_key_length t key_id =
      let r = get_key_by_id t key_id in
      elim r.0 [ none ↦ (false, r.1) | some key ↦ (leb min_secure_key_length key.length, r.1) ]

  -- `*type` and `*bits`, or `none` for 0.
  pub get_key_info : Table → ℕ → Option (ℕ × ℕ) × Table
  get_key_info t key_id =
      let r = get_key_by_id t key_id in
      elim r.0 [ none ↦ (none, r.1) | some key ↦ (some (key.type, 8 * key.length), r.1) ]
