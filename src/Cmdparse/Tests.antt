-- ===== src/Cmdparse/Tests.antt =====
-- cmdparse.c: lines at concrete values. `isspace` of the "C" locale is true of 32 and of 9 to 13.
use chrony.Common.{ℕ, Bool, false, ◌||◌, ◌&&◌, [], ◌∷◌, ◌≡◌, ◌==◌, leb, refl}
use chrony.Cmdparse.{
  normalize_from, strip_space, normalize_line, is_comment, split_word, skip_space, take_word,
}
use chrony.Cmdparse.Normal.{join, has_space, begins_with_space, split_word-join}

abbrev is_c_space : ℕ → Bool
is_c_space c = c == 32 || (leb 9 c && leb c 13)

-- " a\t\tb\n" becomes "a b", and "#a" the empty line.
normalize_line_lem :
    (normalize_line is_c_space (32 ∷ 97 ∷ 9 ∷ 9 ∷ 98 ∷ 10 ∷ []) ≡ 97 ∷ 32 ∷ 98 ∷ [])
    × (normalize_line is_c_space (35 ∷ 97 ∷ []) ≡ [])
unfolding normalize_line normalize_from strip_space is_comment
normalize_line_lem = (refl, refl)

-- "ab c" splits into "ab" and "c".
split_word_lem : split_word is_c_space (97 ∷ 98 ∷ 32 ∷ 99 ∷ []) ≡ (97 ∷ 98 ∷ [], 99 ∷ [])
unfolding split_word skip_space take_word
split_word_lem = refl

split_word-join_example :
    (let line = normalize_line is_c_space (32 ∷ 97 ∷ 9 ∷ 9 ∷ 98 ∷ 10 ∷ []) in
      (join ((split_word is_c_space line).0) ((split_word is_c_space line).1) ≡ line)
      × (has_space is_c_space ((split_word is_c_space line).0) ≡ false)
      × (begins_with_space is_c_space ((split_word is_c_space line).1) ≡ false))
split_word-join_example = split_word-join is_c_space refl (32 ∷ 97 ∷ 9 ∷ 9 ∷ 98 ∷ 10 ∷ [])
