-- ===== src/Cmdparse.antt =====
-- cmdparse.c: the lines of the configuration and of commands, as lists of characters before the NUL.
pub mod Normal
mod Tests
use chrony.Common.{ℕ, Bool, true, false, not, ◌&&◌, ◌||◌, List, [], ◌∷◌, if◌then◌else◌, ◌==◌}

abbrev pub space_char : ℕ
space_char = 32

-- `strchr("!;#%", c)` for a character that is not NUL.
pub is_comment : ℕ → Bool
is_comment c = c == 33 || c == 59 || c == 35 || c == 37

-- A trailing space is stripped.
pub strip_space : List ℕ → List ℕ
strip_space [] = []
strip_space (c ∷ []) = if c == space_char then [] else c ∷ []
strip_space (c ∷ d ∷ cs) = c ∷ strip_space (d ∷ cs)

-- `isspace` of the C library is an argument.
module _ (is_space : ℕ → Bool) where
  -- The loop of `CPS_NormalizeLine`, with `space` and `first`. A space leaves `first` as it is.
  pub normalize_from : Bool → Bool → List ℕ → List ℕ
  normalize_from space first [] = []
  normalize_from space first (c ∷ cs) =
      let s = is_space c in
      let rest = normalize_from s (s && first) cs in
      if s
      then (if space then rest else space_char ∷ rest)
      else (if first && is_comment c then [] else c ∷ rest)

  pub normalize_line : List ℕ → List ℕ
  normalize_line line = strip_space (normalize_from true true line)

  -- `while (*q && isspace(*q)) q++`
  pub skip_space : List ℕ → List ℕ
  skip_space [] = []
  skip_space (c ∷ cs) = let rest = skip_space cs in if is_space c then rest else c ∷ cs

  -- The word at the front, and what is behind it.
  pub take_word : List ℕ → List ℕ × List ℕ
  take_word [] = ([], [])
  take_word (c ∷ cs) =
      let rest = take_word cs in if is_space c then ([], c ∷ cs) else (c ∷ rest.0, rest.1)

  -- `CPS_SplitWord`: the word that is moved to the beginning of the line, and the next word.
  pub split_word : List ℕ → List ℕ × List ℕ
  split_word line = let word = take_word (skip_space line) in (word.0, skip_space word.1)
