-- ===== src/Cmdparse/Normal.antt =====
-- cmdparse.c: normal lines.
use chrony.Common.{
  ℕ, Bool, true, false, not, ◌&&◌, ◌||◌, List, [], ◌∷◌, if◌then◌else◌, ◌==◌, ◌≡◌, inl, inr, refl,
  ap, sym, subst, arith, Bool-cases, ◌∙◌, ◌++◌,
}
use chrony.Cmdparse.{
  space_char, is_comment, normalize_from, strip_space, normalize_line, skip_space, take_word,
  split_word,
}

-- The word and the rest of a line with one space between them.
abbrev pub join : List ℕ → List ℕ → List ℕ
join word [] = word
join word (c ∷ cs) = word ++ (space_char ∷ c ∷ cs)

join-cons : (c : ℕ) (word rest : List ℕ) → join (c ∷ word) rest ≡ c ∷ join word rest
join-cons c word [] = refl
join-cons c word (d ∷ ds) = refl

module _ (is_space : ℕ → Bool) where
  -- Whether the loop copies all characters: spaces are single and no comment begins.
  abbrev is_clean : Bool → Bool → List ℕ → Bool
  is_clean space first [] = true
  is_clean space first (c ∷ cs) =
      let s = is_space c in
      let rest = is_clean s (s && first) cs in
      (if s then not space && c == space_char else not (first && is_comment c)) && rest

  normalize_from-is_clean :
      is_space space_char ≡ true
      → (space first : Bool) (line : List ℕ)
      → is_clean space first (normalize_from is_space space first line) ≡ true
  unfolding normalize_from
  normalize_from-is_clean h space first [] = refl
  normalize_from-is_clean h space first (c ∷ cs) = elim (Bool-cases (is_space c)) [
    | inl t ↦ let rest = normalize_from-is_clean h true first cs in ground (arith, rest)
    | inr f ↦ let rest = normalize_from-is_clean h false false cs in ground (arith, rest)
  ]

  clean-normalize_from :
      (space first : Bool) (line : List ℕ)
      → is_clean space first line ≡ true
      → normalize_from is_space space first line ≡ line
  unfolding normalize_from
  clean-normalize_from space first [] k = refl
  clean-normalize_from space first (c ∷ cs) k =
      ground (arith, clean-normalize_from (is_space c) (is_space c && first) cs)

  strip_space-is_clean :
      (space first : Bool) (line : List ℕ)
      → is_clean space first line ≡ true
      → is_clean space first (strip_space line) ≡ true
  unfolding strip_space
  strip_space-is_clean space first [] k = refl
  strip_space-is_clean space first (c ∷ []) k = ground (arith, k)
  strip_space-is_clean space first (c ∷ d ∷ cs) k =
      let s = is_space c in ground (arith, k, strip_space-is_clean s (s && first) (d ∷ cs))

  space_char-is_space :
      (c : ℕ) → is_space space_char ≡ true → (c == space_char) ≡ true → is_space c ≡ true
  space_char-is_space c h t =
      let e : space_char ≡ c = ground arith in subst (λ x. is_space x ≡ true) e h

  strip_space_idem :
      is_space space_char ≡ true
      → (space first : Bool) (line : List ℕ) → is_clean space first line ≡ true
      → strip_space (strip_space line) ≡ strip_space line
  unfolding strip_space
  strip_space_idem h space first [] k = refl
  strip_space_idem h space first (c ∷ []) k = ground (arith, k)
  strip_space_idem h space first (c ∷ d ∷ []) k = elim (Bool-cases (d == space_char)) [
    | inr f ↦ rw f (rw f)
    | inl t ↦
        let blank : is_space d ≡ true = space_char-is_space d h t in
        let letter : is_space c ≡ false = ground (arith, k, blank) in
        let other : (c == space_char) ≡ false = elim (Bool-cases (c == space_char)) [
          | inr f ↦ f
          | inl u ↦ ground (arith, space_char-is_space c h u)
        ] in
        rw (t, other)
  ]
  strip_space_idem h space first (c ∷ d ∷ e ∷ es) k =
      let s = is_space c in
      let tail : is_clean s (s && first) (d ∷ e ∷ es) ≡ true = ground (arith, k) in
      ap (λ l. c ∷ l) (strip_space_idem h s (s && first) (d ∷ e ∷ es) tail)

  -- With an `isspace` that is true of ' ', normalising a line twice gives what normalising it once
  -- gives.
  normalize_line_idem :
      is_space space_char ≡ true
      → (line : List ℕ)
      → normalize_line is_space (normalize_line is_space line) ≡ normalize_line is_space line
  unfolding normalize_line
  normalize_line_idem h line =
      let clean = normalize_from-is_clean h true true line in
      let once = normalize_from is_space true true line in
      ap strip_space (
        clean-normalize_from true true (strip_space once)
          (strip_space-is_clean true true once clean))
      ∙ strip_space_idem h true true once clean

  -- After a space, or at the beginning, there is no space in a clean line.
  skip_space-clean :
      (first : Bool) (line : List ℕ)
      → is_clean true first line ≡ true
      → skip_space is_space line ≡ line
  unfolding skip_space
  skip_space-clean first [] k = refl
  skip_space-clean first (c ∷ cs) k = ground (arith, k)

  tail_of : List ℕ → List ℕ
  tail_of [] = []
  tail_of (c ∷ cs) = cs

  strip_space-tail : (c : ℕ) (cs : List ℕ) → strip_space (c ∷ cs) ≡ c ∷ cs → strip_space cs ≡ cs
  unfolding strip_space tail_of
  strip_space-tail c [] k = refl
  strip_space-tail c (d ∷ ds) k = ap tail_of k

  space-join :
      (space first : Bool) (c : ℕ) (cs : List ℕ)
      → is_space c ≡ true
      → is_clean space first (c ∷ cs) ≡ true
      → strip_space (c ∷ cs) ≡ c ∷ cs
      → join [] (skip_space is_space (c ∷ cs)) ≡ c ∷ cs
  unfolding skip_space strip_space
  space-join space first c [] t k l = ground (arith, k, l)
  space-join space first c (d ∷ ds) t k l =
      let blank : c ≡ space_char = ground (arith, k) in
      let rest : is_clean true first (d ∷ ds) ≡ true = ground (arith, k) in
      rw (t, skip_space-clean first (d ∷ ds) rest) (ap (λ x. x ∷ d ∷ ds) (sym blank))

  take_word-join :
      (space first : Bool) (line : List ℕ)
      → is_clean space first line ≡ true
      → strip_space line ≡ line
      → join ((take_word is_space line).0) (skip_space is_space ((take_word is_space line).1))
        ≡ line
  unfolding take_word skip_space
  take_word-join space first [] k l = refl
  take_word-join space first (c ∷ cs) k l = elim (Bool-cases (is_space c)) [
    | inl t ↦ rw t (space-join space first c cs t k l)
    | inr f ↦
        let rest : is_clean false false cs ≡ true = ground (arith, k) in
        rw
          (
            f,
            join-cons c ((take_word is_space cs).0)
                (skip_space is_space ((take_word is_space cs).1)),
          )
          (ap (λ l. c ∷ l) (take_word-join false false cs rest (strip_space-tail c cs l)))
  ]

  -- Some character of a text is a space.
  abbrev pub has_space : List ℕ → Bool
  has_space [] = false
  has_space (c ∷ cs) = is_space c || has_space cs

  abbrev pub begins_with_space : List ℕ → Bool
  begins_with_space [] = false
  begins_with_space (c ∷ cs) = is_space c

  take_word-has_space : (line : List ℕ) → has_space ((take_word is_space line).0) ≡ false
  unfolding take_word
  take_word-has_space [] = refl
  take_word-has_space (c ∷ cs) = elim (Bool-cases (is_space c)) [
    | inl t ↦ rw t refl
    | inr f ↦ rw f (rw f (take_word-has_space cs))
  ]

  skip_space-begins_with_space :
      (line : List ℕ) → begins_with_space (skip_space is_space line) ≡ false
  unfolding skip_space
  skip_space-begins_with_space [] = refl
  skip_space-begins_with_space (c ∷ cs) = elim (Bool-cases (is_space c)) [
    | inl t ↦ rw t (skip_space-begins_with_space cs)
    | inr f ↦ rw f f
  ]

  -- With an `isspace` that is true of ' ', `CPS_SplitWord` takes a normalised line apart at its first
  -- space: the word and the rest are the line again, with a space between them if there is a rest,
  -- the word has no space in it, and the rest does not begin with one.
  pub split_word-join :
      is_space space_char ≡ true
      → (text : List ℕ)
      → (let line = normalize_line is_space text in
          (join ((split_word is_space line).0) ((split_word is_space line).1) ≡ line)
          × (has_space ((split_word is_space line).0) ≡ false)
          × (begins_with_space ((split_word is_space line).1) ≡ false))
  unfolding normalize_line split_word
  split_word-join h text =
      let once = normalize_from is_space true true text in
      let clean = normalize_from-is_clean h true true text in
      let line = strip_space once in
      let clean' = strip_space-is_clean true true once clean in
      (
        rw (skip_space-clean true line clean')
            (take_word-join true true line clean' (strip_space_idem h true true once clean)),
        take_word-has_space (skip_space is_space line),
        skip_space-begins_with_space ((take_word is_space (skip_space is_space line)).1),
      )
