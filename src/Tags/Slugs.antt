-- ===== src/Tags/Slugs.antt =====
-- Generated slugs are slugs.
use aca_social.Base.{
  ℕ, ◌≡◌, ◌⊎◌, inl, inr, refl, Bool, true, false, not, ◌&&◌, List, [], ◌∷◌, ◌==◌, arith,
  if◌then◌else◌, Bool-cases,
}
use aca_social.Tags.Admin.{
  is_slug_char, starts_dash, dash_runs, trim_start, trim_end, is_nil, slug_of, matches, is_slug,
}

-- Characters of slugs and dashes, no two dashes in a row.
unfoldable is_dashed : List ℕ → Bool
is_dashed [] = true
is_dashed (c ∷ cs) =
    let rest = is_dashed cs in
    if is_slug_char c then rest else (c == 45) && (not (starts_dash cs) && rest)

dash_runs-is_dashed : (cs : List ℕ) → is_dashed (dash_runs cs) ≡ true
unfolding is_dashed dash_runs
dash_runs-is_dashed [] = refl
dash_runs-is_dashed (c ∷ cs) = ground (arith, dash_runs-is_dashed cs)

abbrev starts_char : List ℕ → Bool
starts_char [] = false
starts_char (c ∷ cs) = is_slug_char c

trim_end-matches :
    (cs : List ℕ)
    → is_dashed cs ≡ true
    → (matches false (trim_end cs) ≡ true)
      × (starts_char cs ≡ true → matches true (trim_end cs) ≡ true)
unfolding is_dashed trim_end matches
trim_end-matches [] h = (refl, λ e. absurd (cc))
trim_end-matches (c ∷ cs) h = elim (Bool-cases (is_slug_char c)) [
  | inl char ↦
      let (inside, _) = trim_end-matches cs (rw char at h) in
      let no_dash : (c == 45) ≡ false = ground arith in
      (
        kept c (trim_end cs) char no_dash inside,
        λ _. kept_start c (trim_end cs) char no_dash inside,
      )
  | inr other ↦
      let dash : (c == 45) ≡ true = ground arith in
      let tail : is_dashed cs ≡ true = ground arith in
      let alone : starts_dash cs ≡ false = ground arith in
      let (_, next) = trim_end-matches cs tail in
      (
        dashed c cs (trim_end cs) other dash (follows cs tail alone next),
        λ e. absurd (cc (other, e)),
      )
]
  where
    kept :
        (c : ℕ) (t : List ℕ)
        → is_slug_char c ≡ true
        → (c == 45) ≡ false
        → matches false t ≡ true
        → matches false (if is_nil t && (c == 45) then [] else c ∷ t) ≡ true
    kept c [] char no_dash inside = ground arith
    kept c (d ∷ t) char no_dash inside = ground arith

    kept_start :
        (c : ℕ) (t : List ℕ)
        → is_slug_char c ≡ true
        → (c == 45) ≡ false
        → matches false t ≡ true
        → matches true (if is_nil t && (c == 45) then [] else c ∷ t) ≡ true
    kept_start c [] char no_dash inside = ground arith
    kept_start c (d ∷ t) char no_dash inside = ground arith

    follows :
        (cs : List ℕ)
        → is_dashed cs ≡ true
        → starts_dash cs ≡ false
        → (starts_char cs ≡ true → matches true (trim_end cs) ≡ true)
        → (trim_end cs ≡ []) ⊎ (matches true (trim_end cs) ≡ true)
    follows [] tail alone next = inl refl
    follows (d ∷ ds) tail alone next = inr (next (ground arith))

    dashed :
        (c : ℕ) (cs t : List ℕ)
        → is_slug_char c ≡ false
        → (c == 45) ≡ true
        → (t ≡ []) ⊎ (matches true t ≡ true)
        → matches false (if is_nil t && (c == 45) then [] else c ∷ t) ≡ true
    dashed c cs [] other dash e = ground arith
    dashed c cs (d ∷ t) other dash (inl e) = absurd (cc)
    dashed c cs (d ∷ t) other dash (inr e) = ground arith

trim_start-dashed :
    (cs : List ℕ)
    → is_dashed cs ≡ true
    → (trim_start cs ≡ [])
      ⊎ ((is_dashed (trim_start cs) ≡ true) × (starts_char (trim_start cs) ≡ true))
unfolding is_dashed trim_start
trim_start-dashed [] h = inl refl
trim_start-dashed (c ∷ cs) h = elim (Bool-cases (c == 45)) [
  | inl dash ↦
      let not_char : is_slug_char c ≡ false = ground arith in
      let tail : is_dashed cs ≡ true = ground arith in rw dash (trim_start-dashed cs tail)
  | inr other ↦
      let char : is_slug_char c ≡ true = ground arith in rw (other, char) (inr (rw char at h, refl))
]

-- Whatever the text, its generated slug is empty or has the form of a slug.
pub slug_of-is_slug : (text : List ℕ) → (slug_of text ≡ []) ⊎ (is_slug (slug_of text) ≡ true)
unfolding slug_of trim_end
slug_of-is_slug text = elim (trim_start-dashed (dash_runs text) (dash_runs-is_dashed text)) [
  | inl empty ↦ inl (rw empty nothing_left)
  | inr (dashed, char) ↦ inr ((trim_end-matches _ dashed).1 char)
]
  where
    nothing_left : trim_end [] ≡ []
    nothing_left = refl
