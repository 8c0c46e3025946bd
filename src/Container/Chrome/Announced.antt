-- ===== src/Container/Chrome/Announced.antt =====
-- The address that `start_chrome` returns is what Chrome has announced.
use tzafon_way_point.Prelude.{
  ◌==◌, ◌≡◌, refl, ap, ◌⊎◌, inl, inr, true, false, some, List, [], ◌∷◌, ◌++◌, Text, All, arith,
  Bool-cases,
}
use tzafon_way_point.Gateway.Http.{space, onto_first}
use tzafon_way_point.Container.Chrome.{
  Anyhow, ok, err, starts_with, contains, split, last, parse_url_from_line, announcement, announced,
  start_chrome,
}

abbrev pub Has : Text → Text → Type 0
Has p s = (a : Text) × (b : Text) × (s ≡ a ++ (p ++ b))

prefix_of : (p s : Text) → starts_with p s ≡ true → (b : Text) × (s ≡ p ++ b)
unfolding starts_with
prefix_of [] s h = (s, refl)
prefix_of (a ∷ p) [] h = cc
prefix_of (a ∷ p) (c ∷ s) h =
    let (b, e) = prefix_of p s (ground (arith, h)) in (b, ground (arith, h, e))

starts_with-append : (p b : Text) → starts_with p (p ++ b) ≡ true
unfolding starts_with
starts_with-append [] b = refl
starts_with-append (a ∷ p) b = ground (arith, starts_with-append p b)

found : (p s : Text) → contains p s ≡ true → Has p s
unfolding contains
found p [] h = let (b, e) = prefix_of p [] h in ([], b, e)
found p (c ∷ s) h = elim (Bool-cases (starts_with p (c ∷ s))) [
  | inl here ↦ let (b, e) = prefix_of p (c ∷ s) here in ([], b, e)
  | inr later ↦
      let (a, b, e) = found p s (ground (arith, h, later)) in (c ∷ a, b, ap (λ z. c ∷ z) e)
]

contains-starts : (p s : Text) → starts_with p s ≡ true → contains p s ≡ true
unfolding contains
contains-starts p [] h = h
contains-starts p (c ∷ s) h = ground (arith, h)

contains-append : (p a b : Text) → contains p (a ++ (p ++ b)) ≡ true
unfolding contains
contains-append p (c ∷ a) b = ground (arith, contains-append p a b)
contains-append p [] b = contains-starts p (p ++ b) (starts_with-append p b)

absent : (p s : Text) → contains p s ≡ false → ¬ Has p s
absent p s h (a, b, e) = absurd (ground (arith, h, ap (contains p) e, contains-append p a b))

-- No space stands in a word.
abbrev pub IsWord : Text → Type 0
IsWord = All (λ c. (c == space) ≡ false)

-- A word that ends a line, behind a space or alone.
abbrev pub Ends : Text → Text → Type 0
Ends line word = IsWord word × ((line ≡ word) ⊎ ((p : Text) × (line ≡ p ++ space ∷ word)))

-- How the pieces of a line come about: it is one word, or there are several.
abbrev Pieces : Text → Text → Type 0
Pieces s word =
    ((split space s ≡ word ∷ []) × (s ≡ word))
    ⊎ ((p : Text) × (x : Text) × (y : Text) × (ys : List Text) × (s ≡ p ++ space ∷ word)
        × (split space s ≡ x ∷ y ∷ ys)
        × (last (y ∷ ys) ≡ some word))

split-Pieces : (s : Text) → (word : Text) × IsWord word × Pieces s word
unfolding split last
split-Pieces [] = ([], tt, inl (refl, refl))
split-Pieces (a ∷ s) =
    let (word, free, pieces) = split-Pieces s in
    elim (Bool-cases (a == space)) [
      | inl cut ↦
          let here : a ≡ space = ground (arith, cut) in
          (
            word,
            free,
            inr (elim pieces [
              | inl (q, same) ↦
                  ([], [], word, [], ground (arith, here, same), rw cut (ap (λ z. [] ∷ z) q), refl)
              | inr (p, x, y, ys, same, q, e) ↦
                  (a ∷ p, [], x, y ∷ ys, ap (λ z. a ∷ z) same, rw cut (ap (λ z. [] ∷ z) q), e)
            ]),
          )
      | inr kept ↦ elim pieces [
        | inl (q, same) ↦
            (a ∷ word, (kept, free), inl (rw kept (ap (onto_first a) q), ap (λ z. a ∷ z) same))
        | inr (p, x, y, ys, same, q, e) ↦ (
          word,
          free,
          inr (a ∷ p, a ∷ x, y, ys, ap (λ z. a ∷ z) same, rw kept (ap (onto_first a) q), e),
        )
      ]
    ]

parse_url_from_line-Ends :
    (line : Text) → (url : Text) × (parse_url_from_line line ≡ ok url) × Ends line url
unfolding parse_url_from_line last
parse_url_from_line-Ends line =
    let (word, free, pieces) = split-Pieces line in
    elim pieces [
      | inl (q, same) ↦ (word, rw q refl, (free, inl same))
      | inr (p, x, y, ys, same, q, e) ↦ (word, rw q (rw e refl), (free, inr (p, same)))
    ]

abbrev pub IsSilent : List Text → Type 0
IsSilent = All (λ line. ¬ Has announcement line)

-- The first line that announces the address ends in it; or no line does.
abbrev pub Announced : List Text → Anyhow Text → Type 0
Announced lines (ok url) =
    (before : List Text) × (line : Text) × (after : List Text) × (lines ≡ before ++ line ∷ after)
    × IsSilent before
    × Has announcement line
    × Ends line url
Announced lines (err e) = IsSilent lines

onto :
    (line : Text) (lines : List Text) (r : Anyhow Text)
    → ¬ Has announcement line
    → Announced lines r
    → Announced (line ∷ lines) r
onto line lines (ok url) mute (before, l, after, e, quiet, has, ends) =
    (line ∷ before, l, after, ap (λ z. line ∷ z) e, (mute, quiet), has, ends)
onto line lines (err e) mute quiet = (mute, quiet)

-- For whatever lines Chrome writes: `start_chrome` returns the last word of the first line that
-- contains "DevTools listening on", and fails exactly when no line does.
pub start_chrome-Announced : (lines : List Text) → Announced lines (start_chrome lines)
unfolding start_chrome announced
start_chrome-Announced [] = tt
start_chrome-Announced (line ∷ lines) = elim (Bool-cases (contains announcement line)) [
  | inl hit ↦
      let (url, e, ends) = parse_url_from_line-Ends line in
      rw hit (rw e ([], line, lines, refl, tt, found announcement line hit, ends))
  | inr miss ↦ rw miss (
      onto line lines (start_chrome lines) (absent announcement line miss)
        (start_chrome-Announced lines))
]
