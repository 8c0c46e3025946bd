-- ===== src/Gateway/Http/Lines.antt =====
-- Splitting at line ends and at the first separator.
use mathlib.Core.Path.{subst}
use tzafon_way_point.Prelude.{
  ℕ, ◌≡◌, refl, sym, ap, ◌⊎◌, inl, inr, false, ◌&&◌, some, List, [], ◌∷◌, ◌++◌, Text, arith, ◌==◌,
  ==_iff, All, Bool-cases, Option-cases,
}
use tzafon_way_point.Gateway.Http.{cr, lf, onto_first, split_lines, split_once}

abbrev pub Lacks : ℕ → Text → Type 0
Lacks c = All (λ x. (x == c) ≡ false)

-- No line end inside.
abbrev pub NoCrlf : Text → Type 0
NoCrlf [] = Unit
NoCrlf (a ∷ []) = Unit
NoCrlf (a ∷ b ∷ s) = ((a == cr && b == lf) ≡ false) × NoCrlf (b ∷ s)

pub split_once-append : (c : ℕ) (l r : Text) → Lacks c l → split_once c (l ++ c ∷ r) ≡ some (l, r)
unfolding split_once
split_once-append c [] r h = ground arith
split_once-append c (a ∷ l) r h = ground (arith, h.0, split_once-append c l r h.1)

pub split_once_sound :
    (c : ℕ) (s l r : Text) → split_once c s ≡ some (l, r) → (s ≡ l ++ c ∷ r) × Lacks c l
unfolding split_once
split_once_sound c [] l r h = absurd (ground (arith, h))
split_once_sound c (a ∷ s) l r h = elim (Bool-cases (a == c)) [
  | inl e ↦
      let first : l ≡ [] = ground (arith, h, e) in
      let rest : r ≡ s = ground (arith, h, e) in
      rw (first, rest) (ap (λ x. x ∷ s) ((==_iff a c).0 e), tt)
  | inr e ↦ elim (Option-cases (split_once c s)) [
    | inl f ↦ absurd (ground (arith, h, e, f))
    | inr ((l', r'), f) ↦
        let (same, lacks) = split_once_sound c s l' r' f in
        let first : l ≡ a ∷ l' = ground (arith, h, e, f) in
        let rest : r ≡ r' = ground (arith, h, e, f) in
        rw (first, rest) (ap (λ x. a ∷ x) same, (e, lacks))
  ]
]

pub split_lines-append :
    (l rest : Text) → NoCrlf l → split_lines (l ++ cr ∷ lf ∷ rest) ≡ l ∷ split_lines rest
unfolding split_lines
split_lines-append [] rest h = refl
split_lines-append (a ∷ []) rest h = ground arith
split_lines-append (a ∷ b ∷ s) rest h = ground (arith, h.0, split_lines-append (b ∷ s) rest h.1)

-- The first piece is empty or begins where the text begins.
FirstPiece : ℕ → List Text → Type 0
FirstPiece b ls =
    ((ms : List Text) × (ls ≡ [] ∷ ms)) ⊎ ((l : Text) × (ms : List Text) × (ls ≡ (b ∷ l) ∷ ms))

onto_first-FirstPiece : (b : ℕ) (ls : List Text) → FirstPiece b (onto_first b ls)
unfolding FirstPiece
onto_first-FirstPiece b [] = inr ([], [], refl)
onto_first-FirstPiece b (l ∷ ls) = inr (l, ls, refl)

split_lines-FirstPiece : (b : ℕ) (s : Text) → FirstPiece b (split_lines (b ∷ s))
unfolding split_lines FirstPiece
split_lines-FirstPiece b [] = inr ([], [], refl)
split_lines-FirstPiece b (c ∷ s) = elim (Bool-cases (b == cr && c == lf)) [
  | inl e ↦ inl (split_lines s, ground (arith, e))
  | inr e ↦
      let e' : split_lines (b ∷ c ∷ s) ≡ onto_first b (split_lines (c ∷ s)) = ground (arith, e) in
      rw e' (onto_first-FirstPiece b (split_lines (c ∷ s)))
]

onto_first-NoCrlf :
    (a b : ℕ) (ls : List Text)
    → (a == cr && b == lf) ≡ false
    → FirstPiece b ls
    → All NoCrlf ls
    → All NoCrlf (onto_first a ls)
unfolding FirstPiece
onto_first-NoCrlf a b ls t (inl (ms, e)) h = let h' = subst (All NoCrlf) e h in rw e (tt, h'.1)
onto_first-NoCrlf a b ls t (inr (l, ms, e)) h =
    let h' = subst (All NoCrlf) e h in rw e ((t, h'.0), h'.1)

-- Every piece is free of line ends.
pub split_lines-NoCrlf : (s : Text) → All NoCrlf (split_lines s)
unfolding split_lines
split_lines-NoCrlf [] = (tt, tt)
split_lines-NoCrlf (a ∷ []) = (tt, tt)
split_lines-NoCrlf (a ∷ b ∷ s) = elim (Bool-cases (a == cr && b == lf)) [
  | inl e ↦
      let e' : split_lines (a ∷ b ∷ s) ≡ [] ∷ split_lines s = ground (arith, e) in
      subst (All NoCrlf) (sym e') (tt, split_lines-NoCrlf s)
  | inr e ↦
      let e' : split_lines (a ∷ b ∷ s) ≡ onto_first a (split_lines (b ∷ s)) = ground (arith, e) in
      subst (All NoCrlf) (sym e') (
        onto_first-NoCrlf a b (split_lines (b ∷ s)) e (split_lines-FirstPiece b s)
          (split_lines-NoCrlf (b ∷ s)))
]

pub NoCrlf-append_left : (s t : Text) → NoCrlf (s ++ t) → NoCrlf s
NoCrlf-append_left [] t h = tt
NoCrlf-append_left (a ∷ []) t h = tt
NoCrlf-append_left (a ∷ b ∷ s) t h = (h.0, NoCrlf-append_left (b ∷ s) t h.1)

NoCrlf-tail : (a : ℕ) (s : Text) → NoCrlf (a ∷ s) → NoCrlf s
NoCrlf-tail a [] h = tt
NoCrlf-tail a (b ∷ s) h = h.1

pub NoCrlf-append_right : (s t : Text) → NoCrlf (s ++ t) → NoCrlf t
NoCrlf-append_right [] t h = h
NoCrlf-append_right (a ∷ s) t h = NoCrlf-append_right s t (NoCrlf-tail a (s ++ t) h)

-- A separator that is no part of a line end keeps two texts apart.
pub NoCrlf-join :
    (s t : Text) (x : ℕ) → (x == lf) ≡ false → NoCrlf s → NoCrlf (x ∷ t) → NoCrlf (s ++ x ∷ t)
NoCrlf-join [] t x h hs ht = ht
NoCrlf-join (a ∷ []) t x h hs ht = (ground (arith, h), ht)
NoCrlf-join (a ∷ b ∷ s) t x h hs ht = (hs.0, NoCrlf-join (b ∷ s) t x h hs.1 ht)

pub NoCrlf-cons : (x : ℕ) (t : Text) → (x == cr) ≡ false → NoCrlf t → NoCrlf (x ∷ t)
NoCrlf-cons x [] h ht = tt
NoCrlf-cons x (b ∷ t) h ht = (ground (arith, h), ht)
