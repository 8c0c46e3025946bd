-- ===== src/Gateway/Http/Trim.antt =====
-- Trimming white space from both ends.
use mathlib.Core.Path.{subst}
use mathlib.Core.List.{reverse-append, reverse-reverse, reverse-cons}
use tzafon_way_point.Prelude.{
  ℕ, ◌≡◌, refl, sym, ap, ◌∙◌, inl, inr, false, [], ◌∷◌, ◌++◌, reverse, Text, Bool-cases,
}
use tzafon_way_point.Gateway.Http.{is_whitespace, trim_start, trim}

-- Nothing but white space is taken off the front.
trim_start_split : (s : Text) → (w : Text) × (s ≡ w ++ trim_start s)
unfolding trim_start
trim_start_split [] = ([], refl)
trim_start_split (c ∷ s) = elim (Bool-cases (is_whitespace c)) [
  | inl e ↦ let (w, h) = trim_start_split s in (c ∷ w, rw e (ap (λ x. c ∷ x) h))
  | inr e ↦ ([], rw e)
]

-- `trim` cuts the text out of its middle.
pub trim_split : (s : Text) → (v w : Text) × (s ≡ v ++ (trim s ++ w))
unfolding trim
trim_split s =
    let (v, h) = trim_start_split s in
    let t = trim_start s in
    let (w, k) = trim_start_split (reverse t) in
    (
      v,
      reverse w,
      h
          ∙ ap (λ x. v ++ x)
              (sym (reverse-reverse t) ∙ ap reverse k ∙ reverse-append w (trim_start (reverse t))),
    )

-- A text with no white space in front.
StartsBlack : Text → Type 0
StartsBlack [] = Unit
StartsBlack (c ∷ s) = is_whitespace c ≡ false

trim_start-StartsBlack : (s : Text) → StartsBlack (trim_start s)
unfolding trim_start StartsBlack
trim_start-StartsBlack [] = tt
trim_start-StartsBlack (c ∷ s) = elim (Bool-cases (is_whitespace c)) [
  | inl e ↦ rw e (trim_start-StartsBlack s)
  | inr e ↦ rw e e
]

trim_start_black : (s : Text) → StartsBlack s → trim_start s ≡ s
unfolding trim_start StartsBlack
trim_start_black [] h = refl
trim_start_black (c ∷ s) h = rw h

-- Taking white space off the end leaves the front black.
trim_start-append :
    (s : Text) (c : ℕ)
    → is_whitespace c ≡ false
    → (t : Text) × (trim_start (s ++ c ∷ []) ≡ t ++ c ∷ [])
unfolding trim_start
trim_start-append [] c h = ([], rw h)
trim_start-append (a ∷ s) c h = elim (Bool-cases (is_whitespace a)) [
  | inl e ↦ let (t, k) = trim_start-append s c h in (t, rw e k)
  | inr e ↦ (a ∷ s, rw e)
]

trim_end-StartsBlack : (s : Text) → StartsBlack s → StartsBlack (reverse (trim_start (reverse s)))
unfolding StartsBlack trim_start
trim_end-StartsBlack [] h = tt
trim_end-StartsBlack (c ∷ s) h =
    let (t, k) = trim_start-append (reverse s) c h in
    let e : reverse (trim_start (reverse (c ∷ s))) ≡ c ∷ reverse t =
      ap (λ x. reverse (trim_start x)) (reverse-cons c s)
      ∙ ap reverse k
      ∙ reverse-append t (c ∷ []) in
    subst StartsBlack (sym e) h

-- Trimming twice is trimming once.
pub trim-trim : (s : Text) → trim (trim s) ≡ trim s
unfolding trim
trim-trim s =
    let t = trim_start s in
    let u = trim_start (reverse t) in
    let black = trim_end-StartsBlack t (trim_start-StartsBlack s) in
    ap (λ x. reverse (trim_start (reverse x))) (trim_start_black (reverse u) black)
    ∙ ap (λ x. reverse (trim_start x)) (reverse-reverse u)
    ∙ ap reverse (trim_start_black u (trim_start-StartsBlack (reverse t)))
