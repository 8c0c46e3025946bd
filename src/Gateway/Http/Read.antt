-- ===== src/Gateway/Http/Read.antt =====
-- `read_until_empty_line` stops at the first empty line.
use mathlib.Core.Path.{subst}
use mathlib.Core.List.{append_assoc}
use tzafon_way_point.Prelude.{
  ℕ, ◌≡◌, refl, sym, ap, ◌∙◌, inl, inr, true, false, List, [], ◌∷◌, ◌++◌, Text, Bool-cases,
}
use tzafon_way_point.Gateway.Http.{
  Result, ok, err, io_error, cr, lf, ends_with, read_loop, read_until_empty_line,
}

abbrev pub head_end : Text
head_end = cr ∷ lf ∷ cr ∷ lf ∷ []

-- No byte of `p`, read after `s`, completes an empty line.
abbrev pub Unended : Text → Text → Type 0
Unended s [] = Unit
Unended s (b ∷ p) = (ends_with head_end (s ++ b ∷ []) ≡ false) × Unended (s ++ b ∷ []) p

-- What a result says of the bytes of the client.
abbrev pub Reads : Text → List ℕ → Result (Text × List ℕ) → Type 0
Reads s bytes (err e) = Unended s bytes
Reads s bytes (ok (head, rest)) =
    (p : Text) × (b : ℕ) × (bytes ≡ p ++ b ∷ rest)
    × (head ≡ s ++ (p ++ b ∷ []))
    × Unended s p
    × (ends_with head_end head ≡ true)

Reads-step :
    (s : Text) (b : ℕ) (bs : List ℕ) (res : Result (Text × List ℕ))
    → ends_with head_end (s ++ b ∷ []) ≡ false
    → Reads (s ++ b ∷ []) bs res
    → Reads s (b ∷ bs) res
Reads-step s b bs (err e) h r = (h, r)
Reads-step s b bs (ok (head, rest)) h (p, c, e, f, u, d) =
    (b ∷ p, c, ap (λ x. b ∷ x) e, f ∙ append_assoc s (b ∷ []) (p ++ c ∷ []), (h, u), d)

pub read_loop_stops :
    (s : Text) (b : ℕ) (bs : List ℕ)
    → ends_with head_end (s ++ b ∷ []) ≡ true
    → read_loop s (b ∷ bs) ≡ ok (s ++ b ∷ [], bs)
unfolding read_loop
read_loop_stops s b bs e = rw e

pub read_loop_goes_on :
    (s : Text) (b : ℕ) (bs : List ℕ)
    → ends_with head_end (s ++ b ∷ []) ≡ false
    → read_loop s (b ∷ bs) ≡ read_loop (s ++ b ∷ []) bs
unfolding read_loop
read_loop_goes_on s b bs e = rw e

read_loop_ends : (s : Text) → read_loop s [] ≡ err (io_error "Failed to read")
unfolding read_loop
read_loop_ends s = refl

pub read_loop-Reads : (s : Text) (bytes : List ℕ) → Reads s bytes (read_loop s bytes)
read_loop-Reads s [] = subst (Reads s []) (sym (read_loop_ends s)) tt
read_loop-Reads s (b ∷ bs) = elim (Bool-cases (ends_with head_end (s ++ b ∷ []))) [
  | inl e ↦ subst (Reads s (b ∷ bs)) (sym (read_loop_stops s b bs e)) ([], b, refl, refl, tt, e)
  | inr e ↦
      subst (Reads s (b ∷ bs)) (sym (read_loop_goes_on s b bs e))
        (Reads-step s b bs (read_loop (s ++ b ∷ []) bs) e (read_loop-Reads (s ++ b ∷ []) bs))
]

-- For every input of the client, the read returns the bytes up to the first empty line, with that line,
-- and leaves the bytes behind it in the stream; it fails exactly when no prefix of the input ends with one.
pub read_until_empty_line-Reads : (bytes : List ℕ) → Reads [] bytes (read_until_empty_line bytes)
unfolding read_until_empty_line
read_until_empty_line-Reads bytes = read_loop-Reads [] bytes
