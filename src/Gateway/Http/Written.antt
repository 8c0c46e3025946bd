-- ===== src/Gateway/Http/Written.antt =====
-- A request head that was written is read again, up to its end.
use mathlib.Core.List.{append_assoc}
use tzafon_way_point.Prelude.{
  ℕ, ◌≡◌, ◌≢◌, refl, sym, ap, ◌∙◌, ◌⊎◌, inl, inr, false, ◌&&◌, List, [], ◌∷◌, ◌++◌, Text, arith,
  ◌==◌, All,
}
use tzafon_way_point.Gateway.Http.{
  ok, cr, lf, crlf, space, colon, ends_with, read_loop, read_until_empty_line, Request,
  request_line, header_line, header_lines, head_text,
}
use tzafon_way_point.Gateway.Http.Lines.{NoCrlf}
use tzafon_way_point.Gateway.Http.Read.{head_end, read_loop_stops, read_loop_goes_on}
use tzafon_way_point.Gateway.Http.RoundTrip.{
  IsClean, IsCleanHeader, header_line-join, request_line-join,
}
use tzafon_way_point.Prelude.{text_eq}

two_left : (t : Text) (a b : ℕ) → text_eq [] (t ++ a ∷ b ∷ []) ≡ false
unfolding text_eq
two_left [] a b = refl
two_left (c ∷ t) a b = refl

not_one : (x : ℕ) (t : Text) (a b : ℕ) → text_eq (x ∷ []) (t ++ a ∷ b ∷ []) ≡ false
unfolding text_eq
not_one x [] a b = ground arith
not_one x (c ∷ t) a b = ground (arith, two_left t a b)

-- The last two characters, and what stands before them
ends_with-crlf : (t : Text) (a b : ℕ) → ends_with crlf (t ++ a ∷ b ∷ []) ≡ (a == cr && b == lf)
unfolding ends_with text_eq
ends_with-crlf [] a b = ground arith
ends_with-crlf (c ∷ []) a b = ground arith
ends_with-crlf (c ∷ d ∷ t) a b = ground (arith, ends_with-crlf (d ∷ t) a b, two_left t a b)

ends_with-head_end :
    (t : Text) (a b : ℕ)
    → ends_with head_end (t ++ a ∷ b ∷ []) ≡ ((a == cr && b == lf) && ends_with crlf t)
unfolding ends_with text_eq
ends_with-head_end [] a b = ground arith
ends_with-head_end (c ∷ []) a b = ground arith
ends_with-head_end (c ∷ d ∷ []) a b = ground arith
ends_with-head_end (c ∷ d ∷ e ∷ t) a b =
    ground (arith, ends_with-head_end (d ∷ e ∷ t) a b, not_one lf t a b)

-- The loop goes on, unless the last two characters are a line end that follows one.
goes_on :
    (s : Text) (a b : ℕ) (bs : List ℕ)
    → ((a == cr && b == lf) && ends_with crlf s) ≡ false
    → read_loop (s ++ a ∷ []) (b ∷ bs) ≡ read_loop (s ++ a ∷ b ∷ []) bs
goes_on s a b bs h =
    let joined = append_assoc s (a ∷ []) (b ∷ []) in
    read_loop_goes_on (s ++ a ∷ []) b bs
      (ap (ends_with head_end) joined ∙ (ends_with-head_end s a b ∙ h))
    ∙ ap (λ x. read_loop x bs) joined

-- The rest of a line, whose character `a` was read behind `s`
rest_of_line :
    (s : Text) (a : ℕ) (line : Text) (rest : List ℕ)
    → ends_with crlf (s ++ a ∷ []) ≡ false
    → NoCrlf (a ∷ line)
    → read_loop (s ++ a ∷ []) (line ++ cr ∷ lf ∷ rest) ≡ read_loop (s ++ (a ∷ (line ++ crlf))) rest
rest_of_line s a [] rest h n =
    goes_on s a cr (lf ∷ rest) (ground arith)
    ∙ ap (λ x. read_loop x (lf ∷ rest)) (sym (append_assoc s (a ∷ []) (cr ∷ [])))
    ∙ goes_on (s ++ a ∷ []) cr lf rest (ground (arith, h))
    ∙ ap (λ x. read_loop x rest) (append_assoc s (a ∷ []) (cr ∷ lf ∷ []))
rest_of_line s a (b ∷ line) rest h n =
    let joined = append_assoc s (a ∷ []) (b ∷ []) in
    goes_on s a b (line ++ cr ∷ lf ∷ rest) (ground (arith, n.0))
    ∙ ap (λ x. read_loop x (line ++ cr ∷ lf ∷ rest)) (sym joined)
    ∙ rest_of_line (s ++ a ∷ []) b line rest
        (ap (ends_with crlf) joined ∙ (ends_with-crlf s a b ∙ n.0)) n.1
    ∙ ap (λ x. read_loop x rest) (append_assoc s (a ∷ []) (b ∷ (line ++ crlf)))

-- What was read is nothing, or whole lines.
abbrev Fresh : Text → Type 0
Fresh s = (s ≡ []) ⊎ ((u : Text) × (s ≡ u ++ crlf))

first_character :
    (s : Text) (a : ℕ)
    → Fresh s
    → (ends_with head_end (s ++ a ∷ []) ≡ false) × (ends_with crlf (s ++ a ∷ []) ≡ false)
unfolding ends_with text_eq
first_character s a (inl e) = rw e (ground arith, ground arith)
first_character s a (inr (u, e)) =
    let joined : s ++ a ∷ [] ≡ (u ++ cr ∷ []) ++ lf ∷ a ∷ [] =
      ap (λ x. x ++ a ∷ []) e
      ∙ append_assoc u crlf (a ∷ [])
      ∙ sym (append_assoc u (cr ∷ []) (lf ∷ a ∷ [])) in
    (
      ap (ends_with head_end) joined ∙ (ends_with-head_end (u ++ cr ∷ []) lf a ∙ ground arith),
      ap (ends_with crlf) joined ∙ (ends_with-crlf (u ++ cr ∷ []) lf a ∙ ground arith),
    )

read_line :
    (s line : Text) (rest : List ℕ)
    → Fresh s
    → NoCrlf line
    → line ≢ []
    → read_loop s (line ++ cr ∷ lf ∷ rest) ≡ read_loop (s ++ (line ++ crlf)) rest
read_line s [] rest f n some_line = absurd (some_line refl)
read_line s (a ∷ line) rest f n some_line =
    let (d, e) = first_character s a f in
    read_loop_goes_on s a (line ++ cr ∷ lf ∷ rest) d ∙ rest_of_line s a line rest e n

-- The empty line
read_end :
    (u : Text) (rest : List ℕ)
    → read_loop (u ++ crlf) (cr ∷ lf ∷ rest) ≡ ok ((u ++ crlf) ++ crlf, rest)
read_end u rest =
    let s = u ++ crlf in
    let joined = append_assoc s (cr ∷ []) (lf ∷ []) in
    read_loop_goes_on s cr (lf ∷ rest) (first_character s cr (inr (u, refl))).0
    ∙ read_loop_stops (s ++ cr ∷ []) lf rest (
        ap (ends_with head_end) joined
        ∙ (ends_with-head_end s cr lf ∙ (ends_with-crlf u cr lf ∙ refl)))
    ∙ ap (λ x. ok (x, rest)) joined

not_empty : (k : Text) (c : ℕ) (t : Text) → k ++ c ∷ t ≢ []
not_empty [] c t = λ e. cc
not_empty (x ∷ k) c t = λ e. cc

read_headers :
    (u : Text) (hs : List (Text × Text)) (rest : List ℕ)
    → All IsCleanHeader hs
    → read_loop (u ++ crlf) (header_lines hs ++ rest) ≡ ok ((u ++ crlf) ++ header_lines hs, rest)
unfolding header_lines header_line
read_headers u [] rest h = read_end u rest
read_headers u ((key, value) ∷ hs) rest ((hc, hk, hv, hn), h) =
    let s = u ++ crlf in
    let line = key ++ colon ∷ space ∷ value in
    let rows = header_lines hs in
    ap (λ x. read_loop s ((x ++ rows) ++ rest)) (header_line-join key value)
    ∙ ap (read_loop s) (append_assoc (line ++ crlf) rows rest)
    ∙ ap (read_loop s) (append_assoc line crlf (rows ++ rest))
    ∙ read_line s line (rows ++ rest) (inr (u, refl)) hn (not_empty key colon (space ∷ value))
    ∙ ap (λ x. read_loop x (rows ++ rest)) (sym (append_assoc s line crlf))
    ∙ read_headers (s ++ line) hs rest h
    ∙ ap (λ x. ok (x ++ rows, rest)) (append_assoc s line crlf)
    ∙ ap (λ x. ok (x, rest)) (append_assoc s (line ++ crlf) rows)
    ∙ ap (λ x. ok (s ++ (x ++ rows), rest)) (sym (header_line-join key value))

-- A clean head is read to its end, and no further.
pub read_until_empty_line-head_text :
    (r : Request) (rest : List ℕ)
    → IsClean r
    → read_until_empty_line (head_text r ++ rest) ≡ ok (head_text r, rest)
unfolding read_until_empty_line head_text
read_until_empty_line-head_text r rest (hm, hp, hn, hh) =
    let front = r.method ++ space ∷ (r.path ++ space ∷ r.version) in
    let rows = header_lines r.headers in
    ap (read_loop []) (append_assoc (request_line r) rows rest)
    ∙ ap (read_loop []) (request_line-join r (rows ++ rest))
    ∙ read_line [] front (rows ++ rest) (inl refl) hn
        (not_empty r.method space (r.path ++ space ∷ r.version))
    ∙ read_headers front r.headers rest hh
    ∙ ap (λ x. ok (x, rest)) (append_assoc front crlf rows ∙ sym (request_line-join r rows))
