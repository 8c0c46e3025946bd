-- ===== src/Manager/StatusPage/Truncation.antt =====
-- Labels that are cut to 32 bytes.
use tzafon_way_point.Prelude.{
  ℕ, ◌+◌, ◌-◌, ◌≤◌, ◌≡◌, refl, inl, inr, true, false, some, [], ◌∷◌, ◌++◌, Text, codes, length,
  arith, ltb, ◌==◌, Bool-cases, All,
}
use tzafon_way_point.Gateway.Http.{encode}
use tzafon_way_point.Manager.StatusPage.{prefix_bytes, byte_length, truncated_string}

abbrev pub IsAscii : Text → Type 0
IsAscii = All (λ c. ltb c 128 ≡ true)

encode_ascii : (c : ℕ) → ltb c 128 ≡ true → length (encode c) ≡ 1
unfolding encode
encode_ascii c h = rw h refl

byte_length-append : (s t : Text) → byte_length (s ++ t) ≡ byte_length s + byte_length t
unfolding byte_length
byte_length-append [] t = omega arith
byte_length-append (c ∷ s) t = omega (arith, byte_length-append s t)

prefix_bytes_ascii :
    (n : ℕ) (s : Text)
    → IsAscii s
    → n ≤ byte_length s
    → (t : Text) × (prefix_bytes n s ≡ some t) × (byte_length t ≡ n)
unfolding prefix_bytes byte_length
prefix_bytes_ascii n [] a h =
    let same : n ≡ 0 = omega (arith, h) in ([], ground (arith, same), omega (arith, same))
prefix_bytes_ascii n (c ∷ s) (hc, a) h =
    let one = encode_ascii c hc in
    elim (Bool-cases (n == 0)) [
      | inl e ↦ ([], ground (arith, e), ground (arith, e))
      | inr e ↦
          let le : n - length (encode c) ≤ byte_length s = omega (arith, h, one) in
          let (t, p, k) = prefix_bytes_ascii (n - length (encode c)) s a le in
          let fits : ltb n (length (encode c)) ≡ false = ground (arith, e, one) in
          (c ∷ t, rw e (rw fits (rw p refl)), ground (arith, k, one, e))
    ]

dots : byte_length (codes "...") ≡ 3
unfolding byte_length encode
dots = refl

-- For every ASCII text, `truncated_string` does not panic, and its result has at most 32 bytes.
pub truncated_string-IsAscii :
    (s : Text) → IsAscii s → (t : Text) × (truncated_string s ≡ some t) × (byte_length t ≤ 32)
unfolding truncated_string byte_length
truncated_string-IsAscii s a = elim (Bool-cases (ltb 32 (byte_length s))) [
  | inr short ↦ (s, rw short refl, ground (arith, short))
  | inl long ↦
      let le : 29 ≤ byte_length s = ground (arith, long) in
      let (t, p, k) = prefix_bytes_ascii 29 s a le in
      (
        t ++ codes "...",
        rw long (rw p refl),
        omega (arith, byte_length-append t (codes "..."), k, dots),
      )
]
