-- ===== src/Client/HeartBeat/Patience.antt =====
-- When the beating gives an instance up.
use mathlib.Core.Path.{subst}
use tzafon_way_point.Prelude.{
  ℕ, zero, suc, ◌+◌, ◌≡◌, ◌↔◌, refl, sym, ap, ◌∙◌, ◌⊎◌, inl, inr, Bool, true, false, some, List, [],
  ◌∷◌, map, arith,
}
use tzafon_way_point.Prelude.Status.{Status, Result, ok, err}
use tzafon_way_point.Client.HeartBeat.{
  max_retries, answer, after_answer, beating, unhealthy, Round, heart_beat_round, heart_beat_loop,
}

-- The rounds of a token that nobody cancels.
abbrev pub uncancelled : List (Result Bool) → List Round
uncancelled = map (λ a. record { response = a; is_cancelled = false })

-- So many failed calls in front.
abbrev Failures : ℕ → List (Result Bool) → Type 0
Failures zero rs = Unit
Failures (suc n) [] = ⊥
Failures (suc n) (err e ∷ rs) = Failures n rs
Failures (suc n) (ok b ∷ rs) = ⊥

-- The manager disowns the instance, or cannot be reached four times in a row.
abbrev pub GivesUp : List (Result Bool) → Type 0
GivesUp [] = ⊥
GivesUp (a ∷ rs) = (a ≡ ok false) ⊎ (Failures (suc max_retries) (a ∷ rs) ⊎ GivesUp rs)

stays : (rs : List (Result Bool)) → heart_beat_loop (uncancelled rs) unhealthy ≡ unhealthy
unfolding heart_beat_loop heart_beat_round
stays [] = refl
stays (a ∷ rs) = stays rs

Failures-GivesUp : (rs : List (Result Bool)) → Failures (suc max_retries) rs → GivesUp rs
Failures-GivesUp [] h = absurd h
Failures-GivesUp (a ∷ rs) h = inr (inl h)

Failures-fewer : (n : ℕ) (rs : List (Result Bool)) → Failures (suc n) rs → Failures n rs
Failures-fewer zero rs h = tt
Failures-fewer (suc n) [] h = absurd h
Failures-fewer (suc n) (err e ∷ rs) h = Failures-fewer n rs h
Failures-fewer (suc n) (ok b ∷ rs) h = absurd h

Failures-few : (n m k : ℕ) (rs : List (Result Bool)) → n + m ≡ k → Failures k rs → Failures m rs
Failures-few zero m k rs e h =
    let same : k ≡ m = omega (arith, e) in subst (λ x. Failures x rs) same h
Failures-few (suc n) m zero rs e h = absurd (omega (arith, e))
Failures-few (suc n) m (suc k) rs e h =
    Failures-few n m k rs (omega (arith, e)) (Failures-fewer k rs h)

-- What one failed call leads to, while `m` more are borne and when none is.
answer_borne : (s : Status) (n m : ℕ) → n + suc m ≡ max_retries → answer (err s) n ≡ some (suc n)
unfolding answer
answer_borne s n m e = ground (arith, e)

borne :
    (s : Status) (rs : List (Result Bool)) (n m : ℕ)
    → n + suc m ≡ max_retries
    → heart_beat_loop (uncancelled (err s ∷ rs)) (beating n)
      ≡ heart_beat_loop (uncancelled rs) (beating (suc n))
unfolding heart_beat_loop heart_beat_round
borne s rs n m e =
    ap (λ o. heart_beat_loop (uncancelled rs) (after_answer false o)) (answer_borne s n m e)

last_straw_at :
    (s : Status) (rs : List (Result Bool))
    → heart_beat_loop (uncancelled (err s ∷ rs)) (beating max_retries) ≡ unhealthy
unfolding heart_beat_loop heart_beat_round answer
last_straw_at s rs = stays rs

last_straw :
    (s : Status) (rs : List (Result Bool)) (n : ℕ)
    → n + 0 ≡ max_retries
    → heart_beat_loop (uncancelled (err s ∷ rs)) (beating n) ≡ unhealthy
last_straw s rs n e =
    let full : n ≡ max_retries = omega (arith, e) in
    subst (λ x. heart_beat_loop (uncancelled (err s ∷ rs)) (beating x) ≡ unhealthy) (sym full)
      (last_straw_at s rs)

GivesUp-sound :
    (rs : List (Result Bool)) (n m : ℕ)
    → n + m ≡ max_retries
    → heart_beat_loop (uncancelled rs) (beating n) ≡ unhealthy
    → Failures (suc m) rs ⊎ GivesUp rs
unfolding heart_beat_loop heart_beat_round answer
GivesUp-sound [] n m e h = absurd (ground (arith, h))
GivesUp-sound (ok true ∷ rs) n m e h = elim (GivesUp-sound rs 0 max_retries refl h) [
  | inl f ↦ inr (inr (inr (Failures-GivesUp rs f)))
  | inr g ↦ inr (inr (inr g))
]
GivesUp-sound (ok false ∷ rs) n m e h = inr (inl refl)
GivesUp-sound (err s ∷ rs) n zero e h = inl tt
GivesUp-sound (err s ∷ rs) n (suc m) e h =
    elim (GivesUp-sound rs (suc n) m (omega (arith, e)) (sym (borne s rs n m e) ∙ h)) [
      | inl f ↦ inl f
      | inr g ↦ inr (inr (inr g))
    ]

GivesUp-complete :
    (rs : List (Result Bool)) (n m : ℕ)
    → n + m ≡ max_retries
    → Failures (suc m) rs ⊎ GivesUp rs
    → heart_beat_loop (uncancelled rs) (beating n) ≡ unhealthy
unfolding heart_beat_loop heart_beat_round answer
GivesUp-complete [] n m e h = absurd (elim h [ inl f ↦ f | inr g ↦ g ])
GivesUp-complete (ok true ∷ rs) n m e (inr (inr (inr g))) =
    GivesUp-complete rs 0 max_retries refl (inr g)
GivesUp-complete (ok true ∷ rs) n m e (inr (inl x)) = absurd (ground (arith, x))
GivesUp-complete (ok true ∷ rs) n m e (inr (inr (inl f))) = absurd f
GivesUp-complete (ok true ∷ rs) n m e (inl f) = absurd f
GivesUp-complete (ok false ∷ rs) n m e h = stays rs
GivesUp-complete (err s ∷ rs) n zero e h = last_straw s rs n e
GivesUp-complete (err s ∷ rs) n (suc m) e h =
    borne s rs n m e
    ∙ GivesUp-complete rs (suc n) m (omega (arith, e)) (elim h [
      | inl f ↦ inl f
      | inr (inl x) ↦ absurd (ground (arith, x))
      | inr (inr (inl f)) ↦ inl (Failures-few n (suc m) max_retries rs e f)
      | inr (inr (inr g)) ↦ inr g
    ])

-- A loop whose token nobody cancels ends exactly when the manager answers `false` once or fails to answer
-- four times in a row.
pub heart_beat_loop-GivesUp :
    (rs : List (Result Bool))
    → (heart_beat_loop (uncancelled rs) (beating 0) ≡ unhealthy) ↔ GivesUp rs
heart_beat_loop-GivesUp rs = (
  (λ h. elim (GivesUp-sound rs 0 max_retries refl h) [ inl f ↦ Failures-GivesUp rs f | inr g ↦ g ]),
  (λ g. GivesUp-complete rs 0 max_retries refl (inr g)),
)
