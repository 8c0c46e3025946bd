-- ===== src/Manager/StatusPage/Rows.antt =====
-- Which rows the page shows.
use mathlib.Core.Path.{subst}
use tzafon_way_point.Prelude.{
  ℕ, zero, suc, ◌≤◌, ◌<◌, ◌≡◌, refl, sym, ap, ◌∙◌, inl, inr, Bool, List, [], ◌∷◌, ◌++◌, length,
  keep, take, map, arith, leb, Bool-cases, All,
}
use tzafon_way_point.Manager.StatusPage.{
  Browser, Registration, max_items, insert_by, sort_by_key, registration_row, render,
}

module _ {A : Type 0} (key : A → ℕ) where
  -- No row stands before one with a smaller key.
  abbrev pub IsSorted : List A → Type 0
  IsSorted [] = Unit
  IsSorted (x ∷ xs) = All (λ y. key x ≤ key y) xs × IsSorted xs

  All-insert_by :
      (P : A → Type 0) (a : A) (xs : List A) → P a → All P xs → All P (insert_by key a xs)
  unfolding insert_by
  All-insert_by P a [] h hs = (h, tt)
  All-insert_by P a (x ∷ xs) h (hx, hs) = elim (Bool-cases (leb (key a) (key x))) [
    | inl e ↦ rw e (h, (hx, hs))
    | inr e ↦ rw e (hx, All-insert_by P a xs h hs)
  ]

  All-weaken :
      (a x : A) (xs : List A)
      → key a ≤ key x
      → All (λ y. key x ≤ key y) xs
      → All (λ y. key a ≤ key y) xs
  All-weaken a x [] h hs = tt
  All-weaken a x (y ∷ xs) h (hy, hs) = (omega (arith, h, hy), All-weaken a x xs h hs)

  insert_by-IsSorted : (a : A) (xs : List A) → IsSorted xs → IsSorted (insert_by key a xs)
  unfolding insert_by
  insert_by-IsSorted a [] s = (tt, tt)
  insert_by-IsSorted a (x ∷ xs) (hx, s) = elim (Bool-cases (leb (key a) (key x))) [
    | inl e ↦
        let le : key a ≤ key x = ground (arith, e) in rw e ((le, All-weaken a x xs le hx), (hx, s))
    | inr e ↦
        let le : key x ≤ key a = ground (arith, e) in
        rw e (All-insert_by (λ y. key x ≤ key y) a xs le hx, insert_by-IsSorted a xs s)
  ]

  sort_by_key-IsSorted : (xs : List A) → IsSorted (sort_by_key key xs)
  unfolding sort_by_key
  sort_by_key-IsSorted [] = tt
  sort_by_key-IsSorted (x ∷ xs) =
      insert_by-IsSorted x (sort_by_key key xs) (sort_by_key-IsSorted xs)

  length-keep-insert_by :
      (p : A → Bool) (a : A) (xs : List A)
      → length (keep p (insert_by key a xs)) ≡ length (keep p (a ∷ xs))
  unfolding insert_by
  length-keep-insert_by p a [] = refl
  length-keep-insert_by p a (x ∷ xs) = elim (Bool-cases (leb (key a) (key x))) [
    | inl e ↦ rw e refl
    | inr e ↦ rw e (ground (arith, length-keep-insert_by p a xs))
  ]

  length-keep-sort_by_key :
      (p : A → Bool) (xs : List A) → length (keep p (sort_by_key key xs)) ≡ length (keep p xs)
  unfolding sort_by_key
  length-keep-sort_by_key p [] = refl
  length-keep-sort_by_key p (x ∷ xs) =
      length-keep-insert_by p x (sort_by_key key xs) ∙ ground (arith, length-keep-sort_by_key p xs)

-- What `truncate` cuts off.
cut_off :
    {A : Type 0} (n : ℕ) (xs : List A)
    → (ys : List A) × (xs ≡ take n xs ++ ys)
      × (length (take n xs) ≤ n)
      × (length (take n xs) < n → ys ≡ [])
cut_off zero xs = (xs, refl, omega arith, λ h. absurd (omega (arith, h)))
cut_off (suc n) [] = ([], refl, omega arith, λ h. refl)
cut_off (suc n) (x ∷ xs) =
    let (ys, e, h, k) = cut_off n xs in
    (ys, ap (λ z. x ∷ z) e, omega (arith, h), λ l. k (omega (arith, l)))

-- The registrations that the page shows are those with the least time since registration: with the
-- rows that are cut off they are in order of that time, and every kind of row is there as often as
-- among all browsers; there are at most 30, and fewer only if none is cut off.
pub render-Registrations :
    (bs : List Browser) (now : ℕ)
    → (others : List Registration) × IsSorted
        (λ r. r.time_since_registered_ms)
        ((render bs now).registrations ++ others)
      × ((p : Registration → Bool)
          → length (keep p ((render bs now).registrations ++ others))
            ≡ length (keep p (map (registration_row now) bs)))
      × (length (render bs now).registrations ≤ max_items)
      × (length (render bs now).registrations < max_items → others ≡ [])
unfolding render
render-Registrations bs now =
    let rows = map (registration_row now) bs in
    let sorted = sort_by_key (λ (r : Registration). r.time_since_registered_ms) rows in
    let (ys, e, h, k) = cut_off max_items sorted in
    (
      ys,
      subst (IsSorted (λ r. r.time_since_registered_ms)) e
          (sort_by_key-IsSorted (λ r. r.time_since_registered_ms) rows),
      (λ p.
          ap (λ z. length (keep p z)) (sym e)
          ∙ length-keep-sort_by_key (λ r. r.time_since_registered_ms) p rows),
      h,
      k,
    )
