-- ===== src/Dict/Distinct.antt =====
-- Dictionaries whose keys are distinct, and what iteration over one finds.
use tzafon_way_point.Prelude.{
  ◌≡◌, refl, ap, ◌∙◌, inl, inr, false, none, some, List, [], ◌∷◌, map, arith, Text, text_eq,
  text_eq_iff, text_eq_refl, Bool-cases, In,
}
use tzafon_way_point.Dict.{Dict, lookup, put, without, get, insert, remove, empty, values}

module _ {ℓ} {V : Type ℓ} where
  -- No key comes back further on.
  abbrev pub Fresh : List (Text × V) → Type ℓ
  Fresh [] = Unit
  Fresh ((k, v) ∷ m) = (lookup k m ≡ none) × Fresh m

  unfoldable pub IsDistinct : Dict V → Type ℓ
  IsDistinct d = Fresh d.entries

  lookup-put_ne :
      (k j : Text) (v : V) (m : List (Text × V))
      → text_eq k j ≡ false
      → lookup j (put k v m) ≡ lookup j m
  unfolding lookup put
  lookup-put_ne k j v [] h = rw h
  lookup-put_ne k j v ((i, w) ∷ m) h =
      ground (arith, text_eq_iff k j, text_eq_iff i k, text_eq_iff i j, lookup-put_ne k j v m)

  lookup-without-none :
      (k j : Text) (m : List (Text × V)) → lookup j m ≡ none → lookup j (without k m) ≡ none
  unfolding lookup without
  lookup-without-none k j [] h = refl
  lookup-without-none k j ((i, w) ∷ m) h = ground (arith, lookup-without-none k j m)

  put-Fresh : (k : Text) (v : V) (m : List (Text × V)) → Fresh m → Fresh (put k v m)
  unfolding put lookup
  put-Fresh k v [] f = (refl, tt)
  put-Fresh k v ((i, w) ∷ m) f = elim (Bool-cases (text_eq i k)) [
    | inl e ↦ rw e f
    | inr e ↦ rw e (
      lookup-put_ne k i v m (ground (arith, text_eq_iff i k, text_eq_iff k i)) ∙ f.0,
      put-Fresh k v m f.1,
    )
  ]

  without-Fresh : (k : Text) (m : List (Text × V)) → Fresh m → Fresh (without k m)
  unfolding without
  without-Fresh k [] f = tt
  without-Fresh k ((i, w) ∷ m) f = elim (Bool-cases (text_eq i k)) [
    | inl e ↦ rw e (without-Fresh k m f.1)
    | inr e ↦ rw e (lookup-without-none k i m f.0, without-Fresh k m f.1)
  ]

  pub insert-IsDistinct : (k : Text) (v : V) (d : Dict V) → IsDistinct d → IsDistinct (insert k v d)
  unfolding insert IsDistinct
  insert-IsDistinct k v d f = put-Fresh k v d.entries f

  pub remove-IsDistinct : (k : Text) (d : Dict V) → IsDistinct d → IsDistinct (remove k d)
  unfolding remove IsDistinct
  remove-IsDistinct k d f = without-Fresh k d.entries f

  value_found :
      (v : V) (m : List (Text × V))
      → Fresh m
      → In v (map (λ e. e.1) m)
      → (k : Text) × (lookup k m ≡ some v)
  unfolding lookup
  value_found v [] f i = absurd i.1
  value_found v ((j, w) ∷ m) f (inl e) = (j, rw (text_eq_refl j) (ap some e))
  value_found v ((j, w) ∷ m) f (inr i) =
      let (k, e) = value_found v m f.1 i in (k, ground (arith, e, f.0, text_eq_iff j k))

  found_value :
      (v : V) (k : Text) (m : List (Text × V)) → lookup k m ≡ some v → In v (map (λ e. e.1) m)
  unfolding lookup
  found_value v k [] h = cc
  found_value v k ((j, w) ∷ m) h = elim (Bool-cases (text_eq j k)) [
    | inl e ↦ inl (ground (arith, e, h))
    | inr e ↦ inr (found_value v k m (ground (arith, e, h)))
  ]

  -- What iteration yields is what some key holds, and the other way round.
  pub get_of_values :
      (v : V) (d : Dict V) → IsDistinct d → In v (values d) → (k : Text) × (get k d ≡ some v)
  unfolding values get IsDistinct
  get_of_values v d = value_found v d.entries

  pub values_of_get : (v : V) (k : Text) (d : Dict V) → get k d ≡ some v → In v (values d)
  unfolding values get
  values_of_get v k d = found_value v k d.entries

pub empty-IsDistinct {ℓ} : (V : Type ℓ) → IsDistinct (empty {V = V})
unfolding empty IsDistinct
empty-IsDistinct V = tt
