-- ===== src/Dict.antt =====
-- The `HashMap<String, _>` of the programs, as an association list whose keys are distinct.
-- Rust leaves the order of iteration open; here it is that of the list.
pub mod Distinct
pub mod Weight
pub mod Named
use tzafon_way_point.Prelude.{
  ◌≡◌, refl, ap, Option, none, some, List, [], ◌∷◌, map, arith, Text, text_eq, text_eq_iff,
  text_eq_refl, if◌then◌else◌,
}

pub record Dict {ℓ} (V : Type ℓ) : Type ℓ where
  pub entries : List (Text × V)

module _ {ℓ} {V : Type ℓ} where
  pub lookup : Text → List (Text × V) → Option V
  lookup k [] = none
  lookup k ((j, v) ∷ m) = if text_eq j k then some v else lookup k m

  put : Text → V → List (Text × V) → List (Text × V)
  put k v [] = (k, v) ∷ []
  put k v ((j, w) ∷ m) = if text_eq j k then (j, v) ∷ m else (j, w) ∷ put k v m

  without : Text → List (Text × V) → List (Text × V)
  without k [] = []
  without k ((j, w) ∷ m) = let rest = without k m in if text_eq j k then rest else (j, w) ∷ rest

  unfoldable pub empty : Dict V
  empty = record { entries = [] }

  -- `get`
  unfoldable pub get : Text → Dict V → Option V
  unfolding lookup
  get k d = lookup k d.entries

  -- `insert`, and a write through `get_mut`
  unfoldable pub insert : Text → V → Dict V → Dict V
  unfolding put
  insert k v d = record { entries = put k v d.entries }

  -- `remove`
  unfoldable pub remove : Text → Dict V → Dict V
  unfolding without
  remove k d = record { entries = without k d.entries }

  -- `values`
  unfoldable pub values : Dict V → List V
  values d = map (λ e. e.1) d.entries

  pub get-insert :
      (k j : Text) (v : V) (d : Dict V)
      → get j (insert k v d) ≡ (if text_eq k j then some v else get j d)
  unfolding get insert
  get-insert k j v d = go d.entries
    where
      go :
          (m : List (Text × V))
          → lookup j (put k v m) ≡ (if text_eq k j then some v else lookup j m)
      go [] = refl
      go ((i, w) ∷ m) = ground (arith, text_eq_iff k j, text_eq_iff i k, text_eq_iff i j, go m)

  pub get-insert_self : (k : Text) (v : V) (d : Dict V) → get k (insert k v d) ≡ some v
  get-insert_self k v d = rw (get-insert k k v d, text_eq_refl k)

  pub get-remove :
      (k j : Text) (d : Dict V) → get j (remove k d) ≡ (if text_eq k j then none else get j d)
  unfolding get remove
  get-remove k j d = go d.entries
    where
      go :
          (m : List (Text × V))
          → lookup j (without k m) ≡ (if text_eq k j then none else lookup j m)
      go [] = ground arith
      go ((i, w) ∷ m) = ground (arith, text_eq_iff k j, text_eq_iff i k, text_eq_iff i j, go m)

  pub get-empty : (k : Text) → get k empty ≡ none
  unfolding get empty
  get-empty k = refl

  -- Writing one key twice keeps the second value.
  pub insert-insert : (k : Text) (v w : V) (d : Dict V) → insert k w (insert k v d) ≡ insert k w d
  unfolding insert
  insert-insert k v w d = ap (λ (m : List (Text × V)). record { entries = m }) (go d.entries)
    where
      go : (m : List (Text × V)) → put k w (put k v m) ≡ put k w m
      go [] = rw (text_eq_refl k)
      go ((i, u) ∷ m) = ground (arith, go m)

  -- What was inserted under a new key is removed without a trace.
  pub remove-insert_new :
      (k : Text) (v : V) (d : Dict V) → get k d ≡ none → remove k (insert k v d) ≡ d
  unfolding get insert remove
  remove-insert_new k v d h = ap (λ (m : List (Text × V)). record { entries = m }) (go d.entries h)
    where
      skip : (m : List (Text × V)) → lookup k m ≡ none → without k m ≡ m
      skip [] h = refl
      skip ((i, u) ∷ m) h = ground (arith, h, skip m)

      go : (m : List (Text × V)) → lookup k m ≡ none → without k (put k v m) ≡ m
      go [] h = rw (text_eq_refl k)
      go ((i, u) ∷ m) h = ground (arith, h, go m)
