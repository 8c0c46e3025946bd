-- ===== src/Dict/Named.antt =====
-- The entries of one key, in a list of pairs and in a dictionary.
use mathlib.Core.Path.{subst}
use tzafon_way_point.Prelude.{
  ◌≡◌, refl, ap, inl, inr, Option, none, some, List, [], ◌∷◌, ◌++◌, Text, arith, text_eq,
  text_eq_iff, keep, Bool-cases,
}
use tzafon_way_point.Dict.{Dict, get, lookup}
use tzafon_way_point.Dict.Distinct.{IsDistinct, Fresh}

module _ {ℓ} {V : Type ℓ} where
  -- The pairs of one key, in their order.
  abbrev pub named : Text → List (Text × V) → List (Text × V)
  named k = keep (λ h. text_eq h.0 k)

  pub named-append :
      (k : Text) (xs ys : List (Text × V)) → named k (xs ++ ys) ≡ named k xs ++ named k ys
  named-append k [] ys = refl
  named-append k (x ∷ xs) ys = ground (arith, named-append k xs ys)

  abbrev pub one_if_some : Text → Option V → List (Text × V)
  one_if_some k none = []
  one_if_some k (some v) = (k, v) ∷ []

  named_absent : (k : Text) (m : List (Text × V)) → lookup k m ≡ none → named k m ≡ []
  unfolding lookup
  named_absent k [] h = refl
  named_absent k ((j, v) ∷ m) h = ground (arith, h, named_absent k m)

  named-Fresh : (k : Text) (m : List (Text × V)) → Fresh m → named k m ≡ one_if_some k (lookup k m)
  unfolding lookup
  named-Fresh k [] f = refl
  named-Fresh k ((j, v) ∷ m) f = elim (Bool-cases (text_eq j k)) [
    | inl e ↦
        let same : j ≡ k = (text_eq_iff j k).0 e in
        let gone : named k m ≡ [] = named_absent k m (subst (λ x. lookup x m ≡ none) same f.0) in
        rw e (rw gone (ap (λ x. (x, v) ∷ []) same))
    | inr e ↦ rw e (named-Fresh k m f.1)
  ]

  pub named-entries :
      (k : Text) (d : Dict V) → IsDistinct d → named k d.entries ≡ one_if_some k (get k d)
  unfolding get IsDistinct
  named-entries k d f = named-Fresh k d.entries f
