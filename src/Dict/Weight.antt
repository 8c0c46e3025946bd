-- ===== src/Dict/Weight.antt =====
-- The total weight of the values of a dictionary, a measure for loops that rewrite them.
use tzafon_way_point.Prelude.{
  ℕ, ◌+◌, ◌≡◌, inl, inr, some, List, [], ◌∷◌, arith, Text, text_eq, Bool-cases,
}
use tzafon_way_point.Dict.{Dict, lookup, put, get, insert}

module _ {ℓ} {V : Type ℓ} (f : V → ℕ) where
  abbrev pub weigh_entries : List (Text × V) → ℕ
  weigh_entries [] = 0
  weigh_entries ((k, v) ∷ m) = f v + weigh_entries m

  unfoldable pub weigh : Dict V → ℕ
  weigh d = weigh_entries d.entries

  weigh-put :
      (k : Text) (v old : V) (m : List (Text × V))
      → lookup k m ≡ some old
      → weigh_entries (put k v m) + f old ≡ weigh_entries m + f v
  unfolding lookup put
  weigh-put k v old [] h = cc
  weigh-put k v old ((j, w) ∷ m) h = elim (Bool-cases (text_eq j k)) [
    | inl e ↦ ground (arith, e, h)
    | inr e ↦ ground (arith, e, h, weigh-put k v old m)
  ]

  -- Replacing a value moves the total by the difference of the two weights.
  pub weigh-insert :
      (k : Text) (v old : V) (d : Dict V)
      → get k d ≡ some old
      → weigh (insert k v d) + f old ≡ weigh d + f v
  unfolding weigh get insert
  weigh-insert k v old d h = weigh-put k v old d.entries h
