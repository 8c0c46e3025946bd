-- ===== src/Client/Cli/Tally.antt =====
-- What the tool prints, and when it fails.
pub mod Parentless
use mathlib.Core.Path.{subst}
use tzafon_way_point.Prelude.{
  ℕ, ◌+◌, ◌%◌, ◌^◌, ◌<◌, ◌≡◌, ◌⊎◌, inl, inr, refl, sym, ap, ◌∙◌, Bool, true, false, ◌&&◌, Option,
  none, some, List, [], ◌∷◌, map, Text, text_eq, eq_of_text_eq, unwrap_or, keep, length, In, All,
  arith, Bool-cases, Option-cases,
}
use tzafon_way_point.Prelude.Status.{Result, ok, err}
use tzafon_way_point.Proto.{InstanceId, InstanceDescription}
use tzafon_way_point.Dict.{Dict, get, get-insert, get-empty, empty}
use tzafon_way_point.Manager.World.{World}
use tzafon_way_point.Manager.Rpc.{get_all_instances, get_instance}
use tzafon_way_point.Client.EphemeralProxy.{Delivery, call}
use tzafon_way_point.Manager.Rpc.Listing.{ids_of}
use tzafon_way_point.Client.Cli.{
  Args, Outcome, printed, failed, fits, parent_id, count_child, tally, count_children,
}

-- An answer that is counted for the parent `k`
abbrev pub is_child : Args → Text → Result InstanceDescription → Bool
is_child args k (err e) = false
is_child args k (ok d) = fits args d && elim (parent_id d) [ none ↦ false | some j ↦ text_eq j k ]

abbrev pub value : Text → Dict ℕ → ℕ
value k m = unwrap_or (get k m) 0

-- An instance that is to be counted has a parent with an id.
abbrev pub IsKeyed : Args → Result InstanceDescription → Type 0
IsKeyed args (err e) = Unit
IsKeyed args (ok d) = (fits args d ≡ false) ⊎ ((k : Text) × (parent_id d ≡ some k))

abbrev IsBounded : Dict ℕ → Type 0
IsBounded m = (k : Text) → value k m < 2 ^ 32

abbrev Tallied : Args → List (Result InstanceDescription) → Dict ℕ → Outcome → Type 0
Tallied args rs m0 (printed m) =
    ((k : Text) → value k m ≡ (value k m0 + length (keep (is_child args k) rs)) % 2 ^ 32)
    × All (IsKeyed args) rs
Tallied args rs m0 (failed s) =
    (d : InstanceDescription) × In (ok d) rs × (fits args d ≡ true) × (parent_id d ≡ none)

value-count_child :
    (k j : Text) (m : Dict ℕ)
    → value k (count_child j m)
      ≡ elim (text_eq j k) [ true ↦ (value k m + 1) % 2 ^ 32 | false ↦ value k m ]
unfolding count_child
value-count_child k j m = elim (Bool-cases (text_eq j k)) [
  | inl e ↦
      let same : j ≡ k = eq_of_text_eq j k e in
      rw (get-insert j k ((unwrap_or (get j m) 0 + 1) % 2 ^ 32) m, e)
        (ap (λ i. (value i m + 1) % 2 ^ 32) same)
  | inr e ↦ rw (get-insert j k ((unwrap_or (get j m) 0 + 1) % 2 ^ 32) m, e) refl
]

count_child-IsBounded : (j : Text) (m : Dict ℕ) → IsBounded m → IsBounded (count_child j m)
count_child-IsBounded j m b = λ k. elim (Bool-cases (text_eq j k)) [
  | inl e ↦ ground (arith, value-count_child k j m, e)
  | inr e ↦ ground (arith, value-count_child k j m, e, b k)
]

-- An answer that is not counted
pass :
    (args : Args) (r : Result InstanceDescription) (rs : List (Result InstanceDescription))
    (m0 : Dict ℕ) (out : Outcome)
    → ((k : Text) → is_child args k r ≡ false)
    → IsKeyed args r
    → Tallied args rs m0 out
    → Tallied args (r ∷ rs) m0 out
pass args r rs m0 (printed m) none_counted keyed (h, all) =
    ((λ k. rw (none_counted k) (h k)), (keyed, all))
pass args r rs m0 (failed s) none_counted keyed (d, i, f, e) = (d, inr i, f, e)

-- An answer that is counted for `j`
count :
    (args : Args) (d : InstanceDescription) (rs : List (Result InstanceDescription)) (m0 : Dict ℕ)
    (j : Text) (out : Outcome)
    → fits args d ≡ true
    → parent_id d ≡ some j
    → Tallied args rs (count_child j m0) out
    → Tallied args (ok d ∷ rs) m0 out
count args d rs m0 j (failed s) f e (x, i, g, n) = (x, inr i, g, n)
count args d rs m0 j (printed m) f e (h, all) = (
  (λ k.
      let n = length (keep (is_child args k) rs) in
      let before = ap (λ x. (x + n) % 2 ^ 32) (value-count_child k j m0) in
      h k ∙ before ∙ elim (Bool-cases (text_eq j k)) [
        | inl t ↦ rw (f, e, t) (omega arith)
        | inr t ↦ rw (f, e, t) refl
      ]),
  (inr (j, e), all),
)

tally-Tallied :
    (args : Args) (rs : List (Result InstanceDescription)) (m0 : Dict ℕ)
    → IsBounded m0
    → Tallied args rs m0 (tally args rs m0)
unfolding tally
tally-Tallied args [] m0 b = ((λ k. omega (arith, b k)), tt)
tally-Tallied args (err x ∷ rs) m0 b =
    pass args (err x) rs m0 (tally args rs m0) (λ k. refl) tt (tally-Tallied args rs m0 b)
tally-Tallied args (ok d ∷ rs) m0 b = elim (Bool-cases (fits args d)) [
  | inr f ↦
      rw (f, tally)
        (pass args (ok d) rs m0 (tally args rs m0) (λ k. rw f refl) (inl f)
          (tally-Tallied args rs m0 b))
  | inl f ↦ elim (Option-cases (parent_id d)) [
    | inl e ↦ rw (f, tally) (rw e (d, inl refl, f, e))
    | inr (j, e) ↦
        rw (f, tally)
          (rw e (
            count args d rs m0 j (tally args rs (count_child j m0)) f e
              (tally-Tallied args rs (count_child j m0) (count_child-IsBounded j m0 b))))
  ]
]

-- What the tool ends with, given the answers that it got
abbrev pub Counts : Args → List (Result InstanceDescription) → Outcome → Type 0
Counts args rs (printed m) =
    ((k : Text) → value k m ≡ length (keep (is_child args k) rs) % 2 ^ 32) × All (IsKeyed args) rs
Counts args rs (failed s) =
    (d : InstanceDescription) × In (ok d) rs × (fits args d ≡ true) × (parent_id d ≡ none)

from_empty :
    (args : Args) (rs : List (Result InstanceDescription)) (out : Outcome)
    → Tallied args rs empty out
    → Counts args rs out
from_empty args rs (failed s) t = t
from_empty args rs (printed m) (h, keyed) = ((λ k. h k ∙ rw (get-empty k) (omega arith)), keyed)

-- The answers to the tool's calls: each instance that is listed is asked for.
abbrev pub answers :
    Args
    → (InstanceId → Delivery)
    → (InstanceId → World)
    → World
    → List (Result InstanceDescription)
answers args delivery then w =
    map (λ id. (call (delivery id) (get_instance id) (then id)).0)
      (ids_of (get_all_instances (record { instance_type = args.instance_type }) w).0)

pub count_children-Counts :
    (args : Args) (delivery : InstanceId → Delivery) (then : InstanceId → World) (w : World)
    → Counts args (answers args delivery then w) (count_children args delivery then w)
unfolding count_children get_all_instances
count_children-Counts args delivery then w =
    let rs = answers args delivery then w in
    from_empty args rs (tally args rs empty)
      (tally-Tallied args rs empty (λ k. rw (get-empty k) (omega arith)))
