-- ===== src/Manager/World.antt =====
-- The state behind the mutex of apps/rust-instance-manager/src/service.rs, with the count of clock
-- readings made so far. What a handler wrote before an error stays written.
use tzafon_way_point.Prelude.{ℕ, Text, none, some, String}
use tzafon_way_point.Prelude.Status.{Result, ok, err, not_found}
use tzafon_way_point.Proto.{InstanceDescription}
use tzafon_way_point.Dict.{Dict, get, empty}

pub record World : Type 0 where
  pub instance_description : Dict InstanceDescription
  pub reads : ℕ

abbrev pub Exec : Type 0 → Type 0
Exec A = World → Result A × World

module _ {A B : Type 0} where
  abbrev pub continue : Result A → (A → Exec B) → Exec B
  continue (ok a) f w = f a w
  continue (err e) f w = (err e, w)

  infixl 5 ◌>>=◌
  abbrev pub ◌>>=◌ : Exec A → (A → Exec B) → Exec B
  ◌>>=◌ m f w = let (r, w') = m w in continue r f w'

infixl 5 ◌>>◌
abbrev pub ◌>>◌ : {B : Type 0} → Exec (Unit {0}) → Exec B → Exec B
m >> k = m >>= λ _. k

abbrev pub pure : {A : Type 0} → A → Exec A
pure a w = (ok a, w)

-- A fallible expression that reads nothing from the state.
abbrev pub lift : {A : Type 0} → Result A → Exec A
lift r w = (r, w)

-- `instance_descriptions.get(k).ok_or(Status::not_found(what))?`
unfoldable pub find : Text → String → Dict InstanceDescription → Result InstanceDescription
find k what m = elim (get k m) [ none ↦ err (not_found what) | some d ↦ ok d ]

-- `Service::new`
abbrev pub new : World
new = record { instance_description = empty; reads = 0 }
