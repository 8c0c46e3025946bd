-- ===== src/Container/Chrome.antt =====
-- apps/rust-instance-container/src/browser/chrome.rs: how the container learns where Chrome listens.
pub mod Announced
use tzafon_way_point.Prelude.{
  ℕ, ◌==◌, Bool, true, false, ◌&&◌, ◌||◌, Option, none, some, List, [], ◌∷◌, Text, String, codes,
  if◌then◌else◌,
}
use tzafon_way_point.Gateway.Http.{space, onto_first}

-- `anyhow::Result`, with the text of the error
pub data Anyhow {ℓ} (A : Type ℓ) : Type ℓ where
  ok : A → Anyhow A
  err : String → Anyhow A

infixl 5 ◌>>=◌ ◌>>◌
abbrev pub ◌>>=◌ {ℓ κ} : {A : Type ℓ} {B : Type κ} → Anyhow A → (A → Anyhow B) → Anyhow B
ok a >>= f = f a
err e >>= f = err e

abbrev pub ◌>>◌ {ℓ} : {B : Type ℓ} → Anyhow (Unit {0}) → Anyhow B → Anyhow B
m >> k = m >>= λ _. k

-- `ok_or_else`
abbrev pub ok_or {ℓ} : {A : Type ℓ} → Option A → String → Anyhow A
ok_or none what = err what
ok_or (some a) what = ok a

unfoldable pub starts_with : Text → Text → Bool
starts_with [] s = true
starts_with (a ∷ p) [] = false
starts_with (a ∷ p) (c ∷ s) = a == c && starts_with p s

-- `str::contains`
unfoldable pub contains : Text → Text → Bool
contains p [] = starts_with p []
contains p (c ∷ s) = starts_with p (c ∷ s) || contains p s

-- `str::split` at a character
unfoldable pub split : ℕ → Text → List Text
split c [] = [] ∷ []
split c (a ∷ s) = let rest = split c s in if a == c then [] ∷ rest else onto_first a rest

unfoldable pub last : List Text → Option Text
last [] = none
last (t ∷ []) = some t
last (t ∷ u ∷ ts) = last (u ∷ ts)

unfoldable pub parse_url_from_line : Text → Anyhow Text
parse_url_from_line line = ok_or (last (split space line)) "Failed to get ws path"

abbrev pub announcement : Text
announcement = codes "DevTools listening on"

-- The line that the task on Chrome's standard error sends: `take_if` sends one at most.
unfoldable pub announced : List Text → Option Text
announced [] = none
announced (line ∷ lines) =
    let rest = announced lines in if contains announcement line then some line else rest

-- `start_chrome`, on the lines that Chrome writes until its standard error ends or cannot be read.
-- `recv` fails if the sender is dropped before it has sent.
unfoldable pub start_chrome : List Text → Anyhow Text
start_chrome lines = ok_or (announced lines) "channel closed" >>= parse_url_from_line
