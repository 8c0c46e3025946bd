-- ===== src/Manager/StatusPage/Handlers.antt =====
-- apps/rust-instance-manager/src/service.rs: `handle_get_browser` and `handle_get_browsers`, with the
-- cache of the page. The templates of askama are parameters.
pub mod Fresh
use tzafon_way_point.Prelude.{
  ℕ, ◌-◌, ◌*◌, Bool, true, false, ◌&&◌, Option, none, some, List, [], ◌∷◌, ◌⊎◌, inl, inr, Text,
  String, keep, is_some, ltb, if◌then◌else◌,
}
use tzafon_way_point.Prelude.Status.{Status, ok, err, not_found, internal, Result}
use tzafon_way_point.Proto.{InstanceId, InstanceDescription}
use tzafon_way_point.Dict.{values}
use tzafon_way_point.Manager.World.{World}
use tzafon_way_point.Manager.Apply.{get_instance_description}
use tzafon_way_point.Manager.StatusPage.{
  Browser, Page, format_instance_id, collect, is_browser, create_status_page,
}
use tzafon_way_point.Manager.StatusPage.Single.{Printing, SingleInstancePage, single_page}

-- What the templates make of the pages: an `askama::Error`, as its text, or HTML.
pub record Templates : Type 0 where
  pub single : SingleInstancePage → String ⊎ Text
  pub dashboard : Page → String ⊎ Text

-- `Html(..)`, or the `into_http` of a status
pub data Response : Type 0 where
  html : Text → Response
  failure : Status → Response

-- The deserializer of the query's `instance_id`
unfoldable pub empty_string_as_none : Option Text → Option Text
empty_string_as_none none = none
empty_string_as_none (some []) = none
empty_string_as_none (some (c ∷ s)) = some (c ∷ s)

-- Both ids that a browser's rows show can be cut: computing them does not panic.
abbrev has_labels : Browser → Bool
has_labels b =
    is_some (format_instance_id b.browser_id).label
    && elim b.connected [ none ↦ true | some c ↦ is_some (format_instance_id c.0).label ]

unfoldable pub all_labelled : List Browser → Bool
all_labelled [] = true
all_labelled (b ∷ bs) = has_labels b && all_labelled bs

abbrev pub one_second : ℕ
one_second = 1_000_000_000

-- The `Instant` at which the page was made, in nanoseconds, and the page.
pub record Cache : Type 0 where
  pub made_at : ℕ
  pub page : Text

-- `start_status_page` at an instant
abbrev pub opened_at : ℕ → Cache
opened_at t = record { made_at = t - one_second * 2; page = [] }

module _ (printing : Printing) (templates : Templates) where
  -- What the task of `spawn_blocking` gives: nothing if it fails or panics.
  unfoldable pub make_page : List InstanceDescription → ℕ → Option Text
  make_page ds wall = elim (collect (keep is_browser ds)) [
    | err e ↦ none
    | ok bs ↦
        if all_labelled bs
        then elim (create_status_page ds wall) [
          | err e ↦ none
          | ok page ↦ elim (templates.dashboard page) [ inl e ↦ none | inr text ↦ some text ]
        ]
        else none
  ]

  unfoldable pub handle_get_browser : Text → World → Response
  handle_get_browser id w =
      elim (get_instance_description (some (record { instance_id = id })) w).0 [
        | err e ↦ failure (not_found "Instance not found")
        | ok d ↦ elim (single_page printing d) [
          | none ↦ failure (internal "Internal server error")
          | some page ↦ elim (templates.single page) [
            | inl e ↦ failure (internal e)
            | inr text ↦ html text
          ]
        ]
      ]

  -- The page is made anew if it is older than a second. `now` is the `Instant` that is read under
  -- the lock of the cache, `wall` the time that the page is made for.
  unfoldable pub refresh : ℕ → ℕ → World → Cache → Cache
  refresh now wall w cache =
      if ltb one_second (now - cache.made_at)
      then elim (make_page (values w.instance_description) wall) [
        | none ↦ cache
        | some text ↦ record { made_at = now; page = text }
      ]
      else cache

  unfoldable pub handle_get_browsers : Option Text → ℕ → ℕ → World → Cache → Response × Cache
  handle_get_browsers id now wall w cache = elim (empty_string_as_none id) [
    | some key ↦ (handle_get_browser key w, cache)
    | none ↦ let cache' = refresh now wall w cache in (html cache'.page, cache')
  ]
