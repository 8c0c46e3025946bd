-- ===== src/Manager/StatusPage/Handlers/Fresh.antt =====
-- The page that is answered is not older than a second.
use tzafon_way_point.Prelude.{ℕ, ◌+◌, ◌*◌, ◌≤◌, ◌≡◌, ◌⊎◌, inr, Option, List, Text}
use tzafon_way_point.Prelude.Status.{Status, ok}
use tzafon_way_point.Proto.{InstanceDescription}
use tzafon_way_point.Dict.{values}
use tzafon_way_point.Manager.World.{World}
use tzafon_way_point.Manager.Lifetime.{Event, serve, serve_all, Reachable, served as reached}
use tzafon_way_point.Manager.StatusPage.{Page, create_status_page}
use tzafon_way_point.Manager.StatusPage.Single.{Printing}
use tzafon_way_point.Manager.StatusPage.Handlers.{
  Templates, one_second, Cache, opened_at, handle_get_browsers,
}

module _ (clock : ℕ → ℕ) (printing : Printing) (templates : Templates) where
  -- The service, the `Instant` that has come, and the cache of the page. Requests to the manager,
  -- visits of the page and the passing of time follow each other in any order.
  pub data History : World → ℕ → Cache → Type 0 where
    opened :
        {w : World} (t : ℕ) → Reachable clock w → one_second * 2 ≤ t → History w t (opened_at t)
    served :
        {w : World} {t : ℕ} {c : Cache}
        → History w t c
        → (e : Event) → History (serve clock w e) t c
    waited : {w : World} {t : ℕ} {c : Cache} → History w t c → (t' : ℕ) → t ≤ t' → History w t' c
    visited :
        {w : World} {t : ℕ} {c : Cache}
        → History w t c
        → (id : Option Text) (wall : ℕ)
        → History w t (handle_get_browsers printing templates id t wall w c).1

  -- The page of some instances at some time.
  abbrev pub IsPage : List InstanceDescription → ℕ → Text → Type 0
  IsPage ds wall text =
      (p : Page) × (create_status_page ds wall ≡ ok p) × (templates.dashboard p ≡ inr text)

  -- The page of a state that the service was in, from which it has come to `w` since.
  pub record IsPageBefore (w : World) (text : Text) : Type 0 where
    pub then_world : World
    pub reachable : Reachable clock then_world
    pub since : List Event
    pub now_world : w ≡ serve_all clock then_world since
    pub wall : ℕ
    pub page : IsPage (values then_world.instance_description) wall text

  -- The cache is as old as when the page was opened, or holds a page that was right at its time.
  abbrev Holds : World → ℕ → Cache → Type 0
  Holds w t c = (c.made_at + one_second * 2 ≤ t) ⊎ ((c.made_at ≤ t) × IsPageBefore w c.page)

  -- A page that was made at most a second ago, of what the service was then.
  pub record IsFresh (w : World) (t : ℕ) (text : Text) : Type 0 where
    pub made_at : ℕ
    pub past : made_at ≤ t
    pub recent : t ≤ made_at + one_second
    pub page : IsPageBefore w text
