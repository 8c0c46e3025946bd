-- ===== src/Container/Tasks.antt =====
-- apps/rust-instance-container: the tasks of a running container and the token that they share. They are
-- started in browser/chrome.rs, browser/tzafonwright.rs, browser/main.rs, and in utils.rs,
-- metrics/mod.rs and socket_gateway/simple_gateway.rs of apps/rust-shared/src.
pub mod Shutdown
use tzafon_way_point.Prelude.{◌≡◌, Bool, true, false}

pub data Life : Type 0 where
  running ended : Life

-- The accept loop: at its `select!`, waiting for the head of a request, or over.
pub data Gate : Type 0 where
  selecting waiting closed : Gate

pub record Program : Type 0 where
  pub token_cancelled : Bool
  pub chrome : Life
  pub tzafonwright : Life
  pub gateway : Gate
  pub heart_beat : Life
  pub metrics : Life
  pub main : Life

-- When `main` waits for the token
abbrev pub launched : Program
launched = record {
  token_cancelled = false;
  chrome = running;
  tzafonwright = running;
  gateway = selecting;
  heart_beat = running;
  metrics = running;
  main = running;
}

-- The task that watches a child: the child exits, or the token is cancelled and it is killed.
-- A step of a task says what becomes of the token and of the task.
pub data ChildStep (token : Bool) (l : Life) : Bool → Life → Type 0 where
  exits : l ≡ running → ChildStep token l true ended
  killed : l ≡ running → token ≡ true → ChildStep token l token ended

-- The loop of the gateway: a client is accepted, its head ends, the listener fails, or the token is
-- cancelled. It looks at the token in its `select!` only, and cancels it at its end.
pub data GatewayStep (token : Bool) (g : Gate) : Bool → Gate → Type 0 where
  accepts : g ≡ selecting → GatewayStep token g token waiting
  head_ends : g ≡ waiting → GatewayStep token g token selecting
  listener_fails : g ≡ selecting → GatewayStep token g true closed
  cancelled : g ≡ selecting → token ≡ true → GatewayStep token g true closed

-- The heart beat, which cancels the token at its end too
pub data BeatStep (token : Bool) (l : Life) : Bool → Life → Type 0 where
  gives_up : l ≡ running → BeatStep token l true ended
  cancelled : l ≡ running → token ≡ true → BeatStep token l true ended

-- The loop of the metrics, which leaves the token alone, also when `spawn_blocking(read_stats).await?`
-- ends it
pub data MetricsStep (token : Bool) (l : Life) : Bool → Life → Type 0 where
  fails : l ≡ running → MetricsStep token l token ended
  cancelled : l ≡ running → token ≡ true → MetricsStep token l token ended

-- What may happen next: a task moves, or `main` has waited for the token and returns.
pub data Step (p : Program) : Program → Type 0 where
  chrome_moves :
      {t : Bool} {l : Life}
      → ChildStep p.token_cancelled p.chrome t l
      → Step p (record p { chrome = l; token_cancelled = t })
  tzafonwright_moves :
      {t : Bool} {l : Life}
      → ChildStep p.token_cancelled p.tzafonwright t l
      → Step p (record p { tzafonwright = l; token_cancelled = t })
  gateway_moves :
      {t : Bool} {g : Gate}
      → GatewayStep p.token_cancelled p.gateway t g
      → Step p (record p { gateway = g; token_cancelled = t })
  heart_beat_moves :
      {t : Bool} {l : Life}
      → BeatStep p.token_cancelled p.heart_beat t l
      → Step p (record p { heart_beat = l; token_cancelled = t })
  metrics_moves :
      {t : Bool} {l : Life}
      → MetricsStep p.token_cancelled p.metrics t l
      → Step p (record p { metrics = l; token_cancelled = t })
  main_returns : p.token_cancelled ≡ true → Step p (record p { main = ended })

-- Any number of steps. The runtime is dropped with `main`, and the children with it (`kill_on_drop`), so
-- nothing follows its return.
pub data Run (p : Program) : Program → Type 0 where
  here : Run p p
  next : {q r : Program} → Run p q → q.main ≡ running → Step q r → Run p r
