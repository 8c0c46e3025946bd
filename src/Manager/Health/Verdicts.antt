-- ===== src/Manager/Health/Verdicts.antt =====
-- When an instance is found unhealthy, and what wrap-around makes of times from the future.
use tzafon_way_point.Prelude.{
  ℕ, ◌+◌, ◌-◌, ◌^◌, ◌≤◌, ◌<◌, ◌≡◌, ◌≢◌, ◌∙◌, Option-cases, ◌⊎◌, inl, inr, false, Option, none, some,
  arith, sub64, Bool, ltb, if◌then◌else◌,
}
use tzafon_way_point.Proto.{
  InstanceType, chrome_browser, fake_instance, agent, KillReason, timeout, health_check_failed,
  killed, TimestampMs, InstanceDescription, type_code, type_of_code-type_code,
}
use mathlib.Core.Option
use tzafon_way_point.Manager.Health.{
  chrome_browser_session_lifetime_ms, chrome_browser_timeout_ms, chrome_browser_max_lifetime_ms,
  unhealth_instance, unhealth_typed, unhealth_browser, unhealth_agent, last_activity, session_over,
}

-- Up to `now` there is no wrap-around.
sub64_past : (a b : ℕ) → b ≤ a → a < 2 ^ 64 → sub64 a b ≡ a - b
sub64_past a b h k = omega arith

-- A later time is as far away as 2^64 allows.
sub64_future : (a b : ℕ) → a < b → b < 2 ^ 64 → sub64 a b ≡ 2 ^ 64 + a - b
sub64_future a b h k = omega arith

-- When the session of `d` began, if it is in one that was stamped.
abbrev pub session_start : InstanceDescription → Option ℕ
session_start d = elim d.parent [
  | none ↦ none
  | some p ↦ elim p.timestamp_ms [ none ↦ none | some t ↦ some t.timestamp_ms ]
]

abbrev is_before : Option ℕ → ℕ → Bool
is_before none now = false
is_before (some t) now = ltb t now

-- The reasons to end a browser, in order, over times that do not wrap around.
abbrev pub browser_verdict : Option ℕ → ℕ → ℕ → ℕ → Option KillReason
browser_verdict session last created now =
    if is_before (Option.map (λ t. t + chrome_browser_session_lifetime_ms) session) now
    then some timeout
    else if ltb (last + chrome_browser_timeout_ms) now
    then some health_check_failed
    else if ltb (created + chrome_browser_max_lifetime_ms) now
    then some killed
    else none

abbrev pub IsBrowser : InstanceType → Type 0
IsBrowser kind = (kind ≡ chrome_browser) ⊎ (kind ≡ fake_instance)

unhealth_typed_lem :
    (d : InstanceDescription) (kind : InstanceType) (created : TimestampMs) (now : ℕ)
    → d.instance_type ≡ some (type_code kind)
    → d.created_timestamp_ms ≡ some created
    → unhealth_instance d now ≡ unhealth_typed (some kind) d created now
unfolding unhealth_instance
unhealth_typed_lem d kind created now k c = ground (arith, type_of_code-type_code kind, k, c)

unhealth_browser_lem :
    (d : InstanceDescription) (kind : InstanceType) (created : TimestampMs) (now : ℕ)
    → IsBrowser kind
    → d.instance_type ≡ some (type_code kind)
    → d.created_timestamp_ms ≡ some created
    → unhealth_instance d now ≡ unhealth_browser d created now
unfolding unhealth_typed
unhealth_browser_lem d kind created now (inl b) k c =
    ground (arith, unhealth_typed_lem d kind created now k c, b)
unhealth_browser_lem d kind created now (inr b) k c =
    ground (arith, unhealth_typed_lem d kind created now k c, b)

-- A test of an elapsed time, and the same test over plain times.
late_lem :
    (limit now t : ℕ) → t ≤ now → now < 2 ^ 64 → ltb limit (sub64 now t) ≡ ltb (t + limit) now
late_lem limit now t h k = rw (sub64_past now t h k) (ground arith)

session_lem :
    (d : InstanceDescription) (now : ℕ)
    → now < 2 ^ 64
    → ((t : ℕ) → session_start d ≡ some t → t ≤ now)
    → session_over d now
      ≡ is_before (Option.map (λ t. t + chrome_browser_session_lifetime_ms) (session_start d)) now
session_lem d now bound past = elim (Option-cases d.parent) [
  | inl e ↦ ground (arith, e)
  | inr (p, e) ↦ elim (Option-cases p.timestamp_ms) [
    | inl f ↦ ground (arith, e, f)
    | inr (t, f) ↦
        let started : session_start d ≡ some t.timestamp_ms = ground (arith, e, f) in
        ground (
          arith,
          e,
          f,
          late_lem chrome_browser_session_lifetime_ms now t.timestamp_ms
              (past t.timestamp_ms started) bound,
        )
  ]
]

-- For a browser or fake instance, as long as now is below 2^64 and no time that is compared lies
-- in the future, the verdict of the code is the one over plain times.
pub unhealth-eq-verdict :
    (d : InstanceDescription) (kind : InstanceType) (created : TimestampMs) (now : ℕ)
    → IsBrowser kind
    → d.instance_type ≡ some (type_code kind)
    → d.created_timestamp_ms ≡ some created
    → now < 2 ^ 64
    → created.timestamp_ms ≤ now
    → last_activity d created ≤ now
    → ((t : ℕ) → session_start d ≡ some t → t ≤ now)
    → unhealth_instance d now
      ≡ browser_verdict (session_start d) (last_activity d created) created.timestamp_ms now
unfolding unhealth_browser
unhealth-eq-verdict d kind created now b k c bound past active session =
    unhealth_browser_lem d kind created now b k c
    ∙ rw (
      session_lem d now bound session,
      late_lem chrome_browser_timeout_ms now (last_activity d created) active bound,
      late_lem chrome_browser_max_lifetime_ms now created.timestamp_ms past bound,
    )

-- A browser or fake instance whose last sign of life is later than `now`, by less than 2^64 - 5000
-- ms and below 2^64, and whose session is not over, is to be killed for a failed health check. The
-- kill loop reads its clock before it takes the lock, so a heart beat handled in between is later.
pub future_heartbeat_fails :
    (d : InstanceDescription) (kind : InstanceType) (created : TimestampMs) (now : ℕ)
    → IsBrowser kind
    → d.instance_type ≡ some (type_code kind)
    → d.created_timestamp_ms ≡ some created
    → session_over d now ≡ false
    → now < last_activity d created
    → last_activity d created < 2 ^ 64
    → last_activity d created + chrome_browser_timeout_ms < now + 2 ^ 64
    → unhealth_instance d now ≡ some health_check_failed
unfolding unhealth_browser
future_heartbeat_fails d kind created now b k c session future bound near =
    unhealth_browser_lem d kind created now b k c
    ∙ rw (session, sub64_future now (last_activity d created) future bound) (ground arith)

unhealth_agent-ne-timeout :
    (d : InstanceDescription) (created : TimestampMs) (now : ℕ)
    → unhealth_agent d created now ≢ some timeout
unfolding unhealth_agent
unhealth_agent-ne-timeout d created now = ground arith

-- For an agent, whatever its times are, the verdict is never a timeout.
pub agent-ne-timeout :
    (d : InstanceDescription) (now : ℕ)
    → d.instance_type ≡ some (type_code agent)
    → unhealth_instance d now ≢ some timeout
unfolding unhealth_instance unhealth_typed unhealth_agent
agent-ne-timeout d now k = elim (Option-cases d.created_timestamp_ms) [
  | inl e ↦ ground (arith, e, k)
  | inr (created, e) ↦
      rw (unhealth_typed_lem d agent created now k e) (unhealth_agent-ne-timeout d created now)
]
