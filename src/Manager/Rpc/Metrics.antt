-- ===== src/Manager/Rpc/Metrics.antt =====
-- What `post_instance_description` changes.
use mathlib.Core.Path.{subst}
use tzafon_way_point.Prelude.{
  ℕ, ◌≡◌, ◌≢◌, ◌⊎◌, refl, sym, ap, ◌∙◌, inl, inr, Bool, true, false, Option, none, some, arith,
  Bool-cases, Option-cases,
}
use tzafon_way_point.Prelude.Status.{Result, ok, err, invalid_argument}
use tzafon_way_point.Proto.{
  TimestampMs, InstanceId, ProxyMetrics, SystemMetrics, GpuMetrics, LlmMetrics, InstanceDescription,
  default,
}
use tzafon_way_point.Dict.{get, insert, get-insert_self}
use tzafon_way_point.Manager.World.{World}
use tzafon_way_point.Manager.Traits.{
  Entry, update_instance_description, proxy_metrics_entry, system_metrics_entry, gpu_metrics_entry,
  llm_metrics_entry,
}
use tzafon_way_point.Manager.Invariant.{IsValid}
use tzafon_way_point.Manager.Apply.{
  write_fields, adopt_children, join_parent, commit, apply_to_instance_description,
}
use tzafon_way_point.Manager.Apply.Checks.{check_request-Accepted}
use tzafon_way_point.Manager.Apply.Commit.{apply-Decided}
use tzafon_way_point.Manager.Apply.Leases.{written, commit_lem, finish_alive}
use tzafon_way_point.Manager.Rpc.{gated, is_post, post_instance_description}

-- A measurement replaces the one that is there, and is stamped.
abbrev pub stored : {T : Type 0} ⦃e : Entry T⦄ → TimestampMs → Option T → Option T → Option T
stored t none old = old
stored ⦃e⦄ t (some v) old = some (e.set_timestamp v t)

-- The request of a post, and no more than that
abbrev pub post_of :
    InstanceId
    → Option ProxyMetrics
    → Option SystemMetrics
    → Option GpuMetrics
    → Option LlmMetrics
    → InstanceDescription
post_of id p s g l = record default {
  instance_id = some id;
  proxy_metrics = p;
  system_metrics = s;
  gpu_metrics = g;
  llm_metrics = l;
}

is_post-post_of :
    (r : InstanceDescription)
    → is_post r ≡ true
    → (id : InstanceId) × (r
        ≡ post_of id r.proxy_metrics r.system_metrics r.gpu_metrics r.llm_metrics)
is_post-post_of r h = elim (Option-cases r.instance_id) [
  | inl e ↦ absurd (ground (arith, h, e))
  | inr (id, e) ↦ (id, ground (arith, h, e))
]

module _ (clock : ℕ → ℕ) where
  abbrev read_at : ℕ → TimestampMs
  read_at n = record { timestamp_ms = clock n }

  update-proxy :
      (o : Option ProxyMetrics) (x : InstanceDescription × ℕ)
      → (update_instance_description clock o x).0
        ≡ record x.0 { proxy_metrics = stored (read_at x.1) o x.0.proxy_metrics }
  unfolding update_instance_description
  update-proxy none x = refl
  update-proxy (some v) x = refl

  update-system :
      (o : Option SystemMetrics) (x : InstanceDescription × ℕ)
      → (update_instance_description clock o x).0
        ≡ record x.0 { system_metrics = stored (read_at x.1) o x.0.system_metrics }
  unfolding update_instance_description
  update-system none x = refl
  update-system (some v) x = refl

  update-gpu :
      (o : Option GpuMetrics) (x : InstanceDescription × ℕ)
      → (update_instance_description clock o x).0
        ≡ record x.0 { gpu_metrics = stored (read_at x.1) o x.0.gpu_metrics }
  unfolding update_instance_description
  update-gpu none x = refl
  update-gpu (some v) x = refl

  update-llm :
      (o : Option LlmMetrics) (x : InstanceDescription × ℕ)
      → (update_instance_description clock o x).0
        ≡ record x.0 { llm_metrics = stored (read_at x.1) o x.0.llm_metrics }
  unfolding update_instance_description
  update-llm none x = refl
  update-llm (some v) x = refl

-- An instance with the measurements of a request, each with the time of its writing
abbrev pub measured :
    InstanceDescription
    → TimestampMs
    → TimestampMs
    → TimestampMs
    → TimestampMs
    → InstanceDescription
    → InstanceDescription
measured r t u v x d = record d {
  proxy_metrics = stored t r.proxy_metrics d.proxy_metrics;
  system_metrics = stored u r.system_metrics d.system_metrics;
  gpu_metrics = stored v r.gpu_metrics d.gpu_metrics;
  llm_metrics = stored x r.llm_metrics d.llm_metrics;
}

write_fields-measured :
    (clock : ℕ → ℕ) (id : InstanceId) (p : Option ProxyMetrics) (s : Option SystemMetrics)
    (g : Option GpuMetrics) (l : Option LlmMetrics) (d : InstanceDescription) (n : ℕ)
    → (t : TimestampMs) × (u : TimestampMs) × (v : TimestampMs) × (x : TimestampMs) × ((write_fields
          clock
          (post_of id p s g l)
          (d, n)).0
        ≡ measured (post_of id p s g l) t u v x d)
unfolding write_fields update_instance_description
write_fields-measured clock id p s g l d n =
    let x1 = update_instance_description clock p (d, n) in
    let x2 = update_instance_description clock s x1 in
    let x3 = update_instance_description clock g x2 in
    (
      read_at clock n,
      read_at clock x1.1,
      read_at clock x2.1,
      read_at clock x3.1,
      cc (
        update-proxy clock p (d, n),
        update-system clock s x1,
        update-gpu clock g x2,
        update-llm clock l x3,
      ),
    )

-- What a post comes to: nothing, or new measurements of one instance.
abbrev pub Posted : InstanceDescription → World → Result Bool × World → Type 0
Posted r w (res, w') =
    ((res ≢ ok true) × (w' ≡ w))
    ⊎ ((res ≡ ok true)
        × ((id : InstanceId) × (d : InstanceDescription) × (t : TimestampMs) × (u : TimestampMs)
            × (v : TimestampMs) × (x : TimestampMs) × (r.instance_id ≡ some id)
            × (get id.instance_id w.instance_description ≡ some d)
            × (d.kill_instance_request ≡ none)
            × (w'.instance_description
                ≡ insert id.instance_id (measured r t u v x d) w.instance_description)))

commit-Posted :
    (clock : ℕ → ℕ) (id : InstanceId) (p : Option ProxyMetrics) (s : Option SystemMetrics)
    (g : Option GpuMetrics) (l : Option LlmMetrics) (d : InstanceDescription) (w : World)
    → get id.instance_id w.instance_description ≡ some d
    → d.kill_instance_request ≡ none
    → Posted (post_of id p s g l) w (commit clock (post_of id p s g l) id w)
unfolding adopt_children join_parent
commit-Posted clock id p s g l d w there alive =
    let r = post_of id p s g l in
    let (t, u, v, x, e) = write_fields-measured clock id p s g l d w.reads in
    let d1 = (write_fields clock r (d, w.reads)).0 in
    let w1 = written clock r id d w in
    let lives : d1.kill_instance_request ≡ none =
      ap (λ (y : InstanceDescription). y.kill_instance_request) e ∙ alive in
    let done : commit clock r id w ≡ (ok true, w1) =
      commit_lem clock r id d w there
      ∙ finish_alive clock id d1 w1 (get-insert_self id.instance_id d1 w.instance_description)
          lives in
    subst (Posted r w) (sym done) (
      inr (
        refl,
        (
          id,
          d,
          t,
          u,
          v,
          x,
          refl,
          there,
          alive,
          ap (λ y. insert id.instance_id y w.instance_description) e,
        ),
      ))

decided-Posted :
    (clock : ℕ → ℕ) (id : InstanceId) (p : Option ProxyMetrics) (s : Option SystemMetrics)
    (g : Option GpuMetrics) (l : Option LlmMetrics) (w : World)
    → IsValid w
    → Posted (post_of id p s g l) w (apply_to_instance_description clock (post_of id p s g l) w)
decided-Posted clock id p s g l w valid =
    let r = post_of id p s g l in
    elim (apply-Decided clock r w) [
      | inr (res, n, e) ↦ subst (Posted r w) (sym e) (inl (n, refl))
      | inl (id', named, c, e) ↦
          let (d, a) = check_request-Accepted w.instance_description r id' valid.linked c in
          let same : id' ≡ id = ground (arith, named) in
          subst (Posted r w) (sym e) (
            subst (λ i. Posted r w (commit clock r i w)) (sym same)
              (commit-Posted clock id p s g l d w
                (subst (λ (i : InstanceId). get i.instance_id w.instance_description ≡ some d) same
                  a.here)
                a.alive))
    ]

-- In a valid state, and for every request: `post_instance_description` either answers something else than Ok(true)
-- and changes nothing; or it answers Ok(true), the instance that the request names is alive, and all that
-- changes are its measurements: each that the request has is written with a time, the others stay.
pub post_instance_description-Posted :
    (clock : ℕ → ℕ) (r : InstanceDescription) (w : World)
    → IsValid w
    → Posted r w (post_instance_description clock r w)
unfolding post_instance_description
post_instance_description-Posted clock r w valid = elim (Bool-cases (is_post r)) [
  | inr f ↦ subst (Posted r w) (sym (refused f)) (inl ((λ e. cc), refl))
  | inl f ↦
      let (id, shape) = is_post-post_of r f in
      subst (Posted r w) (sym (admitted f)) (
        subst (λ q. Posted q w (apply_to_instance_description clock q w)) (sym shape)
          (decided-Posted clock id r.proxy_metrics r.system_metrics r.gpu_metrics r.llm_metrics w
            valid))
]
  where
    refused :
        is_post r ≡ false
        → post_instance_description clock r w ≡ (err (invalid_argument "Invalid request"), w)
    refused f = ap (λ b. gated b (apply_to_instance_description clock r) w) f

    admitted :
        is_post r ≡ true
        → post_instance_description clock r w ≡ apply_to_instance_description clock r w
    admitted f = ap (λ b. gated b (apply_to_instance_description clock r) w) f
