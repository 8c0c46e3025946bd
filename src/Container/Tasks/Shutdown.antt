-- ===== src/Container/Tasks/Shutdown.antt =====
-- When the container shuts down, and that it can.
use tzafon_way_point.Prelude.{◌≡◌, refl, ◌⊎◌, inl, inr, true, false, arith, Bool-cases}
use tzafon_way_point.Container.Tasks.{
  Life, running, ended, Gate, selecting, waiting, closed, Program, launched, ChildStep, GatewayStep,
  BeatStep, MetricsStep, Step, chrome_moves, tzafonwright_moves, gateway_moves, heart_beat_moves,
  metrics_moves, main_returns, Run, here, next,
}

-- A task whose end the others have to learn of has ended.
abbrev pub HasEnded : Program → Type 0
HasEnded p =
    (p.chrome ≡ ended)
    ⊎ ((p.tzafonwright ≡ ended) ⊎ ((p.gateway ≡ closed) ⊎ (p.heart_beat ≡ ended)))

pub record IsWatched (p : Program) : Type 0 where
  pub told : HasEnded p → p.token_cancelled ≡ true
  pub caused : p.token_cancelled ≡ true → HasEnded p
  pub waits : p.main ≡ ended → p.token_cancelled ≡ true

launched-IsWatched : IsWatched launched
launched-IsWatched = record {
  told = λ h. elim h [
    | inl e ↦ absurd (ground (arith, e))
    | inr (inl e) ↦ absurd (ground (arith, e))
    | inr (inr (inl e)) ↦ absurd (ground (arith, e))
    | inr (inr (inr e)) ↦ absurd (ground (arith, e))
  ];
  caused = λ e. absurd (ground (arith, e));
  waits = λ e. absurd (ground (arith, e));
}

-- The loop goes between its two places.
gate_moves :
    (p : Program) (g : Gate)
    → (p.gateway ≡ closed → ⊥)
    → (g ≡ closed → ⊥)
    → IsWatched p
    → IsWatched (record p { gateway = g })
gate_moves p g was is w = record {
  told = λ h. w.told (elim h [
    | inl e ↦ inl e
    | inr (inl e) ↦ inr (inl e)
    | inr (inr (inl e)) ↦ absurd (is e)
    | inr (inr (inr e)) ↦ inr (inr (inr e))
  ]);
  caused = λ c. elim (w.caused c) [
    | inl e ↦ inl e
    | inr (inl e) ↦ inr (inl e)
    | inr (inr (inl e)) ↦ absurd (was e)
    | inr (inr (inr e)) ↦ inr (inr (inr e))
  ];
  waits = w.waits;
}

-- A task that is watched ends, and the token is cancelled.
tells : {q : Program} → q.token_cancelled ≡ true → HasEnded q → IsWatched q
tells c e = record { told = λ h. c; caused = λ _. e; waits = λ m. c }

Step-IsWatched : {p q : Program} → Step p q → IsWatched p → IsWatched q
Step-IsWatched (chrome_moves (ChildStep.exits e)) w = tells refl (inl refl)
Step-IsWatched (chrome_moves (ChildStep.killed e c)) w = tells c (inl refl)
Step-IsWatched (tzafonwright_moves (ChildStep.exits e)) w = tells refl (inr (inl refl))
Step-IsWatched (tzafonwright_moves (ChildStep.killed e c)) w = tells c (inr (inl refl))
Step-IsWatched {p} (gateway_moves (GatewayStep.accepts e)) w =
    gate_moves p waiting (λ z. absurd (ground (arith, e, z))) (λ z. absurd (ground (arith, z))) w
Step-IsWatched {p} (gateway_moves (GatewayStep.head_ends e)) w =
    gate_moves p selecting (λ z. absurd (ground (arith, e, z))) (λ z. absurd (ground (arith, z))) w
Step-IsWatched (gateway_moves (GatewayStep.listener_fails e)) w = tells refl (inr (inr (inl refl)))
Step-IsWatched (gateway_moves (GatewayStep.cancelled e c)) w = tells refl (inr (inr (inl refl)))
Step-IsWatched (heart_beat_moves (BeatStep.gives_up e)) w = tells refl (inr (inr (inr refl)))
Step-IsWatched (heart_beat_moves (BeatStep.cancelled e c)) w = tells refl (inr (inr (inr refl)))
Step-IsWatched (metrics_moves (MetricsStep.fails e)) w = record {
  told = w.told;
  caused = w.caused;
  waits = w.waits;
}
Step-IsWatched (metrics_moves (MetricsStep.cancelled e c)) w = record {
  told = w.told;
  caused = w.caused;
  waits = w.waits;
}
Step-IsWatched (main_returns c) w = record { told = w.told; caused = w.caused; waits = λ m. c }

Run-IsWatched : {q : Program} → Run launched q → IsWatched q
Run-IsWatched here = launched-IsWatched
Run-IsWatched (next r m s) = Step-IsWatched s (Run-IsWatched r)

-- What has ended stays so, and `main` goes on waiting.
record Onward (p q : Program) : Type 0 where
  chrome : p.chrome ≡ ended → q.chrome ≡ ended
  tzafonwright : p.tzafonwright ≡ ended → q.tzafonwright ≡ ended
  gateway : p.gateway ≡ closed → q.gateway ≡ closed
  heart_beat : p.heart_beat ≡ ended → q.heart_beat ≡ ended
  metrics : p.metrics ≡ ended → q.metrics ≡ ended

-- The token is cancelled, and `main` has not seen it yet.
abbrev IsStopping : Program → Type 0
IsStopping p = (p.token_cancelled ≡ true) × (p.main ≡ running)

-- A way on from such a state to one where something more holds
abbrev Way : Program → (Program → Type 0) → Type 0
Way p P = (q : Program) × Run p q × Onward p q × IsStopping q × P q

Run-trans : {p q r : Program} → Run p q → Run q r → Run p r
Run-trans a here = a
Run-trans a (next b m s) = next (Run-trans a b) m s

Life-cases : (l : Life) → (l ≡ running) ⊎ (l ≡ ended)
Life-cases running = inl refl
Life-cases ended = inr refl

Gate-cases : (g : Gate) → (g ≡ selecting) ⊎ ((g ≡ waiting) ⊎ (g ≡ closed))
Gate-cases selecting = inl refl
Gate-cases waiting = inr (inl refl)
Gate-cases closed = inr (inr refl)

stay : (p : Program) → Onward p p
stay p = record {
  chrome = λ e. e;
  tzafonwright = λ e. e;
  gateway = λ e. e;
  heart_beat = λ e. e;
  metrics = λ e. e;
}

end_chrome : (p : Program) → IsStopping p → Way p (λ q. q.chrome ≡ ended)
end_chrome p (c, m) = elim (Life-cases p.chrome) [
  | inr e ↦ (p, here, stay p, (c, m), e)
  | inl e ↦ (
    record p { chrome = ended },
    next here m (chrome_moves (ChildStep.killed e c)),
    record {
      chrome = λ _. refl;
      tzafonwright = λ z. z;
      gateway = λ z. z;
      heart_beat = λ z. z;
      metrics = λ z. z;
    },
    (c, m),
    refl,
  )
]

end_tzafonwright : (p : Program) → IsStopping p → Way p (λ q. q.tzafonwright ≡ ended)
end_tzafonwright p (c, m) = elim (Life-cases p.tzafonwright) [
  | inr e ↦ (p, here, stay p, (c, m), e)
  | inl e ↦ (
    record p { tzafonwright = ended },
    next here m (tzafonwright_moves (ChildStep.killed e c)),
    record {
      chrome = λ z. z;
      tzafonwright = λ _. refl;
      gateway = λ z. z;
      heart_beat = λ z. z;
      metrics = λ z. z;
    },
    (c, m),
    refl,
  )
]

end_heart_beat : (p : Program) → IsStopping p → Way p (λ q. q.heart_beat ≡ ended)
end_heart_beat p (c, m) = elim (Life-cases p.heart_beat) [
  | inr e ↦ (p, here, stay p, (c, m), e)
  | inl e ↦ (
    record p { heart_beat = ended; token_cancelled = true },
    next here m (heart_beat_moves (BeatStep.cancelled e c)),
    record {
      chrome = λ z. z;
      tzafonwright = λ z. z;
      gateway = λ z. z;
      heart_beat = λ _. refl;
      metrics = λ z. z;
    },
    (refl, m),
    refl,
  )
]

end_metrics : (p : Program) → IsStopping p → Way p (λ q. q.metrics ≡ ended)
end_metrics p (c, m) = elim (Life-cases p.metrics) [
  | inr e ↦ (p, here, stay p, (c, m), e)
  | inl e ↦ (
    record p { metrics = ended },
    next here m (metrics_moves (MetricsStep.cancelled e c)),
    record {
      chrome = λ z. z;
      tzafonwright = λ z. z;
      gateway = λ z. z;
      heart_beat = λ z. z;
      metrics = λ _. refl;
    },
    (c, m),
    refl,
  )
]

-- From its `select!`
gateway_closes :
    (p : Program) → IsStopping p → p.gateway ≡ selecting → Way p (λ q. q.gateway ≡ closed)
gateway_closes p (c, m) e = (
  record p { gateway = closed; token_cancelled = true },
  next here m (gateway_moves (GatewayStep.cancelled e c)),
  record {
    chrome = λ z. z;
    tzafonwright = λ z. z;
    gateway = λ _. refl;
    heart_beat = λ z. z;
    metrics = λ z. z;
  },
  (refl, m),
  refl,
)

Onward-trans : {p q r : Program} → Onward p q → Onward q r → Onward p r
Onward-trans a b = record {
  chrome = λ z. b.chrome (a.chrome z);
  tzafonwright = λ z. b.tzafonwright (a.tzafonwright z);
  gateway = λ z. b.gateway (a.gateway z);
  heart_beat = λ z. b.heart_beat (a.heart_beat z);
  metrics = λ z. b.metrics (a.metrics z);
}

-- A loop that waits for a head first gets it, or sees the connection end.
end_gateway : (p : Program) → IsStopping p → Way p (λ q. q.gateway ≡ closed)
end_gateway p (c, m) = elim (Gate-cases p.gateway) [
  | inl e ↦ gateway_closes p (c, m) e
  | inr (inl e) ↦
      let (q, r, o, s, d) = gateway_closes (record p { gateway = selecting }) (c, m) refl in
      (
        q,
        Run-trans (next here m (gateway_moves (GatewayStep.head_ends e))) r,
        Onward-trans (freed e) o,
        s,
        d,
      )
  | inr (inr e) ↦ (p, here, stay p, (c, m), e)
]
  where
    freed : p.gateway ≡ waiting → Onward p (record p { gateway = selecting })
    freed e = record {
      chrome = λ z. z;
      tzafonwright = λ z. z;
      gateway = λ z. absurd (ground (arith, e, z));
      heart_beat = λ z. z;
      metrics = λ z. z;
    }

-- All that the program started is over.
pub record IsOver (p : Program) : Type 0 where
  pub chrome_over : p.chrome ≡ ended
  pub tzafonwright_over : p.tzafonwright ≡ ended
  pub gateway_over : p.gateway ≡ closed
  pub heart_beat_over : p.heart_beat ≡ ended
  pub metrics_over : p.metrics ≡ ended
  pub main_over : p.main ≡ ended

-- Each task in turn, and `main` last
winds_down : (p : Program) → IsStopping p → (q : Program) × Run p q × IsOver q
winds_down p s =
    let (p1, r1, o1, s1, e1) = end_chrome p s in
    let (p2, r2, o2, s2, e2) = end_tzafonwright p1 s1 in
    let (p3, r3, o3, s3, e3) = end_gateway p2 s2 in
    let (p4, r4, o4, s4, e4) = end_heart_beat p3 s3 in
    let (p5, r5, o5, (c, m), e5) = end_metrics p4 s4 in
    (
      record p5 { main = ended },
      next (Run-trans r1 (Run-trans r2 (Run-trans r3 (Run-trans r4 r5)))) m (main_returns c),
      record {
        chrome_over = o5.chrome (o4.chrome (o3.chrome (o2.chrome e1)));
        tzafonwright_over = o5.tzafonwright (o4.tzafonwright (o3.tzafonwright e2));
        gateway_over = o5.gateway (o4.gateway e3);
        heart_beat_over = o5.heart_beat e4;
        metrics_over = e5;
        main_over = refl;
      },
    )

-- Nothing has happened to be told of, and `main` waits; or something has, the token says so, and `main`
-- has returned or can after all the others.
abbrev pub Stage : Program → Type 0
Stage p =
    ((p.token_cancelled ≡ false) × (p.main ≡ running) × (¬ HasEnded p))
    ⊎ ((p.token_cancelled ≡ true)
        × HasEnded p
        × ((p.main ≡ ended) ⊎ ((q : Program) × Run p q × IsOver q)))

-- In every state that the container's tasks come to, in whatever order they move, the token is
-- cancelled exactly when the browser, the automation server, the gateway or the heart beat has
-- ended; until then `main` waits, and from then on it has returned, or there are steps after which every task and then
-- `main` is over.
pub launched-Stage : {p : Program} → Run launched p → Stage p
launched-Stage {p} r =
    let w = Run-IsWatched r in
    elim (Bool-cases p.token_cancelled) [
      | inl c ↦ inr (
        c,
        w.caused c,
        elim (Life-cases p.main) [ inl m ↦ inr (winds_down p (c, m)) | inr m ↦ inl m ],
      )
      | inr c ↦ inl (
        c,
        elim (Life-cases p.main) [ inl m ↦ m | inr m ↦ absurd (ground (arith, c, w.waits m)) ],
        λ h. absurd (ground (arith, c, w.told h)),
      )
    ]
