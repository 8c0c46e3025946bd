-- ===== src/Gateway/Listen/Serving.antt =====
-- What becomes of the clients of an HTTP gateway.
use mathlib.Core.Path.{subst}
use tzafon_way_point.Prelude.{
  ℕ, suc, ◌+◌, ◌≡◌, refl, ◌∙◌, sym, ap, inl, inr, Bool, true, false, List, [], ◌∷◌, ◌++◌, Text,
  arith, if◌then◌else◌, Bool-cases,
}
use mathlib.Core.List.{append_assoc, append-nil}
use tzafon_way_point.Gateway.Http.{Result, ok, err}
use tzafon_way_point.Gateway.Rewrite.{HttpProxyConfig, Forwarded, start_http_proxy_connection}
use tzafon_way_point.Gateway.Rewrite.Forward.{IsCleanConfig}
use tzafon_way_point.Gateway.Rewrite.Connection.{Delivers, start_http_proxy_connection-Delivers}
use tzafon_way_point.Gateway.Listen.{
  Client, Arrival, cancelled, listener_closed, accepted, Phase, selecting, waiting, stopped,
  Listener, started, turn, accept_loop, stalls, http_connection,
}

-- The clients before the first that stalls, before the listener closes and before the token is cancelled.
abbrev pub reached : List Arrival → List Client
reached [] = []
reached (cancelled ∷ rest) = []
reached (listener_closed ∷ rest) = []
reached (accepted client ∷ rest) =
    let more = reached rest in if stalls client then [] else client ∷ more

-- What comes first of a client that stalls and an end of the loop, if any comes.
abbrev pub ending : List Arrival → Phase
ending [] = selecting
ending (cancelled ∷ rest) = stopped
ending (listener_closed ∷ rest) = stopped
ending (accepted client ∷ rest) = let more = ending rest in if stalls client then waiting else more

abbrev pub is_stopped : Phase → Bool
is_stopped selecting = false
is_stopped waiting = false
is_stopped stopped = true

-- Each client gets what a connection of its own would get it, from the configuration that the clients
-- before it have left.
abbrev pub AllDelivered :
    HttpProxyConfig → List Client → List (Result Forwarded) → HttpProxyConfig → Type 0
AllDelivered c [] [] c' = c' ≡ c
AllDelivered c (x ∷ xs) (r ∷ rs) c' =
    (next : HttpProxyConfig) × Delivers x.connects c x.bytes (r, next) × AllDelivered next xs rs c'
AllDelivered c [] (r ∷ rs) c' = ⊥
AllDelivered c (x ∷ xs) [] c' = ⊥

-- The connections that reached a server
abbrev pub opened : List (Result Forwarded) → ℕ
opened [] = 0
opened (ok f ∷ rs) = suc (opened rs)
opened (err e ∷ rs) = opened rs

abbrev counted : ℕ → HttpProxyConfig → HttpProxyConfig
counted n c = record c { connection_count = c.connection_count + n }

counted-counted : (a b : ℕ) (c : HttpProxyConfig) → counted b (counted a c) ≡ counted (a + b) c
counted-counted a b c = ap (λ (n : ℕ). record c { connection_count = n }) (omega arith)

counted_zero : (c : HttpProxyConfig) → counted 0 c ≡ c
counted_zero c = ap (λ (n : ℕ). record c { connection_count = n }) (omega arith)

Delivers-counted :
    (connects : Text → Bool) (c : HttpProxyConfig) (bytes : List ℕ) (r : Result Forwarded)
    (c' : HttpProxyConfig)
    → Delivers connects c bytes (r, c')
    → c' ≡ counted (opened (r ∷ [])) c
Delivers-counted connects c bytes (err e) c' (same, why) = same ∙ sym (counted_zero c)
Delivers-counted connects c bytes (ok f) c' (r, i, h, p, up, same) =
    same ∙ ap (λ (n : ℕ). record c { connection_count = n }) (omega arith)

abbrev Loop : Type 0
Loop = Listener HttpProxyConfig (Result Forwarded)

abbrev at_phase : HttpProxyConfig → List (Result Forwarded) → Phase → Loop
at_phase c hs p = record {
  proxy_config = c;
  handled = hs;
  phase = p;
  token_cancelled = is_stopped p;
}

waiting_loop :
    (arrivals : List Arrival) (c : HttpProxyConfig) (hs : List (Result Forwarded))
    → accept_loop http_connection arrivals (at_phase c hs waiting) ≡ at_phase c hs waiting
unfolding accept_loop
waiting_loop [] c hs = refl
waiting_loop (a ∷ rest) c hs = waiting_loop rest c hs

stopped_loop :
    (arrivals : List Arrival) (c : HttpProxyConfig) (hs : List (Result Forwarded))
    → accept_loop http_connection arrivals (at_phase c hs stopped) ≡ at_phase c hs stopped
unfolding accept_loop
stopped_loop [] c hs = refl
stopped_loop (a ∷ rest) c hs = stopped_loop rest c hs

-- The loop from a configuration on, with some connections handled.
abbrev Serves : List Arrival → HttpProxyConfig → List (Result Forwarded) → Loop → Type 0
Serves arrivals c hs l =
    (rs : List (Result Forwarded)) × (c' : HttpProxyConfig) × (l
      ≡ at_phase c' (hs ++ rs) (ending arrivals))
    × AllDelivered c (reached arrivals) rs c'
    × (c' ≡ counted (opened rs) c)

opened-cons :
    (r : Result Forwarded) (rs : List (Result Forwarded))
    → opened (r ∷ []) + opened rs ≡ opened (r ∷ rs)
opened-cons (ok f) rs = omega arith
opened-cons (err e) rs = omega arith

nothing_more :
    (c : HttpProxyConfig) (hs : List (Result Forwarded)) (p : Phase) (l : Loop)
    → l ≡ at_phase c hs p
    → l ≡ at_phase c (hs ++ []) p
nothing_more c hs p l e = rw (append-nil hs) e

turn-stalls :
    (x : Client) (c : HttpProxyConfig) (hs : List (Result Forwarded))
    → stalls x ≡ true
    → turn http_connection (accepted x) (at_phase c hs selecting) ≡ at_phase c hs waiting
unfolding turn http_connection
turn-stalls x c hs e = rw (e, turn, http_connection) refl

turn-accepted :
    (x : Client) (c : HttpProxyConfig) (hs : List (Result Forwarded))
    → stalls x ≡ false
    → turn http_connection (accepted x) (at_phase c hs selecting)
      ≡ at_phase
          (start_http_proxy_connection x.connects c x.bytes).1
          (hs ++ (start_http_proxy_connection x.connects c x.bytes).0 ∷ [])
          selecting
unfolding turn http_connection
turn-accepted x c hs e = rw (e, turn, http_connection) refl

accept_loop-Serves :
    (arrivals : List Arrival) (c : HttpProxyConfig) (hs : List (Result Forwarded))
    → IsCleanConfig c
    → Serves arrivals c hs (accept_loop http_connection arrivals (at_phase c hs selecting))
unfolding accept_loop
accept_loop-Serves [] c hs clean =
    ([], c, nothing_more c hs selecting _ refl, refl, sym (counted_zero c))
accept_loop-Serves (cancelled ∷ rest) c hs clean = (
  [],
  c,
  nothing_more c hs stopped _ (unfold turn in stopped_loop rest c hs),
  refl,
  sym (counted_zero c),
)
accept_loop-Serves (listener_closed ∷ rest) c hs clean = (
  [],
  c,
  nothing_more c hs stopped _ (unfold turn in stopped_loop rest c hs),
  refl,
  sym (counted_zero c),
)
accept_loop-Serves (accepted x ∷ rest) c hs clean = elim (Bool-cases (stalls x)) [
  | inl still ↦
      let e =
        ap (accept_loop http_connection rest) (turn-stalls x c hs still) ∙ waiting_loop rest c hs in
      rw still ([], c, nothing_more c hs waiting _ e, refl, sym (counted_zero c))
  | inr comes ↦
      let (r, next) = start_http_proxy_connection x.connects c x.bytes in
      let d : Delivers x.connects c x.bytes (r, next) =
        start_http_proxy_connection-Delivers x.connects c x.bytes clean in
      let count = Delivers-counted x.connects c x.bytes r next d in
      let (rs, c', e, all, n) =
        accept_loop-Serves rest next (hs ++ r ∷ []) (subst IsCleanConfig (sym count) clean) in
      let ends =
        ap (accept_loop http_connection rest) (turn-accepted x c hs comes)
        ∙ e
        ∙ ap (λ z. at_phase c' z (ending rest)) (append_assoc hs (r ∷ []) rs) in
      let total =
        n
        ∙ ap (counted (opened rs)) count
        ∙ counted-counted (opened (r ∷ [])) (opened rs) c
        ∙ ap (λ z. counted z c) (opened-cons r rs) in
      rw comes (r ∷ rs, c', ends, (next, d, all), total)
]

-- For every configuration with a clean path and clean headers, and whatever comes at the loop: the
-- clients that come before the first that stalls, and before the listener closes or the token is
-- cancelled, are served in turn, each with what a connection of its own delivers, so that a client
-- whose connection fails keeps no other from being served; no client after that is; the connections
-- are counted; and the loop ends, and cancels the token, exactly when the listener closes or the token
-- is cancelled before a client stalls.
pub accept_loop-AllDelivered :
    (arrivals : List Arrival) (c : HttpProxyConfig)
    → IsCleanConfig c
    → let l = accept_loop http_connection arrivals (started c) in
      AllDelivered c (reached arrivals) l.handled l.proxy_config
      × (l.proxy_config ≡ record c { connection_count = c.connection_count + opened l.handled })
      × (l.phase ≡ ending arrivals)
      × (l.token_cancelled ≡ is_stopped (ending arrivals))
accept_loop-AllDelivered arrivals c clean =
    let (rs, c', e, all, n) = accept_loop-Serves arrivals c [] clean in
    subst
      (λ (l : Loop).
        AllDelivered c (reached arrivals) l.handled l.proxy_config
        × (l.proxy_config ≡ record c { connection_count = c.connection_count + opened l.handled })
        × (l.phase ≡ ending arrivals)
        × (l.token_cancelled ≡ is_stopped (ending arrivals)))
      (sym e) (all, n, refl, refl)
