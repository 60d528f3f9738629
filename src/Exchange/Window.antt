-- ===== src/Exchange/Window.antt =====
-- app/exchange/rate_limiter.py: a run of one limiter never lets more requests through in a window
-- than the limit, and a block holds.
use upbit_auto_trader.Prelude.{
  ℕ, suc, ◌≤◌, ◌<◌, ◌≡◌, refl, ◌∙◌, true, List, [], ◌∷◌, ◌++◌, arith, ltb, if◌then◌else◌,
}
use mathlib.Core.Path.{subst}
use upbit_auto_trader.Prelude.{length, either, either_known}
use upbit_auto_trader.Float.{Float, ◌⊖◌}
use upbit_auto_trader.Float.Laws.{FloatLaws}
use upbit_auto_trader.Exchange.Limiter.{
  RateLimitRule, SlidingWindowLimiter, new_limiter, evicted, evict, used, Attempt, granted, delayed,
  attempt, block_for,
}

module _ ⦃fl : Float⦄ where
  -- What happens to a limiter, with the time of it.
  pub data Event : Type 0 where
    try_at : fl.Num → Event
    block_at : fl.Num → (seconds : fl.Num) → Event
    look_at : fl.Num → Event

  abbrev pub time_of : Event → fl.Num
  time_of (try_at now) = now
  time_of (block_at now _) = now
  time_of (look_at now) = now

  -- The times of the requests that were let through, the last one first, and the limiter.
  abbrev pub Past : Type 0
  Past = List fl.Num × SlidingWindowLimiter

  abbrev pub noted : fl.Num → List fl.Num → Attempt × SlidingWindowLimiter → Past
  noted now log (granted, l) = (now ∷ log, l)
  noted now log (delayed _, l) = (log, l)

  unfoldable pub happen : Event → Past → Past
  happen (try_at now) p = noted now p.0 (attempt now p.1)
  happen (block_at now seconds) p = (p.0, block_for now seconds p.1)
  happen (look_at now) p = (p.0, (used now p.1).1)

  unfoldable pub go : List Event → Past → Past
  go [] p = p
  go (e ∷ es) p = go es (happen e p)

  -- How many of the earlier times lie less than `per` before `now`.
  unfoldable pub recent : fl.Num → fl.Num → List fl.Num → ℕ
  recent now per [] = 0
  recent now per (t ∷ ts) =
      let rest = recent now per ts in if fl.le per (now ⊖ t) then rest else suc rest

  -- Each request that was let through had fewer than `limit` requests in the window before it.
  abbrev pub Spaced : fl.Num → ℕ → List fl.Num → Type 0
  Spaced per limit [] = Unit {0}
  Spaced per limit (t ∷ ts) = (recent t per ts < limit) × Spaced per limit ts

  -- The times of the events do not go back.
  abbrev pub Ordered : fl.Num → List Event → Type 0
  Ordered since [] = Unit {0}
  Ordered since (e ∷ es) = (fl.le since (time_of e) ≡ true) × Ordered (time_of e) es

  module _ (laws : FloatLaws) where
    -- Seen from `now` or later, no more requests are recent than the limiter remembers.
    abbrev Remembers : fl.Num → Past → Type 0
    Remembers since p =
        (now : fl.Num)
        → fl.le since now ≡ true
        → recent now p.1.rule_of.per_seconds p.0 ≤ recent now p.1.rule_of.per_seconds p.1.events

    recent-bound : (now per : fl.Num) (es : List fl.Num) → recent now per es ≤ length es
    unfolding recent
    recent-bound now per [] = ground arith
    recent-bound now per (e ∷ es) = ground (arith, recent-bound now per es)

    -- What is evicted at one time is not recent at a later one.
    recent-evicted :
        (now later per : fl.Num) (es : List fl.Num)
        → fl.le now later ≡ true
        → recent later per (evicted now per es) ≡ recent later per es
    unfolding recent evicted
    recent-evicted now later per [] h = refl
    recent-evicted now later per (e ∷ es) h = ground (
      arith,
      recent-evicted now later per es,
      laws.sub_mono_left now later e,
      laws.le_trans per (now ⊖ e) (later ⊖ e),
    )

    recent-append :
        (now per t : fl.Num) (es : List fl.Num)
        → recent now per (es ++ t ∷ []) ≡ recent now per (t ∷ es)
    unfolding recent
    recent-append now per t [] = refl
    recent-append now per t (e ∷ es) = ground (arith, recent-append now per t es)

    granted_remembers :
        (later per now : fl.Num) (log kept : List fl.Num)
        → recent later per log ≤ recent later per kept
        → recent later per (now ∷ log) ≤ recent later per (kept ++ now ∷ [])
    unfolding recent
    granted_remembers later per now log kept h = ground (arith, recent-append later per now kept, h)

    abbrev Good : fl.Num → Past → Type 0
    Good since p = Remembers since p × Spaced p.1.rule_of.per_seconds p.1.limit p.0

    -- After an eviction, and later, the limiter remembers as much.
    Remembers-evict :
        (since now : fl.Num) (log : List fl.Num) (l : SlidingWindowLimiter)
        → fl.le since now ≡ true
        → Remembers since (log, l)
        → Remembers now (log, evict now l)
    unfolding evict
    Remembers-evict since now log l h r later k =
        let per = l.rule_of.per_seconds in
        let same = recent-evicted now later per l.events k in
        let known = r later (laws.le_trans since now later h k) in ground (arith, same, known)

    Good-granted :
        (since now : fl.Num) (log : List fl.Num) (l : SlidingWindowLimiter)
        → fl.le since now ≡ true
        → Good since (log, l)
        → ltb (length (evicted now l.rule_of.per_seconds l.events)) l.limit ≡ true
        → Good now (
          now ∷ log,
          record l { events = evicted now l.rule_of.per_seconds l.events ++ now ∷ [] },
        )
    unfolding evict
    Good-granted since now log l h (r, spaced) room =
        let per = l.rule_of.per_seconds in
        let kept = evicted now per l.events in
        let memory = Remembers-evict since now log l h r in
        let bound = recent-bound now per kept in
        let last = memory now (laws.le_refl now) in
        (
          λ later k. granted_remembers later per now log kept (memory later k),
          (ground (arith, bound, last), spaced),
        )

    Good-attempt :
        (since now : fl.Num) (log : List fl.Num) (l : SlidingWindowLimiter)
        → fl.le since now ≡ true
        → Good since (log, l)
        → Good now (noted now log (attempt now l))
    unfolding attempt evict
    Good-attempt since now log l h (r, spaced) =
        let memory = Remembers-evict since now log l h r in
        either (λ z. Good now (noted now log z)) (fl.lt now l.blocked_until) (memory, spaced)
          (either_known (λ z. Good now (noted now log z))
            (ltb (length (evicted now l.rule_of.per_seconds l.events)) l.limit)
            (λ room. Good-granted since now log l h (r, spaced) room) (λ full. (memory, spaced)))

    Good-happen :
        (since : fl.Num) (e : Event) (p : Past)
        → fl.le since (time_of e) ≡ true
        → Good since p
        → Good (time_of e) (happen e p)
    unfolding happen block_for used evict
    Good-happen since (try_at now) p h g = Good-attempt since now p.0 p.1 h g
    Good-happen since (block_at now s) p h (r, spaced) =
        (λ later k. r later (laws.le_trans since now later h k), spaced)
    Good-happen since (look_at now) p h (r, spaced) =
        (Remembers-evict since now p.0 p.1 h r, spaced)

    Good-go :
        (since : fl.Num) (es : List Event) (p : Past)
        → Ordered since es
        → Good since p
        → Spaced (go es p).1.rule_of.per_seconds (go es p).1.limit (go es p).0
    unfolding go
    Good-go since [] p h g = g.1
    Good-go since (e ∷ es) p (now, later) g =
        Good-go (time_of e) es (happen e p) later (Good-happen since e p now g)

    abbrev SameRule : SlidingWindowLimiter → Past → Type 0
    SameRule l p = (p.1.rule_of ≡ l.rule_of) × (p.1.limit ≡ l.limit)

    happen_same : (e : Event) (p : Past) → SameRule p.1 (happen e p)
    unfolding happen attempt block_for used evict
    happen_same (try_at now) p =
        let l = p.1 in
        either (λ z. SameRule l (noted now p.0 z)) (fl.lt now l.blocked_until) (refl, refl)
          (either (λ z. SameRule l (noted now p.0 z))
            (ltb (length (evicted now l.rule_of.per_seconds l.events)) l.limit) (refl, refl)
            (refl, refl))
    happen_same (block_at now s) p = (refl, refl)
    happen_same (look_at now) p = (refl, refl)

    go_same : (es : List Event) (p : Past) → SameRule p.1 (go es p)
    unfolding go
    go_same [] p = (refl, refl)
    go_same (e ∷ es) p =
        let (r, n) = happen_same e p in let (r', n') = go_same es (happen e p) in (r' ∙ r, n' ∙ n)

    -- In a run of a new limiter with times that do not go back, each request that is let through
    -- had fewer than the limit of others in the `per_seconds` before it, whatever blocks and
    -- looks come in between.
    pub go-Spaced :
        (r : RateLimitRule) (margin : ℕ) (start : fl.Num) (es : List Event)
        → Ordered start es
        → Spaced r.per_seconds (new_limiter r margin).limit (go es ([], new_limiter r margin)).0
    unfolding new_limiter recent
    go-Spaced r margin start es h =
        let p = go es ([], new_limiter r margin) in
        let (same, limit) = go_same es ([], new_limiter r margin) in
        let spaced = Good-go start es ([], new_limiter r margin) h ((λ now k. ground arith), tt) in
        subst (λ (x : RateLimitRule). Spaced x.per_seconds (new_limiter r margin).limit p.0) same
          (subst (λ (n : ℕ). Spaced p.1.rule_of.per_seconds n p.0) limit spaced)
