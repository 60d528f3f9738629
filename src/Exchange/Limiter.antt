-- ===== src/Exchange/Limiter.antt =====
-- app/exchange/rate_limiter.py: the sliding window of one group, and the limiters of all groups.
-- One round of the loop in `acquire` is one attempt at the time that the clock shows, so a run is
-- a sequence of attempts and blocks; what happens during a sleep comes between two attempts.
use Prim.Native.String.{◌∷◌ as ◌∷c◌, [] as no_text}
use upbit_auto_trader.Prelude.{
  ℕ, ◌-◌, String, Bool, true, false, ◌&&◌, Option, none, some, List, [], ◌∷◌, ◌++◌, length, ltb,
  str_eq, or_else, if◌then◌else◌,
}
use upbit_auto_trader.Float.{Float, ◌⊕◌, ◌⊖◌, nil, one, max}
use upbit_auto_trader.Dict
use upbit_auto_trader.Dict.{Dict}

-- `text.startswith(prefix)`, with the prefix first
unfoldable pub starts_with : String → String → Bool
starts_with no_text s = true
starts_with (c ∷c p) no_text = false
starts_with (c ∷c p) (d ∷c s) =
    let rest = starts_with p s in str_eq (c ∷c no_text) (d ∷c no_text) && rest

-- `rate_limit_group_for`. `upper` and `lower` are the methods of texts.
unfoldable pub rate_limit_group_for : (upper lower : String → String) → String → String → String
unfolding starts_with
rate_limit_group_for upper lower method path =
    let m = upper method in
    let p = lower path in
    if starts_with "/v1/market" p
    then "market"
    else if starts_with "/v1/candles" p
    then "candle"
    else if starts_with "/v1/trades" p
    then "trade"
    else if starts_with "/v1/ticker" p
    then "ticker"
    else if starts_with "/v1/orderbook" p
    then "orderbook"
    else if starts_with "/v1/orders/test" p
    then "order-test"
    else if starts_with "/v1/orders/open" p && str_eq m "DELETE"
    then "order-cancel-all"
    else if starts_with "/v1/orders/cancel_and_new" p
    then "order"
    else if str_eq p "/v1/orders" && str_eq m "POST"
    then "order"
    else "default"

module _ ⦃fl : Float⦄ where
  pub record RateLimitRule : Type 0 where
    pub group : String
    pub max_requests : ℕ
    pub per_seconds : fl.Num

  abbrev pub rule : String → ℕ → fl.Num → RateLimitRule
  rule group max_requests per_seconds = record {
    group = group;
    max_requests = max_requests;
    per_seconds = per_seconds;
  }

  -- `RATE_LIMIT_RULES`
  abbrev pub rate_limit_rules : Dict RateLimitRule
  rate_limit_rules =
      ("market", rule "market" 10 one)
      ∷ ("candle", rule "candle" 10 one)
      ∷ ("trade", rule "trade" 10 one)
      ∷ ("ticker", rule "ticker" 10 one)
      ∷ ("orderbook", rule "orderbook" 10 one)
      ∷ ("default", rule "default" 30 one)
      ∷ ("order", rule "order" 12 one)
      ∷ ("order-test", rule "order-test" 8 one)
      ∷ ("order-cancel-all", rule "order-cancel-all" 1 (fl.number 2 0))
      ∷ []

  pub record SlidingWindowLimiter : Type 0 where
    pub rule_of : RateLimitRule
    pub limit : ℕ
    pub events : List fl.Num
    pub blocked_until : fl.Num

  unfoldable pub new_limiter : RateLimitRule → ℕ → SlidingWindowLimiter
  new_limiter r safety_margin = record {
    rule_of = r;
    limit =
        if ltb safety_margin r.max_requests then r.max_requests - safety_margin else r.max_requests;
    events = [];
    blocked_until = nil;
  }

  -- `_evict`, on the times, the oldest first.
  unfoldable pub evicted : fl.Num → fl.Num → List fl.Num → List fl.Num
  evicted now per [] = []
  evicted now per (e ∷ es) =
      let rest = evicted now per es in if fl.le per (now ⊖ e) then rest else e ∷ es

  unfoldable pub evict : fl.Num → SlidingWindowLimiter → SlidingWindowLimiter
  unfolding evicted
  evict now l = record l { events = evicted now l.rule_of.per_seconds l.events }

  -- `used`, which evicts as well.
  unfoldable pub used : fl.Num → SlidingWindowLimiter → ℕ × SlidingWindowLimiter
  unfolding evict
  used now l = let l' = evict now l in (length l'.events, l')

  -- One round of `acquire`: the request is let through, or has to wait for so long.
  pub data Attempt : Type 0 where
    granted : Attempt
    delayed : fl.Num → Attempt

  -- `per_seconds - (now - events[0])`; there is a first one wherever the limit is not 0.
  unfoldable pub until_oldest : fl.Num → fl.Num → List fl.Num → fl.Num
  until_oldest now per [] = nil
  until_oldest now per (e ∷ es) = per ⊖ (now ⊖ e)

  unfoldable pub attempt : fl.Num → SlidingWindowLimiter → Attempt × SlidingWindowLimiter
  unfolding evict until_oldest
  attempt now l =
      let l' = evict now l in
      let pause = until_oldest now l.rule_of.per_seconds l'.events in
      elim (fl.lt now l'.blocked_until) [
        | true ↦ (delayed (max (l'.blocked_until ⊖ now) (fl.number 1 3)), l')
        | false ↦ elim (ltb (length l'.events) l'.limit) [
          | true ↦ (granted, record l' { events = l'.events ++ now ∷ [] })
          | false ↦ (delayed (max pause (fl.number 1 3)), l')
        ]
      ]

  unfoldable pub block_for : fl.Num → fl.Num → SlidingWindowLimiter → SlidingWindowLimiter
  block_for now seconds l = record l { blocked_until = max l.blocked_until (now ⊕ seconds) }

  pub record RateLimiter : Type 0 where
    pub rules : Dict RateLimitRule
    pub safety_margin : ℕ
    pub exhausted_cooldown : fl.Num
    pub limiters : Dict SlidingWindowLimiter

  -- `limiter(group)`: the limiter, made at the first use.
  unfoldable pub limiter_of : String → RateLimiter → SlidingWindowLimiter × RateLimiter
  unfolding new_limiter
  limiter_of group m = elim (Dict.lookup group m.limiters) [
    | some l ↦ (l, m)
    | none ↦
        let r = or_else (Dict.lookup group m.rules) (rule group 10 one) in
        let l = new_limiter r m.safety_margin in
        (l, record m { limiters = Dict.insert group l m.limiters })
  ]

  -- The manager with the limiter of the group changed in place.
  abbrev put_limiter : String → SlidingWindowLimiter → RateLimiter → RateLimiter
  put_limiter group l m = record m { limiters = Dict.insert group l m.limiters }

  -- One round of `acquire(group)`.
  unfoldable pub attempt_group : String → fl.Num → RateLimiter → Attempt × RateLimiter
  unfolding limiter_of attempt
  attempt_group group now m =
      let (l, m') = limiter_of group m in
      let (a, l') = attempt now l in (a, put_limiter group l' m')

  unfoldable pub penalize : String → fl.Num → fl.Num → RateLimiter → RateLimiter
  unfolding limiter_of block_for
  penalize group now seconds m =
      let (l, m') = limiter_of group m in put_limiter group (block_for now seconds l) m'

  -- `RemainingReq`, the fields that are read. The number may be missing or negative.
  pub record RemainingReq : Type 0 where
    pub group : String
    pub exhausted : Bool

  -- `update_from_headers` on a header that was read; `exhausted`: a number of at most 0 is there.
  unfoldable pub update_from_headers : Option RemainingReq → fl.Num → RateLimiter → RateLimiter
  unfolding penalize
  update_from_headers none now m = m
  update_from_headers (some r) now m =
      if r.exhausted then penalize r.group now m.exhausted_cooldown m else m
