-- ===== src/Exchange/Examples.antt =====
-- Tests of the rate limiter, and its theorem at a concrete input.
use upbit_auto_trader.Prelude.{◌≡◌, refl, List, [], ◌∷◌}
use upbit_auto_trader.Prelude.Int.{◌+ℤ◌, ◌-ℤ◌}
use upbit_auto_trader.Float.Fixed.{fixed, fixed-FloatLaws}
use upbit_auto_trader.Exchange.Request.{no_answer, Http, HttpSettings, retries_method, request}
use upbit_auto_trader.Exchange.Sends.{Counts, request_sends}
use upbit_auto_trader.Exchange.Limiter.{
  RateLimiter, rule, RateLimitRule, new_limiter, attempt, evict, evicted, until_oldest, block_for,
  used, rate_limit_group_for, starts_with,
}
use upbit_auto_trader.Prelude.{none, suc, ◌+◌, ◌≤◌, String, str_eq, ℕ, if◌then◌else◌}
use upbit_auto_trader.Exchange.Interval.{
  CandleInterval, s1, m1, m3, m5, m10, m15, m30, m60, m240, d1, w1, mon1, y1, value, lower_value,
}
use upbit_auto_trader.Exchange.Window.{
  Event, try_at, block_at, look_at, go, happen, Spaced, go-Spaced,
}

-- An exchange that never answers; the world is the number of requests, and no time passes.
abbrev dead : Http ℕ
dead = record {
  World = ℕ;
  clock = λ n. fixed.number 100 0;
  send = λ n. (no_answer, suc n);
  sleep = λ d n. n;
}

abbrev sent : ℕ → ℕ
sent n = n

abbrev http_settings : HttpSettings
http_settings = record {
  max_retries = 3;
  retry_base_delay = fixed.number 5 1;
  blocked_cooldown = fixed.number 60 0;
}

abbrev fresh_limiter : RateLimiter
fresh_limiter = record {
  rules = [];
  safety_margin = 0;
  exhausted_cooldown = fixed.number 1 0;
  limiters = [];
}

dead-Counts : Counts dead sent
dead-Counts = record { one_more = λ w. refl; none_more = λ d w. refl }

request_sends_example :
    (request dead 9 http_settings none "POST" "order" (fresh_limiter, 0)).2 ≤ 1 + 0
unfolding retries_method
request_sends_example =
    request_sends dead sent dead-Counts 9 http_settings none "POST" "order" (fresh_limiter, 0)

-- `strip` and `lower`, as far as the values of the intervals go.
abbrev keep_text : String → String
keep_text t = t

abbrev lower_month : String → String
lower_month t = if str_eq t "1M" then "1m" else t

keeps_value : (i : CandleInterval) → keep_text (value i) ≡ value i
keeps_value i = refl

lowers_value : (i : CandleInterval) → lower_month (value i) ≡ lower_value i
unfolding value
lowers_value s1 = refl
lowers_value m1 = refl
lowers_value m3 = refl
lowers_value m5 = refl
lowers_value m10 = refl
lowers_value m15 = refl
lowers_value m30 = refl
lowers_value m60 = refl
lowers_value m240 = refl
lowers_value d1 = refl
lowers_value w1 = refl
lowers_value mon1 = refl
lowers_value y1 = refl

abbrev two_in_one : RateLimitRule
two_in_one = rule "order" 3 (fixed.number 1 0)

-- Two requests at once, a third that is early, a block, and a fourth after it.
abbrev events : List Event
events =
    try_at (fixed.number 100 0)
    ∷ try_at (fixed.number 1001 1)
    ∷ try_at (fixed.number 1002 1)
    ∷ block_at (fixed.number 1003 1) (fixed.number 1 0)
    ∷ try_at (fixed.number 1012 1)
    ∷ look_at (fixed.number 1012 1)
    ∷ try_at (fixed.number 1014 1)
    ∷ []

events_pass :
    (go events ([], new_limiter two_in_one 1)).0
    ≡ fixed.number 1014 1 ∷ fixed.number 1001 1 ∷ fixed.number 100 0 ∷ []
unfolding go happen new_limiter attempt evict evicted until_oldest block_for used ◌+ℤ◌ ◌-ℤ◌
events_pass = refl

order_group : rate_limit_group_for (λ m. m) (λ p. p) "POST" "/v1/orders" ≡ "order"
unfolding rate_limit_group_for starts_with
order_group = refl

go-Spaced_example :
    Spaced
      (fixed.number 1 0)
      (new_limiter two_in_one 1).limit
      (go events ([], new_limiter two_in_one 1)).0
go-Spaced_example =
    go-Spaced fixed-FloatLaws two_in_one 1 (fixed.number 0 0) events
      (refl, (refl, (refl, (refl, (refl, (refl, (refl, tt)))))))

abbrev unavailable : ℕ
unavailable = 503
