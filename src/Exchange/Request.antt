-- ===== src/Exchange/Request.antt =====
-- app/exchange/upbit_client.py: `_request` and `_retry_delay`. The HTTP client is a parameter; its clock
-- and its sleep are those of the limiter. The texts of errors and the signing of a request are left out.
use upbit_auto_trader.Prelude.{
  ℕ, zero, suc, ◌-◌, String, Bool, true, false, ◌&&◌, Option, none, some, str_eq, or_else,
  if◌then◌else◌,
}
use upbit_auto_trader.Float.{Float, ◌⊗◌, one, min, max}
use upbit_auto_trader.Exchange.Errors.{
  ApiErrorClass, rate_limit_error, blocked_error, retryable, make_api_error,
}
use upbit_auto_trader.Exchange.Limiter.{
  granted, delayed, RateLimiter, RemainingReq, attempt_group, penalize, update_from_headers,
}

-- `retry`, where it is not given: only a GET is retried.
unfoldable pub retries_method : Option Bool → String → Bool
retries_method (some retry) method = retry
retries_method none method = str_eq method "GET"

module _ ⦃fl : Float⦄ where
  -- What the HTTP client gives: a success with its body, where it is JSON, an error status with its
  -- `Retry-After`, both with the header on the remaining requests, or no answer.
  pub data Answer (A : Type 0) : Type 0 where
    success : Option RemainingReq → Option A → Answer A
    error_status :
        Option RemainingReq → (status_code : ℕ) → (retry_after : Option fl.Num) → Answer A
    no_answer : Answer A

  -- `UpbitAPIError`, `UpbitNetworkError`, `UpbitResponseError`.
  pub data RequestError : Type 0 where
    api_failure : (status_code : ℕ) (retry_after : Option fl.Num) → RequestError
    network_failure : RequestError
    unreadable : RequestError

  -- `waiting`: the wait for the limiter was cut off, which is not a behaviour of the code.
  pub data Fetched (A : Type 0) : Type 0 where
    fetched : A → Fetched A
    gave_up : RequestError → Fetched A
    waiting : Fetched A

  pub record Http (A : Type 0) : Type 1 where
    pub World : Type 0
    pub clock : World → fl.Num
    pub send : World → Answer A × World
    pub sleep : fl.Num → World → World

  pub record HttpSettings : Type 0 where
    pub max_retries : ℕ
    pub retry_base_delay : fl.Num
    pub blocked_cooldown : fl.Num

  -- `base * 2 ** n`
  unfoldable pub doubled : ℕ → fl.Num → fl.Num
  doubled zero x = x
  doubled (suc n) x = doubled n (x ⊗ fl.number 2 0)

  abbrev pub retry_after_of : RequestError → Option fl.Num
  retry_after_of (api_failure _ after) = after
  retry_after_of network_failure = none
  retry_after_of unreadable = none

  abbrev pub is_rate_limit : RequestError → Bool
  is_rate_limit (api_failure status _) = elim (make_api_error status) [
    | rate_limit_error ↦ true
    | _ ↦ false
  ]
  is_rate_limit network_failure = false
  is_rate_limit unreadable = false

  unfoldable pub retry_delay : HttpSettings → (attempt : ℕ) → RequestError → fl.Num
  unfolding doubled
  retry_delay s attempt e = elim (retry_after_of e) [
    | some after ↦ min (max after (fl.number 1 1)) (fl.number 60 0)
    | none ↦
        if is_rate_limit e
        then one
        else min (doubled (attempt - 1) s.retry_base_delay) (fl.number 8 0)
  ]

  unfoldable pub is_retryable : RequestError → Bool
  is_retryable (api_failure status _) = retryable (make_api_error status)
  is_retryable network_failure = true
  is_retryable unreadable = false

  -- What the class of an error status does to the limiter of the group.
  unfoldable pub punish :
      HttpSettings
      → (group : String) → ApiErrorClass
      → Option fl.Num
      → (now : fl.Num) → RateLimiter
      → RateLimiter
  punish s group rate_limit_error after now l = penalize group now (or_else after one) l
  punish s group blocked_error after now l = penalize group now (or_else after s.blocked_cooldown) l
  punish s group _ after now l = l

  module _ {A : Type 0} (http : Http A) where
    -- What an answer comes to, with the limiter after it.
    unfoldable pub read_answer :
        HttpSettings
        → (group : String) → (now : fl.Num) → Answer A
        → RateLimiter
        → Fetched A × RateLimiter
    unfolding punish
    read_answer s group now (success header (some body)) l =
        (fetched body, update_from_headers header now l)
    read_answer s group now (success header none) l =
        (gave_up unreadable, update_from_headers header now l)
    read_answer s group now (error_status header status after) l = (
      gave_up (api_failure status after),
      punish s group (make_api_error status) after now (update_from_headers header now l),
    )
    read_answer s group now no_answer l = (gave_up network_failure, l)

    -- `acquire(group)`, with so many rounds at most.
    unfoldable pub acquire :
        (fuel : ℕ) (group : String) → RateLimiter × http.World → Option (RateLimiter × http.World)
    acquire zero group st = none
    acquire (suc fuel) group (l, w) =
        let (a, l') = attempt_group group (http.clock w) l in
        let rest = λ (pause : fl.Num). acquire fuel group (l', http.sleep pause w) in
        elim a [ granted ↦ some (l', w) | delayed pause ↦ rest pause ]

    -- One request, from the limiter's leave to its answer.
    unfoldable pub send_once :
        HttpSettings
        → (group : String) → RateLimiter × http.World
        → Fetched A × RateLimiter × http.World
    unfolding read_answer
    send_once s group (l, w) =
        let (answer, w') = http.send w in
        let (out, l') = read_answer s group (http.clock w') answer l in (out, l', w')

    -- Whether the loop goes on after this.
    unfoldable pub tries_again : Bool → Fetched A → Bool
    unfolding is_retryable
    tries_again retry (fetched _) = false
    tries_again retry waiting = false
    tries_again retry (gave_up e) = retry && is_retryable e

    abbrev pub delay_after : HttpSettings → ℕ → Fetched A → fl.Num
    delay_after s attempt (gave_up e) = retry_delay s attempt e
    delay_after s attempt (fetched _) = one
    delay_after s attempt waiting = one

    -- One round of the loop, where `again` is what follows a delay.
    unfoldable pub round :
        (fuel : ℕ)
        → HttpSettings
        → (retry : Bool) (group : String) (attempt : ℕ)
        → (again : RateLimiter × http.World → Fetched A × RateLimiter × http.World)
        → RateLimiter × http.World
        → Fetched A × RateLimiter × http.World
    unfolding acquire send_once tries_again
    round fuel s retry group attempt again st = elim (acquire fuel group st) [
      | none ↦ (waiting, st.0, st.1)
      | some st' ↦
          let (out, l, w) = send_once s group st' in
          elim (tries_again retry out) [
            | true ↦ again (l, http.sleep (delay_after s attempt out) w)
            | false ↦ (out, l, w)
          ]
    ]

    -- The loop from attempt number `attempt` on, of which `left` may follow this one.
    unfoldable pub request_from :
        (fuel : ℕ)
        → HttpSettings
        → (retry : Bool) (group : String) (left attempt : ℕ) → RateLimiter × http.World
        → Fetched A × RateLimiter × http.World
    unfolding round
    request_from fuel s retry group zero attempt st =
        round fuel s false group attempt (λ st'. (waiting, st'.0, st'.1)) st
    request_from fuel s retry group (suc left) attempt st =
        round fuel s retry group attempt (request_from fuel s retry group left (suc attempt)) st

    -- `_request`
    unfoldable pub request :
        (fuel : ℕ)
        → HttpSettings
        → (retry : Option Bool) (method group : String) → RateLimiter × http.World
        → Fetched A × RateLimiter × http.World
    unfolding request_from retries_method
    request fuel s retry method group st =
        request_from fuel s (retries_method retry method) group s.max_retries 1 st
