-- ===== src/Exchange/Sends.antt =====
-- app/exchange/upbit_client.py: how often `_request` sends a request.
use mathlib.Core.Path.{subst}
use mathlib.Core.Bool.{false≢true}
use upbit_auto_trader.Prelude.{
  ℕ, zero, suc, ◌+◌, ◌≤◌, String, ◌≡◌, refl, ap, ◌∙◌, Bool, true, false, Option, none, some, arith,
  either_known, either_option_known, if◌then◌else◌,
}
use upbit_auto_trader.Float.{Float}
use upbit_auto_trader.Exchange.Limiter.{Attempt, granted, delayed, RateLimiter, attempt_group}
use upbit_auto_trader.Exchange.Request.{
  Fetched, fetched, gave_up, waiting, Http, HttpSettings, retries_method, acquire, send_once,
  tries_again, delay_after, round, request_from, request,
}

module _ ⦃fl : Float⦄ {A : Type 0} (http : Http A) (sent : http.World → ℕ) where
  -- `sent` counts the requests: a send is one more, and a wait is none.
  pub record Counts : Type 0 where
    pub one_more : (w : http.World) → sent (http.send w).1 ≡ suc (sent w)
    pub none_more : (d : fl.Num) (w : http.World) → sent (http.sleep d w) ≡ sent w

  abbrev State : Type 0
  State = RateLimiter × http.World

  abbrev Out : Type 0
  Out = Fetched A × RateLimiter × http.World

  -- The limiter lets the request through with no request sent.
  abbrev Waited : ℕ → Option State → Type 0
  Waited n none = Unit {0}
  Waited n (some st) = sent st.1 ≡ n

  granted-Waited :
      (a : Attempt) (n : ℕ) (x : Option State) (f : fl.Num → Option State)
      → Waited n x
      → ((d : fl.Num) → Waited n (f d))
      → Waited n (elim a as (λ _. Option State) [ granted ↦ x | delayed d ↦ f d ])
  granted-Waited granted n x f h k = h
  granted-Waited (delayed d) n x f h k = k d

  acquire-Waited :
      Counts
      → (fuel : ℕ) (group : String) (l : RateLimiter) (w : http.World) (n : ℕ) → sent w ≡ n
      → Waited n (acquire http fuel group (l, w))
  unfolding acquire
  acquire-Waited counts zero group l w n h = tt
  acquire-Waited counts (suc fuel) group l w n h =
      let (a, l') = attempt_group group (http.clock w) l in
      granted-Waited a n (some (l', w)) (λ d. acquire http fuel group (l', http.sleep d w)) h
        (λ d. acquire-Waited counts fuel group l' (http.sleep d w) n (counts.none_more d w ∙ h))

  abbrev AtMost : ℕ → Out → Type 0
  AtMost n out = sent out.2 ≤ n

  send_once-sent :
      Counts
      → (s : HttpSettings) (group : String) (st : State)
      → sent (send_once http s group st).2 ≡ suc (sent st.1)
  unfolding send_once
  send_once-sent counts s group (l, w) = counts.one_more w

  retry_needed : (retry : Bool) (out : Fetched A) → tries_again http retry out ≡ true → retry ≡ true
  unfolding tries_again
  retry_needed true out h = refl
  retry_needed false (fetched x) h = h
  retry_needed false (gave_up e) h = h
  retry_needed false waiting h = h

  round-sent :
      Counts
      → (fuel : ℕ) (s : HttpSettings) (retry : Bool) (group : String) (attempt : ℕ)
        (again : State → Out) (st : State) (n : ℕ)
      → suc (sent st.1) ≤ n
      → (retry ≡ true → (st' : State) → sent st'.1 ≡ suc (sent st.1) → AtMost n (again st'))
      → AtMost n (round http fuel s retry group attempt again st)
  unfolding round
  round-sent counts fuel s retry group attempt again (l, w) n most more =
      either_option_known (AtMost n) (acquire http fuel group (l, w)) (λ cut. ground arith)
        (λ st' leave.
          let same : sent st'.1 ≡ sent w =
            subst (Waited (sent w)) leave (acquire-Waited counts fuel group l w (sent w) refl) in
          let (out, l2, w2) = send_once http s group st' in
          let once : sent w2 ≡ suc (sent st'.1) = send_once-sent counts s group st' in
          either_known (AtMost n) (tries_again http retry out)
            (λ on.
              more (retry_needed retry out on) (l2, http.sleep (delay_after http s attempt out) w2)
                (counts.none_more _ w2 ∙ once ∙ ap suc same))
            (λ over. ground arith))

  request_from-sent :
      Counts
      → (fuel : ℕ) (s : HttpSettings) (retry : Bool) (group : String) (left attempt : ℕ)
        (st : State)
      → AtMost
          ((if retry then suc left else 1) + sent st.1)
          (request_from http fuel s retry group left attempt st)
  unfolding request_from
  request_from-sent counts fuel s retry group zero attempt st =
      round-sent counts fuel s false group attempt (λ st'. (waiting, st'.0, st'.1)) st
        ((if retry then suc zero else 1) + sent st.1) (ground arith)
        (λ yes_retry. elim (false≢true yes_retry) [ ])
  request_from-sent counts fuel s retry group (suc left) attempt st =
      round-sent counts fuel s retry group attempt
        (request_from http fuel s retry group left (suc attempt)) st
        ((if retry then suc (suc left) else 1) + sent st.1) (ground arith)
        (λ on st' one.
          let rest = request_from-sent counts fuel s retry group left (suc attempt) st' in
          ground arith)

  -- Where the HTTP client counts the requests that it sends, a request that is not to be retried, as
  -- by default every one but a GET, is sent at most once, and another at most max_retries times more,
  -- whatever the exchange answers and however long the limiter makes it wait.
  pub request_sends :
      Counts
      → (fuel : ℕ) (s : HttpSettings) (retry : Option Bool) (method group : String)
        (st : RateLimiter × http.World)
      → sent (request http fuel s retry method group st).2
        ≤ (if retries_method retry method then suc s.max_retries else 1) + sent st.1
  unfolding request
  request_sends counts fuel s retry method group st =
      request_from-sent counts fuel s (retries_method retry method) group s.max_retries 1 st
