-- ===== src/Exchange/Errors.antt =====
-- app/core/exceptions.py: the class of an HTTP error, and which classes are retried.
use upbit_auto_trader.Prelude.{
  ℕ, ◌≡◌, ◌≤◌, ◌↔◌, ◌⊎◌, Bool, true, false, ◌&&◌, ◌||◌, ◌==◌, leb, ltb, arith, if◌then◌else◌,
}

-- The subclasses of `UpbitAPIError`, and itself.
pub data ApiErrorClass : Type 0 where
  bad_request_error auth_error rate_limit_error blocked_error server_error api_error : ApiErrorClass

-- `retryable`
abbrev pub retryable : ApiErrorClass → Bool
retryable rate_limit_error = true
retryable server_error = true
retryable _ = false

-- The class that `make_api_error` chooses.
unfoldable pub make_api_error : ℕ → ApiErrorClass
make_api_error status_code =
    if status_code == 429
    then rate_limit_error
    else if status_code == 418
    then blocked_error
    else if status_code == 401 || status_code == 403
    then auth_error
    else if leb 400 status_code && ltb status_code 500
    then bad_request_error
    else if leb 500 status_code
    then server_error
    else api_error

-- An HTTP error is of a class that is retried exactly where its status is 429 or at least 500.
pub make_api_error_retried :
    (status_code : ℕ)
    → (retryable (make_api_error status_code) ≡ true) ↔ ((status_code ≡ 429) ⊎ (500 ≤ status_code))
unfolding make_api_error
make_api_error_retried status_code = (λ h. ground arith, λ h. ground arith)
