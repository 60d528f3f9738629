-- ===== src/Trading/Backoff.antt =====
-- app/trading/engine.py: after an exit that failed, no exit of the market is tried before its time.
use upbit_auto_trader.Prelude.{
  ℕ, zero, suc, ◌+◌, ◌*◌, ◌^◌, ◌<◌, ◌≤◌, String, ◌≡◌, refl, sym, ap, ◌∙◌, Bool, true, false, ◌||◌,
  Option, none, some, or_else, ltb, arith, either_known, either_option_known, if◌then◌else◌,
}
use mathlib.Core.Path.{subst}
use mathlib.Core.Bool.{false≢true}
use native.Mathlib.Omega.{pow_step}
use upbit_auto_trader.Float.{Float}
use upbit_auto_trader.Dict
use upbit_auto_trader.Dict.{lookup-insert, lookup-insert_self, lookup-erase}
use upbit_auto_trader.Portfolio.Account.{Position}
use upbit_auto_trader.Orders.Order.{Order, is_filled}
use upbit_auto_trader.Trading.Engine.{Broker, Engine, Ended, completed, failed}
use upbit_auto_trader.Trading.Exits.{exit_delay, note_exit_result, watch_one, backs_off}

some≢none : {A : Type 0} {a : A} → some a ≡ none → ⊥
some≢none e = false≢true (ap (λ o. elim o [ none ↦ true | some _ ↦ false ]) e)

module _ ⦃fl : Float⦄ (isoformat : ℕ → String) (b : Broker) where
  -- The failures in a row of a market's exits.
  abbrev pub failures_of : String → Engine b → ℕ
  failures_of market e = or_else (Dict.lookup market e.exit_failures) 0

  held_back :
      (force : Bool) (now : ℕ) (market : String) (pos : Position) (e : Engine b)
      → backs_off isoformat b market now e ≡ true
      → watch_one isoformat b force now market pos e ≡ (completed, e)
  unfolding watch_one
  held_back force now market pos e h =
      either_known (λ (out : Ended × Engine b). out ≡ (completed, e))
        (Dict.contains market e.pending_orders || backs_off isoformat b market now e) (λ held. refl)
        (λ free. ground arith)

  -- The engine after an exit that failed, with a wait of `d`.
  abbrev waiting : String → ℕ → ℕ → Engine b → Engine b
  waiting market now d e = record e {
    exit_failures = Dict.insert market (suc (failures_of market e)) e.exit_failures;
    exit_backoff = Dict.insert market (now + d) e.exit_backoff;
  }

  note_exit_result_waits :
      (market : String) (o : Order) (now d : ℕ) (e : Engine b)
      → is_filled o ≡ false
      → exit_delay (suc (failures_of market e)) ≡ some d
      → note_exit_result isoformat b market o now e ≡ (completed, waiting market now d e)
  unfolding note_exit_result
  note_exit_result_waits market o now d e h k =
      let Ends = λ (out : Ended × Engine b). out ≡ (completed, waiting market now d e) in
      either_known Ends (is_filled o) (λ t. elim (false≢true (sym h ∙ t)) [ ])
        (λ unfilled.
          either_option_known Ends (exit_delay (suc (failures_of market e)))
            (λ lost. elim (some≢none (sym k ∙ lost)) [ ])
            (λ d' found.
              ap (λ (x : Option ℕ). (completed, waiting market now (or_else x 0) e))
                (sym found ∙ k)))

  waiting-backs_off :
      (market : String) (now later d : ℕ) (e : Engine b)
      → later < now + d
      → backs_off isoformat b market later (waiting market now d e) ≡ true
  unfolding backs_off
  waiting-backs_off market now later d e h =
      let found = lookup-insert_self market (now + d) e.exit_backoff in
      either_option_known (λ (c : Bool). c ≡ true)
        (Dict.lookup market (Dict.insert market (now + d) e.exit_backoff))
        (λ lost. elim (some≢none (sym found ∙ lost)) [ ])
        (λ t known.
          let same = ap (λ (x : Option ℕ). or_else x 0) (sym known ∙ found) in ground arith)

  -- After an exit order that was not filled, as long as the wait for that many failures in a row lasts,
  -- the watch over the market's position leaves the engine as it is, forced or not: no exit is sent.
  pub no_exit_before_retry :
      (force : Bool) (market : String) (pos : Position) (o : Order) (now later d : ℕ) (e : Engine b)
      → is_filled o ≡ false
      → exit_delay (suc (failures_of market e)) ≡ some d
      → later < now + d
      → watch_one isoformat b force later market pos (note_exit_result isoformat b market o now e).1
        ≡ (completed, (note_exit_result isoformat b market o now e).1)
  no_exit_before_retry force market pos o now later d e h k less =
      held_back force later market pos (note_exit_result isoformat b market o now e).1 (
        subst (λ (out : Ended × Engine b). backs_off isoformat b market later out.1 ≡ true)
          (sym (note_exit_result_waits market o now d e h k))
          (waiting-backs_off market now later d e less))

module _ ⦃fl : Float⦄ (isoformat : ℕ → String) (b : Broker) where
  -- With 1024 failures in a row behind it, a further exit that is not filled makes note_exit_result
  -- raise, and the market is held back at no other times than before.
  pub failures_raise :
      (market : String) (o : Order) (now later : ℕ) (e : Engine b)
      → is_filled o ≡ false
      → 1024 ≤ failures_of isoformat b market e
      → ((note_exit_result isoformat b market o now e).0 ≡ failed)
        × (backs_off isoformat b market later (note_exit_result isoformat b market o now e).1
            ≡ backs_off isoformat b market later e)
  unfolding note_exit_result backs_off
  failures_raise market o now later e h many =
      let Raises = λ (out : Ended × Engine b).
        (out.0 ≡ failed)
        × (backs_off isoformat b market later out.1 ≡ backs_off isoformat b market later e) in
      let n = failures_of isoformat b market e in
      let over : exit_delay (suc n) ≡ none = unfold exit_delay in ground arith in
      either_known Raises (is_filled o) (λ t. elim (false≢true (sym h ∙ t)) [ ])
        (λ unfilled.
          either_option_known Raises (exit_delay (suc n)) (λ none_left. (refl, refl))
            (λ d found. elim (some≢none (sym found ∙ over)) [ ]))

-- The wait in microseconds: 5 s for the first failure, then twice the last wait or 300 s, whichever is
-- less, up to 1024 failures in a row; above them there is none.
pub exit_delay_lem :
    (n d : ℕ)
    → 1 ≤ n
    → exit_delay n ≡ some d
    → (exit_delay 1 ≡ some 5_000_000)
      × (n < 1024
          → exit_delay (suc n) ≡ some (if ltb 300_000_000 (2 * d) then 300_000_000 else 2 * d))
      × (1024 ≤ n → exit_delay (suc n) ≡ none)
unfolding exit_delay
exit_delay_lem zero d pos h = elim pos [ ]
exit_delay_lem (suc n) d pos h =
    let double : 2 ^ suc n ≡ 2 * 2 ^ n = pow_step 2 n in
    (refl, λ few. ground arith, λ many. ground arith)
