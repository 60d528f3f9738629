-- ===== src/Trading/Punctual.antt =====
-- app/trading/engine.py: when the loop of `run` processes the candles.
use upbit_auto_trader.Prelude.{
  ℕ, ◌≡◌, refl, sym, Bool, true, false, List, [], ◌∷◌, ◌++◌, ◌+◌, ◌*◌, ◌≤◌, ◌<◌, arith,
  if◌then◌else◌, Bool-cases, inl, inr,
}
use mathlib.Core.Path.{subst}
use upbit_auto_trader.Trading.Loop.{next_boundary}
use upbit_auto_trader.Trading.Rounds.{
  Step, process_closed_candles, reload_settings, resolve_pending_orders, check_staleness,
  write_heartbeat, ensure_prices, reconcile, take_snapshot, Timing, Schedule, Reading, target_of,
  wake_at, heartbeat_due, is_due, candle_steps, snapshot_steps, later_steps, rescheduled, only_if,
  round, rounds, scheduled,
}

abbrev pub processes : List Step → Bool
processes [] = false
processes (process_closed_candles ∷ steps) = true
processes (_ ∷ steps) = processes steps

-- The clock after the last processing of the candles, from that at the start of the loop.
abbrev pub processed_at : ℕ → List (Reading × List Step) → ℕ
processed_at c [] = c
processed_at c ((r, steps) ∷ trace) = processed_at (if processes steps then r.finished else c) trace

-- The steps around those of the candles process none, whichever of them are taken.
processes-parts :
    (reload pending beat due live snap : Bool)
    → processes (
        only_if reload (reload_settings ∷ [])
        ++ only_if pending (resolve_pending_orders ∷ [])
        ++ check_staleness ∷ only_if beat (write_heartbeat ∷ [])
        ++ only_if due candle_steps
        ++ only_if snap (ensure_prices ∷ only_if live (reconcile ∷ []) ++ take_snapshot ∷ []))
      ≡ due
unfolding candle_steps
processes-parts reload pending beat due live snap = ground arith

processes-later_steps :
    (t : Timing) (s : Schedule) (r : Reading)
    → processes (later_steps t s r) ≡ is_due s.target r.woke
unfolding later_steps snapshot_steps
processes-later_steps t s r =
    processes-parts r.reload_requested r.has_pending (heartbeat_due t r) (is_due s.target r.woke)
      t.is_live (is_due (s.last_snapshot + t.snapshot_interval) r.woke)

-- A round that goes on processes the candles exactly where they are due, and sets the target then.
round_goes_on :
    (t : Timing) (s : Schedule) (r : Reading)
    → (round t s r).2 ≡ true
    → (processes (round t s r).0 ≡ is_due s.target r.woke)
      × ((round t s r).1.target
          ≡ (if is_due s.target r.woke then target_of t r.finished else s.target))
unfolding round rescheduled
round_goes_on t s r h = ground (arith, processes-later_steps t s r)

round_ends :
    (t : Timing) (s : Schedule) (r : Reading)
    → (round t s r).2 ≡ false
    → (processes (round t s r).0 ≡ false) × ((round t s r).1 ≡ s)
unfolding round
round_ends t s r h = ground arith

chosen :
    (t : Timing) (s : Schedule) (r : Reading) (c : ℕ)
    → s.target ≡ target_of t c
    → (b : Bool)
    → (if b then target_of t r.finished else s.target) ≡ target_of t (if b then r.finished else c)
chosen t s r c e true = refl
chosen t s r c e false = e

-- The target belongs to the time of the last processing.
round_target :
    (t : Timing) (s : Schedule) (r : Reading) (c : ℕ)
    → s.target ≡ target_of t c
    → (round t s r).1.target ≡ target_of t (if processes (round t s r).0 then r.finished else c)
round_target t s r c e = elim (Bool-cases (round t s r).2) [
  | inl h ↦
      let (p, q) = round_goes_on t s r h in rw (p, q) (chosen t s r c e (is_due s.target r.woke))
  | inr h ↦ let (p, q) = round_ends t s r h in rw (p, q) e
]

rounds_target :
    (t : Timing) (s : Schedule) (rs : List Reading) (c : ℕ)
    → s.target ≡ target_of t c
    → (rounds t s rs).1.target ≡ target_of t (processed_at c (rounds t s rs).0)
unfolding rounds
rounds_target t s [] c e = e
rounds_target t s (r ∷ rs) c e = elim (Bool-cases (round t s r).2) [
  | inl h ↦ rw h (rounds_target t (round t s r).1 rs _ (round_target t s r c e))
  | inr h ↦ rw h (round_target t s r c e)
]

-- A candle that has ended, with the grace, before the target that follows on a processing had ended by then.
ended_before :
    (t : Timing) (k c now : ℕ)
    → 0 < t.interval_seconds
    → k * t.interval_seconds * 1_000_000 + t.candle_grace ≤ now
    → now < target_of t c
    → k * t.interval_seconds * 1_000_000 ≤ c
unfolding target_of next_boundary
ended_before t k c now p h l = grind arith

wake_at-le-target : (t : Timing) (s : Schedule) (now : ℕ) → wake_at t s now ≤ s.target
unfolding wake_at
wake_at-le-target t s now = ground arith

not_due : (at now : ℕ) → is_due at now ≡ false → now < at
unfolding is_due
not_due at now h = ground arith

on_time :
    (t : Timing) (s : Schedule) (r : Reading) (last k : ℕ) (b : Bool)
    → 0 < t.interval_seconds
    → r.woke ≤ r.finished
    → s.target ≡ target_of t last
    → b ≡ is_due s.target r.woke
    → k * t.interval_seconds * 1_000_000 + t.candle_grace ≤ r.woke
    → k * t.interval_seconds * 1_000_000 ≤ (if b then r.finished else last)
on_time t s r last k true p m e d h = omega arith
on_time t s r last k false p m e d h =
    ended_before t k last r.woke p h (subst (λ u. r.woke < u) e (not_due s.target r.woke (sym d)))

target-scheduled : (t : Timing) (c : ℕ) → (scheduled t c).target ≡ target_of t c
unfolding scheduled
target-scheduled t c = refl

-- After any rounds, in a round that goes on: a candle whose end, with the grace, is over when the
-- round wakes has ended before the end of the last processing of the candles, this round's included,
-- where the clock does not go back within the round; and the round asks to be woken no later than
-- the first boundary after the end of the processing before it, with the grace.
pub candles_on_time :
    (t : Timing) (c : ℕ) (rs : List Reading) (r : Reading) (k : ℕ)
    → 0 < t.interval_seconds
    → r.woke ≤ r.finished
    → (round t (rounds t (scheduled t c) rs).1 r).2 ≡ true
    → (k * t.interval_seconds * 1_000_000 + t.candle_grace ≤ r.woke
        → k * t.interval_seconds * 1_000_000 ≤ (
            if processes (round t (rounds t (scheduled t c) rs).1 r).0
            then r.finished
            else processed_at c (rounds t (scheduled t c) rs).0))
      × (wake_at t (rounds t (scheduled t c) rs).1 r.begun
          ≤ target_of t (processed_at c (rounds t (scheduled t c) rs).0))
candles_on_time t c rs r k p m goes =
    let s = (rounds t (scheduled t c) rs).1 in
    let last = processed_at c (rounds t (scheduled t c) rs).0 in
    let e = rounds_target t (scheduled t c) rs c (target-scheduled t c) in
    (
      on_time t s r last k _ p m e (round_goes_on t s r goes).0,
      subst (λ u. wake_at t s r.begun ≤ u) e (wake_at-le-target t s r.begun),
    )
