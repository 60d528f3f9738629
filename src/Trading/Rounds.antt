-- ===== src/Trading/Rounds.antt =====
-- app/trading/engine.py: the loop of `run`, as the steps that each round takes and the times that it keeps. Times and
-- spans are microseconds; what the steps do to the engine is in the other modules.
use upbit_auto_trader.Prelude.{
  ℕ, Bool, true, false, ◌||◌, Option, none, some, List, [], ◌∷◌, ◌++◌, ◌+◌, ◌-◌, ◌*◌, ltb, leb,
  if◌then◌else◌,
}
use upbit_auto_trader.Trading.Loop.{next_boundary}

pub data Step : Type 0 where
  poll_commands apply_cash_flows reload_settings resolve_pending_orders check_staleness : Step
  write_heartbeat ensure_prices check_exits apply_settings process_closed_candles : Step
  reconcile take_snapshot : Step

-- The settings of the loop.
pub record Timing : Type 0 where
  pub interval_seconds : ℕ
  pub candle_grace : ℕ
  pub snapshot_interval : ℕ
  pub command_poll_interval : ℕ
  pub heartbeat_interval : ℕ
  pub is_live : Bool
  pub deadline : Option ℕ

-- The times that the loop keeps from one round to the next.
pub record Schedule : Type 0 where
  pub target : ℕ
  pub last_snapshot : ℕ

-- What a round reads: the clock at its start, after the wait, and after the candles; whether a stop was
-- requested when the wait was over and when the commands were done; and, when it is their turn, the
-- request to reload, whether orders are pending, and the time of the last heartbeat.
pub record Reading : Type 0 where
  pub begun : ℕ
  pub woke : ℕ
  pub finished : ℕ
  pub stopped_waiting : Bool
  pub stopped_by_command : Bool
  pub reload_requested : Bool
  pub has_pending : Bool
  pub last_heartbeat : Option ℕ

-- `next_boundary(clock(), interval, grace)`
unfoldable pub target_of : Timing → ℕ → ℕ
unfolding next_boundary
target_of t clock = next_boundary clock t.interval_seconds * 1_000_000 + t.candle_grace

abbrev smaller : ℕ → ℕ → ℕ
smaller a b = if ltb b a then b else a

-- `min(target, snapshot_at, poll_at, deadline)`, where there is a deadline
unfoldable pub wake_at : Timing → Schedule → ℕ → ℕ
wake_at t s now =
    let first =
      smaller (smaller s.target (s.last_snapshot + t.snapshot_interval))
        (now + t.command_poll_interval) in
    elim t.deadline [ none ↦ first | some d ↦ smaller first d ]

-- `if deadline and now >= deadline`
unfoldable pub is_over : Timing → ℕ → Bool
is_over t now = elim t.deadline [ none ↦ false | some d ↦ leb d now ]

abbrev pub only_if : Bool → List Step → List Step
only_if true steps = steps
only_if false steps = []

unfoldable pub heartbeat_due : Timing → Reading → Bool
heartbeat_due t r = elim r.last_heartbeat [
  | none ↦ true
  | some last ↦ leb t.heartbeat_interval (r.woke - last)
]

-- `now >= at - timedelta(milliseconds=1)`
unfoldable pub is_due : ℕ → ℕ → Bool
is_due at now = leb at (now + 1_000)

unfoldable pub candle_steps : List Step
candle_steps = ensure_prices ∷ check_exits ∷ apply_settings ∷ process_closed_candles ∷ []

unfoldable pub snapshot_steps : Timing → List Step
snapshot_steps t = ensure_prices ∷ only_if t.is_live (reconcile ∷ []) ++ take_snapshot ∷ []

-- The steps of a round that goes on after the commands.
unfoldable pub later_steps : Timing → Schedule → Reading → List Step
unfolding heartbeat_due is_due candle_steps snapshot_steps
later_steps t s r =
    only_if r.reload_requested (reload_settings ∷ [])
    ++ only_if r.has_pending (resolve_pending_orders ∷ [])
    ++ check_staleness ∷ only_if (heartbeat_due t r) (write_heartbeat ∷ [])
    ++ only_if (is_due s.target r.woke) candle_steps
    ++ only_if (is_due (s.last_snapshot + t.snapshot_interval) r.woke) (snapshot_steps t)

unfoldable pub rescheduled : Timing → Schedule → Reading → Schedule
unfolding is_due target_of
rescheduled t s r = record {
  target = if is_due s.target r.woke then target_of t r.finished else s.target;
  last_snapshot =
      if is_due (s.last_snapshot + t.snapshot_interval) r.woke then r.woke else s.last_snapshot;
}

-- One round: its steps, the times after it, and whether the loop goes on.
unfoldable pub round : Timing → Schedule → Reading → List Step × Schedule × Bool
unfolding is_over later_steps rescheduled
round t s r =
    if is_over t r.begun || r.stopped_waiting
    then ([], s, false)
    else if r.stopped_by_command
    then (poll_commands ∷ apply_cash_flows ∷ [], s, false)
    else (poll_commands ∷ apply_cash_flows ∷ later_steps t s r, rescheduled t s r, true)

-- The rounds of the loop, each with its reading and its steps, and the times after them.
unfoldable pub rounds : Timing → Schedule → List Reading → List (Reading × List Step) × Schedule
unfolding round
rounds t s [] = ([], s)
rounds t s (r ∷ rs) =
    let rest = rounds t (round t s r).1 rs in
    if (round t s r).2
    then ((r, (round t s r).0) ∷ rest.0, rest.1)
    else ((r, (round t s r).0) ∷ [], (round t s r).1)

-- The times at the start of the loop.
unfoldable pub scheduled : Timing → ℕ → Schedule
unfolding target_of
scheduled t clock = record { target = target_of t clock; last_snapshot = clock }
