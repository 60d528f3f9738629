-- ===== src/Trading/Loop.antt =====
-- app/trading/engine.py: the main loop's own parts: the isolation of its steps, the command queue, the
-- next candle boundary and the check of the prices' age.
use upbit_auto_trader.Prelude.{
  ℕ, suc, ◌+◌, ◌*◌, ◌/◌, String, Bool, true, false, ◌&&◌, not, Option, none, some, List, [], ◌∷◌,
  leb, str_eq, if◌then◌else◌,
}
use upbit_auto_trader.Float.{Float}
use upbit_auto_trader.Risk.Events.{halt, resume}
use upbit_auto_trader.Database.Repository.{BotCommand, pending_commands, mark_command}
use upbit_auto_trader.Notify.Event.{risk_halt, api_error}
use upbit_auto_trader.Trading.Engine.{Broker, Engine, Ended, completed, failed, notify}

-- `next_boundary` without the grace, in seconds, for a time in microseconds.
unfoldable pub next_boundary : ℕ → ℕ → ℕ
next_boundary now interval_seconds = (now / 1_000_000 / interval_seconds + 1) * interval_seconds

abbrev pub safe_mode_after_failures : ℕ
safe_mode_after_failures = 10

-- The commands that `poll_commands` tells apart.
pub data Command : Type 0 where
  pause resume_trading stop_now halt_now reload resume_risk unheard_of : Command

-- `name == "..."`
unfoldable pub command_of : String → Command
command_of name =
    if str_eq name "pause"
    then pause
    else if str_eq name "resume"
    then resume_trading
    else if str_eq name "stop"
    then stop_now
    else if str_eq name "halt"
    then halt_now
    else if str_eq name "reload"
    then reload
    else if str_eq name "resume_risk"
    then resume_risk
    else unheard_of

-- The reason of an emergency stop: the one that was given, unless it is empty.
unfoldable pub halt_reason : Option String → String
halt_reason none = "수동 긴급 정지"
halt_reason (some r) = if str_eq r "" then "수동 긴급 정지" else r

module _ ⦃fl : Float⦄ (b : Broker) where
  -- A failed step is counted and told, and the tenth in a row begins the safe mode.
  unfoldable pub note_failure : Engine b → Engine b
  note_failure e =
      let failures = suc e.step_failures in
      let counted : Engine b = notify b api_error (record e {
        step_failures = failures;
        stats = record e.stats {
          errors = suc e.stats.errors;
          loop_step_failures = suc e.stats.loop_step_failures;
        };
      }) in
      elim (not e.safe_mode && leb safe_mode_after_failures failures) [
        | true ↦ notify b risk_halt (record counted { safe_mode = true })
        | false ↦ counted
      ]

  -- `_guarded`, for what the step came to.
  unfoldable pub guarded : Ended × Engine b → Bool × Engine b
  unfolding note_failure
  guarded (completed, e) = (true, record e { step_failures = 0 })
  guarded (failed, e) = (false, note_failure e)

  -- What a command does.
  unfoldable pub obey : Command → Option String → Engine b → Engine b
  unfolding halt_reason
  obey pause reason e = record e { paused = true }
  obey resume_trading reason e = record e { paused = false }
  obey stop_now reason e = record e { stopping = true }
  obey halt_now reason e =
      notify b risk_halt (record e { risk = halt (halt_reason reason) e.risk; paused = true })
  obey reload reason e = record e { reload_requested = true }
  obey resume_risk reason e = notify b risk_halt (record e { risk = resume e.risk })
  obey unheard_of reason e = e

  -- One command of the queue. `lower` is `str.lower`, and `outcome` gives the text
  -- of its result.
  unfoldable pub handle_command :
      (String → String) → (Command → String) → BotCommand → Engine b → Engine b
  unfolding command_of obey
  handle_command lower outcome c e =
      let kind = command_of (lower c.command) in
      let done = obey kind c.reason e in
      record done {
        repo = mark_command c.id (outcome kind) done.repo;
        stats = record done.stats { commands_processed = suc done.stats.commands_processed };
      }

  unfoldable pub handle_commands :
      (String → String) → (Command → String) → List BotCommand → Engine b → Engine b
  unfolding handle_command
  handle_commands lower outcome [] e = e
  handle_commands lower outcome (c ∷ cs) e =
      handle_commands lower outcome cs (handle_command lower outcome c e)

  -- `poll_commands`, without the heartbeat after it.
  unfoldable pub poll_commands : (String → String) → (Command → String) → Engine b → Engine b
  unfolding handle_commands
  poll_commands lower outcome e = handle_commands lower outcome (pending_commands e.repo) e
