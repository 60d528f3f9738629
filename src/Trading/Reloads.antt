-- ===== src/Trading/Reloads.antt =====
-- The theorems on the reload of settings at concrete inputs.
use native.Mathlib.Decide.{ℕ_discrete}
use upbit_auto_trader.Prelude.{
  ℕ, String, ◌+◌, ◌≡◌, refl, Bool, true, false, Option, none, some, [], ◌∷◌, arith, ◌==◌,
}
use upbit_auto_trader.Prelude.Int.{ℤ}
use upbit_auto_trader.Float.Fixed.{fixed}
use upbit_auto_trader.Exchange.Interval.{m60}
use upbit_auto_trader.Dict
use upbit_auto_trader.Market.Frames.{frame_of}
use upbit_auto_trader.Market.Kept.{no_frames}
use upbit_auto_trader.Risk.State.{RiskConfig}
use upbit_auto_trader.Trading.Feed.{CandleClient, fetch_candles}
use upbit_auto_trader.Trading.Reload.{
  markets, risk, applied, RuntimeSettings, Kit, Running, build_strategy, maybe_reload_settings,
}
use upbit_auto_trader.Trading.Changed.{KitLaws, InEffect}
use upbit_auto_trader.Trading.InEffect.{Reloaded, maybe_reload_settings_lem}
use upbit_auto_trader.Trading.Reverted.{KeepsStrategy, reverted-KeepsStrategy}

ℤ-discrete : Discrete ℤ
ℤ-discrete = hlevel ℕ_discrete

RiskConfig-discrete : Discrete RiskConfig
RiskConfig-discrete = hlevel (ℕ_discrete, ℤ-discrete)

abbrev decided : {A : Type 0} → Dec A → Bool
decided (yes _) = true
decided (no _) = false

decided-eq_true : {A : Type 0} (d : Dec A) → decided d ≡ true → A
decided-eq_true (yes p) h = p
decided-eq_true (no p) h = absurd (cc h)

decided_of : {A : Type 0} (d : Dec A) → A → decided d ≡ true
decided_of (yes p) a = refl
decided_of (no p) a = absurd (p a)

-- A strategy is its name with one number; a document is what it is read as.
abbrev kit : Kit
kit = record {
  Params = ℕ;
  Strategy = String × ℕ;
  Document = Option (RuntimeSettings ℕ);
  same_params = λ a b. a == b;
  same_risk = λ a b. decided (RiskConfig-discrete a b);
  create_strategy = λ name n. (name, n);
  warmup_periods = λ s. 3;
  validate = λ d. d;
}

kit-laws : KitLaws kit
kit-laws = record {
  params_eq = λ a b h. ground arith;
  params_refl = λ a. ground arith;
  risk_eq = λ a b h. decided-eq_true (RiskConfig-discrete a b) h;
  risk_refl = λ a. decided_of (RiskConfig-discrete a a) refl;
}

-- An exchange that answers nothing.
abbrev silent : CandleClient
silent = record { World = ℕ; get_candles = λ market count to w. (none, w + 1) }

abbrev limits : RiskConfig
limits = record {
  position_fraction = fixed.number 1 0;
  max_order_amount = none;
  max_position_ratio = fixed.number 1 0;
  max_open_positions = 5;
  daily_loss_limit_pct = none;
  max_consecutive_losses = none;
  stop_loss_pct = none;
  take_profit_pct = none;
  trailing_stop_pct = none;
  price_deviation_limit = none;
  min_order_amount = fixed.number 5000 0;
  cooldown_seconds = fixed.number 0 0;
}

abbrev settings : String → RuntimeSettings ℕ
settings name = record {
  markets = "KRW-BTC" ∷ [];
  strategy_name = name;
  strategy_params = 14;
  candle_interval = "60m";
  risk = limits;
}

abbrev engine : Running kit
engine = record {
  runtime = some (settings "rsi");
  settings_version = 1;
  strategy = ("rsi", 14);
  warmup_candles = 20;
  risk_config = limits;
  markets = "KRW-BTC" ∷ [];
  interval = "60m";
  restart_required = false;
  frames = no_frames m60 100;
}

engine-InEffect : InEffect kit engine (settings "rsi")
unfolding build_strategy
engine-InEffect = record {
  current = refl;
  trades_by = refl;
  limited_by = refl;
  same_markets = λ h. refl;
  same_interval = λ h. refl;
}

abbrev after_failure : Running kit
after_failure = record engine { strategy = ("macd", 14) }

-- The next version trades two markets by halves, with the strategy as it is.
abbrev next : RuntimeSettings ℕ
next = record (settings "rsi") {
  markets = "KRW-BTC" ∷ "KRW-ETH" ∷ [];
  risk = record limits { position_fraction = fixed.number 5 1 };
}

abbrev reloaded : Running kit
reloaded = record engine {
  runtime = some next;
  settings_version = 2;
  risk_config = next.risk;
  restart_required = true;
}

puts_in_effect :
    maybe_reload_settings kit silent 2 (some (some next, 2)) 0 engine 0
    ≡ (applied (risk ∷ [], markets ∷ []), reloaded, 0)
unfolding maybe_reload_settings RiskConfig-discrete ℤ-discrete ℕ_discrete
puts_in_effect = refl

maybe_reload_settings_lem_example :
    Reloaded kit silent 2
      (some (some next, 2))
      (settings "rsi")
      0
      engine
      0
      (applied (risk ∷ [], markets ∷ []), reloaded, 0)
unfolding maybe_reload_settings RiskConfig-discrete ℤ-discrete ℕ_discrete
maybe_reload_settings_lem_example =
    maybe_reload_settings_lem kit silent kit-laws (settings "rsi") 2 (some (some next, 2)) 0 engine
      0 engine-InEffect

reverted-KeepsStrategy_example :
    KeepsStrategy kit silent
      (settings "rsi")
      (settings "macd")
      3
      (maybe_reload_settings kit silent 3 (some (some (settings "rsi"), 3)) 10 after_failure 1)
unfolding maybe_reload_settings frame_of Dict.lookup fetch_candles
reverted-KeepsStrategy_example =
    reverted-KeepsStrategy kit silent kit-laws (settings "rsi") (settings "macd")
      (some (settings "macd")) (some (settings "rsi")) 2 3 2 3 0 10 engine after_failure 0 1
      engine-InEffect refl refl refl refl
