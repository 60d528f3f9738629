-- ===== src/Trading/Reload.antt =====
-- app/trading/runtime_settings.py and app/trading/engine.py: the comparison of settings, `warmup`, and
-- `maybe_reload_settings`. The strategies and the validation of a document are parameters. The engine's
-- risk manager is taken to be a `RiskManager`, which the code asks by `isinstance`.
use upbit_auto_trader.Prelude.{
  ℕ, String, Bool, true, false, ◌&&◌, ◌||◌, not, Option, none, some, List, [], ◌∷◌, ◌+◌, length,
  ltb, leb, str_eq, if◌then◌else◌,
}
use upbit_auto_trader.Float.{Float}
use upbit_auto_trader.Risk.State.{RiskConfig}
use upbit_auto_trader.Market.Candles.{accepted, refused}
use upbit_auto_trader.Market.Frames.{Frames, merge_candles, frame_of}
use upbit_auto_trader.Trading.Engine.{Ended, completed, failed}
use upbit_auto_trader.Trading.Feed.{
  CandleClient, collected, raised, unfinished, Fetch, fetch_candles,
}

pub data Field : Type 0 where
  markets strategy_name strategy_params candle_interval risk : Field

module _ ⦃fl : Float⦄ where
  -- `RuntimeSettings`, over the type of a strategy's parameters.
  pub record RuntimeSettings (P : Type 0) : Type 0 where
    pub markets : List String
    pub strategy_name : String
    pub strategy_params : P
    pub candle_interval : String
    pub risk : RiskConfig

  -- What the settings are made of: `==` of the parameters and limits as JSON, `create_strategy` with
  -- `warmup_periods`, and the validation of a stored document, which fails with `none`.
  pub record Kit : Type 1 where
    pub Params : Type 0
    pub Strategy : Type 0
    pub Document : Type 0
    pub same_params : Params → Params → Bool
    pub same_risk : RiskConfig → RiskConfig → Bool
    pub create_strategy : String → Params → Strategy
    pub warmup_periods : Strategy → ℕ
    pub validate : Document → Option (RuntimeSettings Params)

  unfoldable pub same_texts : List String → List String → Bool
  same_texts [] [] = true
  same_texts (a ∷ as') (b ∷ bs) = str_eq a b && same_texts as' bs
  same_texts _ _ = false

  module _ (kit : Kit) where
    abbrev pub Settings : Type 0
    Settings = RuntimeSettings kit.Params

    unfoldable pub build_strategy : Settings → kit.Strategy
    build_strategy s = kit.create_strategy s.strategy_name s.strategy_params

    unfoldable pub differs : Settings → Settings → Field → Bool
    unfolding same_texts
    differs a b markets = not (same_texts a.markets b.markets)
    differs a b strategy_name = not (str_eq a.strategy_name b.strategy_name)
    differs a b strategy_params = not (kit.same_params a.strategy_params b.strategy_params)
    differs a b candle_interval = not (str_eq a.candle_interval b.candle_interval)
    differs a b risk = not (kit.same_risk a.risk b.risk)

    unfoldable pub changed_of : Settings → Settings → List Field → List Field
    unfolding differs
    changed_of a b [] = []
    changed_of a b (f ∷ fs) =
        let rest = changed_of a b fs in if differs a b f then f ∷ rest else rest

    -- `HOT_FIELDS` and `RESTART_FIELDS`; the result is the pair of the two lists of `changes_vs`.
    unfoldable pub changes_vs : Settings → Settings → List Field × List Field
    unfolding changed_of
    changes_vs mine theirs = (
      changed_of mine theirs (strategy_name ∷ strategy_params ∷ risk ∷ []),
      changed_of mine theirs (markets ∷ candle_interval ∷ []),
    )

    -- The engine's settings in effect. `markets` and `interval` are fixed when it starts.
    pub record Running : Type 0 where
      pub runtime : Option Settings
      pub settings_version : ℕ
      pub strategy : kit.Strategy
      pub warmup_candles : ℕ
      pub risk_config : RiskConfig
      pub markets : List String
      pub interval : String
      pub restart_required : Bool
      pub frames : Frames

    pub data Reload : Type 0 where
      nothing_new invalid stopped : Reload
      applied : List Field × List Field → Reload

    abbrev pub has_strategy : List Field → Bool
    has_strategy [] = false
    has_strategy (strategy_name ∷ fs) = true
    has_strategy (strategy_params ∷ fs) = true
    has_strategy (_ ∷ fs) = has_strategy fs

    abbrev pub has_risk : List Field → Bool
    has_risk [] = false
    has_risk (risk ∷ fs) = true
    has_risk (_ ∷ fs) = has_risk fs

    -- `any` market whose frame is too short for the strategy
    unfoldable pub is_short : ℕ → List String → Frames → Bool
    is_short periods [] s = false
    is_short periods (m ∷ ms) s = ltb (length (frame_of s m)) (periods + 1) || is_short periods ms s

    -- `if changes["restart"]: restart_required = True`
    abbrev pub needs_restart : List Field → Bool → Bool
    needs_restart [] before = before
    needs_restart (_ ∷ _) before = true

    module _ (cl : CandleClient) where
      -- `warmup`: the first market that fails ends it. The copies of the candles in the database are left out.
      unfoldable pub warm_market : String → ℕ → Fetch → Frames → Ended × Frames
      warm_market market now (collected candles) s = elim (merge_candles market candles now s).0 [
        | accepted _ ↦ (completed, (merge_candles market candles now s).1)
        | refused _ ↦ (failed, (merge_candles market candles now s).1)
      ]
      warm_market market now raised s = (failed, s)
      warm_market market now unfinished s = (failed, s)

      unfoldable pub warmup : ℕ → List String → ℕ → Frames → cl.World → Ended × Frames × cl.World
      unfolding warm_market
      warmup count [] now s w = (completed, s, w)
      warmup count (m ∷ ms) now s w =
          let (got, w') = fetch_candles cl m (count + 1) w in
          let (ended, s') = warm_market m now got s in
          elim ended [ failed ↦ (failed, s', w') | completed ↦ warmup count ms now s' w' ]

      -- The strategy of the new settings, with the candles that it needs.
      unfoldable pub change_strategy :
          Settings → ℕ → Running → cl.World → Ended × Running × cl.World
      unfolding build_strategy is_short warmup
      change_strategy new now e w =
          let strategy = build_strategy new in
          let wanted = kit.warmup_periods strategy + 5 in
          let count = if ltb e.warmup_candles wanted then wanted else e.warmup_candles in
          let e' = record e { strategy = strategy; warmup_candles = count } in
          elim (is_short (kit.warmup_periods strategy) e.markets e.frames) [
            | false ↦ (completed, e', w)
            | true ↦
                let (ended, s, w') = warmup count e.markets now e.frames w in
                (ended, record e' { frames = s }, w')
          ]

      -- The rest of the settings, once the strategy is in place.
      unfoldable pub put_in_effect : List Field × List Field → Settings → ℕ → Running → Running
      put_in_effect (hot, restart) new version e = record e {
        risk_config = if has_risk hot then new.risk else e.risk_config;
        restart_required = needs_restart restart e.restart_required;
        runtime = some new;
        settings_version = version;
      }

      unfoldable pub after_strategy :
          List Field × List Field
          → Settings
          → ℕ
          → Ended × Running × cl.World
          → Reload × Running × cl.World
      unfolding put_in_effect
      after_strategy changes new version (failed, e, w) = (stopped, e, w)
      after_strategy changes new version (completed, e, w) =
          (applied changes, put_in_effect changes new version e, w)

      unfoldable pub reload_with :
          Settings → Settings → ℕ → ℕ → Running → cl.World → Reload × Running × cl.World
      unfolding changes_vs change_strategy after_strategy
      reload_with mine new version now e w =
          let changes = changes_vs mine new in
          after_strategy changes new version (elim (has_strategy changes.0) [
            | true ↦ change_strategy new now e w
            | false ↦ (completed, e, w)
          ])

      -- `none` is the `ValidationError`.
      unfoldable pub after_validation :
          Settings → Option Settings → ℕ → ℕ → Running → cl.World → Reload × Running × cl.World
      unfolding reload_with
      after_validation mine none version now e w =
          (invalid, record e { settings_version = version }, w)
      after_validation mine (some new) version now e w = reload_with mine new version now e w

      unfoldable pub after_loading :
          Settings
          → Option (kit.Document × ℕ)
          → ℕ
          → Running
          → cl.World
          → Reload × Running × cl.World
      unfolding after_validation
      after_loading mine none now e w = (nothing_new, e, w)
      after_loading mine (some (doc, version)) now e w =
          after_validation mine (kit.validate doc) version now e w

      -- `latest` and `loaded` are what the database answers.
      unfoldable pub maybe_reload_settings :
          (latest : ℕ)
          → Option (kit.Document × ℕ)
          → ℕ
          → Running
          → cl.World
          → Reload × Running × cl.World
      unfolding after_loading
      maybe_reload_settings latest loaded now e w = elim e.runtime [
        | none ↦ (nothing_new, e, w)
        | some mine ↦ elim (leb latest e.settings_version) [
          | true ↦ (nothing_new, e, w)
          | false ↦ after_loading mine loaded now e w
        ]
      ]
