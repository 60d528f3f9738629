-- ===== src/Trading/Changed.antt =====
-- app/trading/runtime_settings.py and app/trading/engine.py: the settings in effect, and what a change of
-- them leaves alone.
use upbit_auto_trader.Prelude.{
  ℕ, String, ◌≡◌, refl, sym, ◌∙◌, Bool, true, false, Option, some, List, [], ◌∷◌, arith, ◌⊎◌,
  eq_iff, eq_refl, Bool-cases, inl, inr,
}
use upbit_auto_trader.Float.{Float}
use upbit_auto_trader.Risk.State.{RiskConfig}
use upbit_auto_trader.Trading.Engine.{Ended, completed, failed}
use upbit_auto_trader.Trading.Feed.{CandleClient}
use upbit_auto_trader.Trading.Reload.{
  Field, Kit, same_texts, build_strategy, differs, changed_of, changes_vs, Running, has_strategy,
  has_risk, needs_restart, change_strategy, put_in_effect, Settings,
}

module _ ⦃fl : Float⦄ (kit : Kit) where
  -- `==` of two JSON values holds exactly of equal ones.
  pub record KitLaws : Type 0 where
    pub params_eq : (a b : kit.Params) → kit.same_params a b ≡ true → a ≡ b
    pub params_refl : (a : kit.Params) → kit.same_params a a ≡ true
    pub risk_eq : (a b : RiskConfig) → kit.same_risk a b ≡ true → a ≡ b
    pub risk_refl : (a : RiskConfig) → kit.same_risk a a ≡ true

  -- The engine trades by these settings; and by their markets and interval, unless it asks for a restart.
  pub record InEffect (e : Running kit) (mine : Settings kit) : Type 0 where
    pub current : e.runtime ≡ some mine
    pub trades_by : e.strategy ≡ build_strategy kit mine
    pub limited_by : e.risk_config ≡ mine.risk
    pub same_markets : e.restart_required ≡ false → e.markets ≡ mine.markets
    pub same_interval : e.restart_required ≡ false → e.interval ≡ mine.candle_interval

  same_texts-eq : (a b : List String) → same_texts a b ≡ true → a ≡ b
  unfolding same_texts
  same_texts-eq [] [] h = refl
  same_texts-eq [] (y ∷ b) h = cc
  same_texts-eq (x ∷ a) [] h = cc
  same_texts-eq (x ∷ a) (y ∷ b) h = ground (arith, same_texts-eq a b, eq_iff x y)

  same_texts_refl : (a : List String) → same_texts a a ≡ true
  unfolding same_texts
  same_texts_refl [] = refl
  same_texts_refl (x ∷ a) = ground (arith, same_texts_refl a, eq_refl x)

  module _ (laws : KitLaws) (mine new : Settings kit) where
    hot_strategy :
        has_strategy kit (changes_vs kit mine new).0 ≡ false
        → build_strategy kit mine ≡ build_strategy kit new
    unfolding changes_vs changed_of differs build_strategy
    hot_strategy h = ground (
      arith,
      eq_iff mine.strategy_name new.strategy_name,
      laws.params_eq mine.strategy_params new.strategy_params,
    )

    hot_risk : has_risk kit (changes_vs kit mine new).0 ≡ false → mine.risk ≡ new.risk
    unfolding changes_vs changed_of differs
    hot_risk h = ground (arith, laws.risk_eq mine.risk new.risk)

    no_restart :
        (changes_vs kit mine new).1 ≡ []
        → (mine.markets ≡ new.markets) × (mine.candle_interval ≡ new.candle_interval)
    unfolding changes_vs changed_of differs
    no_restart h = ground (
      arith,
      eq_iff mine.candle_interval new.candle_interval,
      same_texts-eq mine.markets new.markets,
    )

  pub no_changes : (laws : KitLaws) (mine : Settings kit) → changes_vs kit mine mine ≡ ([], [])
  unfolding changes_vs changed_of differs
  no_changes laws mine = ground (
    arith,
    eq_refl mine.strategy_name,
    eq_refl mine.candle_interval,
    same_texts_refl mine.markets,
    laws.params_refl mine.strategy_params,
    laws.risk_refl mine.risk,
  )

  pub same_some : {a b : Settings kit} → ◌≡◌ {A = Option (Settings kit)} (some a) (some b) → a ≡ b
  same_some h = cc

  module _ (cl : CandleClient) where
    -- What a change of strategy leaves alone.
    pub record IsChanged (new : Settings kit) (e e' : Running kit) : Type 0 where
      pub strategy : e'.strategy ≡ build_strategy kit new
      pub runtime : e'.runtime ≡ e.runtime
      pub version : e'.settings_version ≡ e.settings_version
      pub limits : e'.risk_config ≡ e.risk_config
      pub places : e'.markets ≡ e.markets
      pub interval : e'.interval ≡ e.interval
      pub restart : e'.restart_required ≡ e.restart_required

    change_strategy-IsChanged :
        (new : Settings kit) (now : ℕ) (e : Running kit) (w : cl.World)
        → IsChanged new e (change_strategy kit cl new now e w).1
    unfolding change_strategy
    change_strategy-IsChanged new now e w = ground arith

    -- How the strategy step of a reload ends: with the strategy of the new settings, all else as it was.
    pub settled_strategy :
        (laws : KitLaws) (mine new : Settings kit) (now : ℕ) (e : Running kit) (w : cl.World)
        (b : Bool)
        → InEffect e mine
        → has_strategy kit (changes_vs kit mine new).0 ≡ b
        → IsChanged new e
            (elim b as (λ _. Ended × Running kit × cl.World) [
              | true ↦ change_strategy kit cl new now e w
              | false ↦ (completed, e, w)
            ]).1
    settled_strategy laws mine new now e w true k h = change_strategy-IsChanged new now e w
    settled_strategy laws mine new now e w false k h = record {
      strategy = k.trades_by ∙ hot_strategy laws mine new h;
      runtime = refl;
      version = refl;
      limits = refl;
      places = refl;
      interval = refl;
      restart = refl;
    }

    no_restart_yet :
        (fs : List Field) (before : Bool)
        → needs_restart kit fs before ≡ false
        → (fs ≡ []) × (before ≡ false)
    no_restart_yet [] before h = (refl, h)
    no_restart_yet (f ∷ fs) before h = absurd (ground arith)

    pub put_in_effect-InEffect :
        (laws : KitLaws) (mine new : Settings kit) (version : ℕ) (e e' : Running kit)
        → InEffect e mine
        → IsChanged new e e'
        → InEffect (put_in_effect kit cl (changes_vs kit mine new) new version e') new
    unfolding put_in_effect
    put_in_effect-InEffect laws mine new version e e' k c = record {
      current = refl;
      trades_by = c.strategy;
      limited_by = elim (Bool-cases (has_risk kit (changes_vs kit mine new).0)) [
        | inl h ↦ rw h
        | inr h ↦ rw h (c.limits ∙ k.limited_by ∙ hot_risk laws mine new h)
      ];
      same_markets = λ h.
          let (none_changed, before) =
            no_restart_yet (changes_vs kit mine new).1 e'.restart_required h in
          c.places
          ∙ k.same_markets (sym c.restart ∙ before)
          ∙ (no_restart laws mine new none_changed).0;
      same_interval = λ h.
          let (none_changed, before) =
            no_restart_yet (changes_vs kit mine new).1 e'.restart_required h in
          c.interval
          ∙ k.same_interval (sym c.restart ∙ before)
          ∙ (no_restart laws mine new none_changed).1;
    }

    -- Why the strategy step of a reload failed or went through.
    pub strategy_ends :
        (new : Settings kit) (now : ℕ) (e : Running kit) (w : cl.World) (b : Bool)
        → let z : Ended × Running kit × cl.World = elim b [
          | true ↦ change_strategy kit cl new now e w
          | false ↦ (completed, e, w)
        ] in
          (z.0 ≡ failed → (b ≡ true) × ((change_strategy kit cl new now e w).0 ≡ failed))
          × (z.0 ≡ completed → (b ≡ false) ⊎ ((change_strategy kit cl new now e w).0 ≡ completed))
    strategy_ends new now e w true = (λ h. (refl, h), λ h. inr h)
    strategy_ends new now e w false = (λ h. absurd (cc h), λ h. inl refl)
