-- ===== src/Trading/InEffect.antt =====
-- app/trading/engine.py: which settings are in effect after a reload, and how each of its ends comes about.
use mathlib.Core.Path.{subst}
use upbit_auto_trader.Prelude.{
  ℕ, ◌≡◌, refl, sym, ◌∙◌, true, false, Option, none, some, leb, inl, inr, ◌⊎◌, either_known,
  either_option_known,
}
use upbit_auto_trader.Float.{Float}
use upbit_auto_trader.Trading.Engine.{Ended, completed, failed}
use upbit_auto_trader.Trading.Feed.{CandleClient}
use upbit_auto_trader.Trading.Reload.{
  Kit, changes_vs, Running, Reload, nothing_new, invalid, stopped, applied, has_strategy,
  change_strategy, put_in_effect, after_strategy, reload_with, after_validation, after_loading,
  maybe_reload_settings, Settings,
}
use upbit_auto_trader.Trading.Changed.{
  KitLaws, InEffect, IsChanged, same_some, settled_strategy, put_in_effect-InEffect, strategy_ends,
}

module _ ⦃fl : Float⦄ (kit : Kit) (cl : CandleClient) where
  -- The document that was loaded, with its version, is a valid one.
  abbrev IsLoaded : Option (kit.Document × ℕ) → ℕ → Settings kit → Type 0
  IsLoaded loaded version new =
      (doc : kit.Document) × (loaded ≡ some (doc, version)) × (kit.validate doc ≡ some new)

  -- The strategy changes, and the change ends like this.
  abbrev Changes : Settings kit → Settings kit → ℕ → Running kit → cl.World → Ended → Type 0
  Changes mine new now e w end =
      (has_strategy kit (changes_vs kit mine new).0 ≡ true)
      × ((change_strategy kit cl new now e w).0 ≡ end)

  -- What a reload leaves, and when: nothing is new exactly where no version is newer or none is loaded;
  -- a newer document that is not valid changes only the version that was read; a valid one comes into
  -- effect, unless its strategy cannot be put in place.
  abbrev pub Reloaded :
      (latest : ℕ)
      → Option (kit.Document × ℕ)
      → Settings kit
      → ℕ
      → Running kit
      → cl.World
      → Reload kit × Running kit × cl.World
      → Type 0
  Reloaded latest loaded mine now e w (nothing_new, e', w') =
      ((leb latest e.settings_version ≡ true) ⊎ (loaded ≡ none)) × (e' ≡ e) × (w' ≡ w)
  Reloaded latest loaded mine now e w (invalid, e', w') =
      (doc : kit.Document) × (version : ℕ) × (leb latest e.settings_version ≡ false)
      × (loaded ≡ some (doc, version))
      × (kit.validate doc ≡ none)
      × (e' ≡ record e { settings_version = version })
      × (w' ≡ w)
  Reloaded latest loaded mine now e w (stopped, e', w') =
      (version : ℕ) × (new : Settings kit) × (leb latest e.settings_version ≡ false)
      × IsLoaded loaded version new
      × Changes mine new now e w failed
      × IsChanged kit cl new e e'
  Reloaded latest loaded mine now e w (applied changes, e', w') =
      (new : Settings kit) × (leb latest e.settings_version ≡ false)
      × IsLoaded loaded e'.settings_version new
      × ((has_strategy kit (changes_vs kit mine new).0 ≡ false)
          ⊎ ((change_strategy kit cl new now e w).0 ≡ completed))
      × (changes ≡ changes_vs kit mine new)
      × InEffect kit e' new

  module _ (laws : KitLaws kit) (mine : Settings kit) (latest now : ℕ) (e : Running kit)
      (w : cl.World) (k : InEffect kit e mine) (newer : leb latest e.settings_version ≡ false) where
    after_strategy-Reloaded :
        (new : Settings kit) (doc : kit.Document) (version : ℕ) (z : Ended × Running kit × cl.World)
        → IsChanged kit cl new e z.1
        → kit.validate doc ≡ some new
        → (z.0 ≡ failed → Changes mine new now e w failed)
        → (z.0 ≡ completed
            → (has_strategy kit (changes_vs kit mine new).0 ≡ false)
              ⊎ ((change_strategy kit cl new now e w).0 ≡ completed))
        → Reloaded latest
            (some (doc, version))
            mine
            now
            e
            w
            (after_strategy kit cl (changes_vs kit mine new) new version z)
    unfolding after_strategy put_in_effect
    after_strategy-Reloaded new doc version (failed, e', w') c v why_not why =
        (version, new, newer, (doc, refl, v), why_not refl, c)
    after_strategy-Reloaded new doc version (completed, e', w') c v why_not why = (
      new,
      newer,
      (doc, refl, v),
      why refl,
      refl,
      put_in_effect-InEffect kit cl laws mine new version e e' k c,
    )

    reload_with-Reloaded :
        (new : Settings kit) (doc : kit.Document) (version : ℕ)
        → kit.validate doc ≡ some new
        → Reloaded latest
            (some (doc, version))
            mine
            now
            e
            w
            (reload_with kit cl mine new version now e w)
    unfolding reload_with
    reload_with-Reloaded new doc version v =
        let changed = has_strategy kit (changes_vs kit mine new).0 in
        let (why_not, why) = strategy_ends kit cl new now e w changed in
        after_strategy-Reloaded new doc version _
          (settled_strategy kit cl laws mine new now e w changed k refl) v why_not why

    after_validation-Reloaded :
        (doc : kit.Document) (version : ℕ) (v : Option (Settings kit))
        → kit.validate doc ≡ v
        → Reloaded latest
            (some (doc, version))
            mine
            now
            e
            w
            (after_validation kit cl mine v version now e w)
    unfolding after_validation
    after_validation-Reloaded doc version none v = (doc, version, newer, refl, v, refl, refl)
    after_validation-Reloaded doc version (some new) v = reload_with-Reloaded new doc version v

    after_loading-Reloaded :
        (loaded : Option (kit.Document × ℕ))
        → Reloaded latest loaded mine now e w (after_loading kit cl mine loaded now e w)
    unfolding after_loading
    after_loading-Reloaded none = (inr refl, refl, refl)
    after_loading-Reloaded (some (doc, version)) =
        after_validation-Reloaded doc version (kit.validate doc) refl

  -- Where == of two JSON values holds exactly of equal ones and settings are in effect, a reload ends in
  -- one of four ways. It finds nothing new and leaves the engine as it is, where the latest version is
  -- not newer or no document is loaded. It only takes over the version, where the newer document
  -- is not valid. It puts the valid newer document in effect with its version, where the strategy does
  -- not change or its change goes through. It stops with the new strategy, but with the settings, the
  -- version, the limits, the markets and the interval of before, where the change of strategy fails.
  pub maybe_reload_settings_lem :
      (laws : KitLaws kit) (mine : Settings kit) (latest : ℕ) (loaded : Option (kit.Document × ℕ))
      (now : ℕ) (e : Running kit) (w : cl.World)
      → InEffect kit e mine
      → Reloaded latest loaded mine now e w (maybe_reload_settings kit cl latest loaded now e w)
  unfolding maybe_reload_settings
  maybe_reload_settings_lem laws mine latest loaded now e w k =
      let Ends = Reloaded latest loaded mine now e w in
      either_option_known Ends e.runtime (λ h. absurd (cc k.current))
        (λ other h.
          either_known Ends (leb latest e.settings_version) (λ old. (inl old, refl, refl))
            (λ newer.
              subst (λ m. Ends (after_loading kit cl m loaded now e w))
                (same_some kit (sym k.current ∙ h))
                (after_loading-Reloaded laws mine latest now e w k newer loaded)))
