-- ===== src/Trading/Reverted.antt =====
-- app/trading/engine.py: `maybe_reload_settings` where the warm-up of a new strategy fails.
use mathlib.Core.Path.{subst}
use upbit_auto_trader.Prelude.{
  ℕ, ◌≡◌, refl, ap, sym, ◌∙◌, true, false, Option, some, List, [], arith, leb, Bool-cases, inl, inr,
}
use upbit_auto_trader.Float.{Float}
use upbit_auto_trader.Trading.Engine.{Ended, completed, failed}
use upbit_auto_trader.Trading.Feed.{CandleClient}
use upbit_auto_trader.Trading.Reload.{
  Field, Kit, build_strategy, changes_vs, Running, Reload, nothing_new, stopped, applied,
  has_strategy, change_strategy, put_in_effect, after_strategy, reload_with, after_validation,
  after_loading, maybe_reload_settings, Settings,
}
use upbit_auto_trader.Trading.Changed.{KitLaws, InEffect, IsChanged, no_changes, settled_strategy}

module _ ⦃fl : Float⦄ (kit : Kit) (cl : CandleClient) where
  -- The reload of a later version with the settings of the runtime: it reports no change, and the
  -- strategy stays the one of `new`.
  pub record KeepsStrategy (mine new : Settings kit) (version : ℕ)
      (z : Reload kit × Running kit × cl.World) : Type 0 where
    pub reported : z.0 ≡ applied ([], [])
    pub runtime : z.1.runtime ≡ some mine
    pub version_read : z.1.settings_version ≡ version
    pub strategy : z.1.strategy ≡ build_strategy kit new

  after_strategy-stopped :
      (changes : List Field × List Field) (new : Settings kit) (version : ℕ)
      (z : Ended × Running kit × cl.World) (e1 : Running kit) (w1 : cl.World)
      → after_strategy kit cl changes new version z ≡ (stopped, e1, w1)
      → z.1 ≡ e1
  unfolding after_strategy
  after_strategy-stopped changes new version (failed, e, w) e1 w1 h = ground arith
  after_strategy-stopped changes new version (completed, e, w) e1 w1 h = absurd (ground arith)

  maybe_reload_settings_by :
      (mine : Settings kit) (latest : ℕ) (loaded : Option (kit.Document × ℕ)) (now : ℕ)
      (e : Running kit) (w : cl.World)
      → e.runtime ≡ some mine
      → leb latest e.settings_version ≡ false
      → maybe_reload_settings kit cl latest loaded now e w
        ≡ after_loading kit cl mine loaded now e w
  unfolding maybe_reload_settings
  maybe_reload_settings_by mine latest loaded now e w h l = ground arith

  not_newer :
      (mine : Settings kit) (latest : ℕ) (loaded : Option (kit.Document × ℕ)) (now : ℕ)
      (e : Running kit) (w : cl.World)
      → e.runtime ≡ some mine
      → leb latest e.settings_version ≡ true
      → (maybe_reload_settings kit cl latest loaded now e w).0 ≡ nothing_new
  unfolding maybe_reload_settings
  not_newer mine latest loaded now e w h l = ground arith

  stopped-IsChanged :
      (laws : KitLaws kit) (mine new : Settings kit) (doc : kit.Document) (version now : ℕ)
      (e e1 : Running kit) (w w1 : cl.World)
      → InEffect kit e mine
      → kit.validate doc ≡ some new
      → after_loading kit cl mine (some (doc, version)) now e w ≡ (stopped, e1, w1)
      → IsChanged kit cl new e e1
  unfolding after_loading after_validation reload_with
  stopped-IsChanged laws mine new doc version now e e1 w w1 k v h =
      let h' =
        subst (λ o. after_validation kit cl mine o version now e w ≡ (stopped, e1, w1)) v h in
      subst (λ x. IsChanged kit cl new e x)
        (after_strategy-stopped (changes_vs kit mine new) new version _ e1 w1 h')
        (settled_strategy kit cl laws mine new now e w
          (has_strategy kit (changes_vs kit mine new).0) k refl)

  failed_change :
      (laws : KitLaws kit) (mine new : Settings kit) (doc : kit.Document) (latest version now : ℕ)
      (e e1 : Running kit) (w w1 : cl.World)
      → InEffect kit e mine
      → kit.validate doc ≡ some new
      → maybe_reload_settings kit cl latest (some (doc, version)) now e w ≡ (stopped, e1, w1)
      → IsChanged kit cl new e e1
  failed_change laws mine new doc latest version now e e1 w w1 k v h =
      elim (Bool-cases (leb latest e.settings_version)) [
        | inl l ↦ absurd (cc (not_newer mine latest (some (doc, version)) now e w k.current l, h))
        | inr l ↦ stopped-IsChanged laws mine new doc version now e e1 w w1 k v (
            sym (maybe_reload_settings_by mine latest (some (doc, version)) now e w k.current l)
            ∙ h)
      ]

  same_settings :
      (laws : KitLaws kit) (mine new : Settings kit) (version now : ℕ) (e : Running kit)
      (w : cl.World)
      → e.strategy ≡ build_strategy kit new
      → KeepsStrategy mine new version (reload_with kit cl mine mine version now e w)
  unfolding reload_with after_strategy put_in_effect
  same_settings laws mine new version now e w h =
      subst
        (λ (ch : List Field × List Field). KeepsStrategy mine new version (
          after_strategy kit cl ch mine version
            (elim (has_strategy kit ch.0) as (λ _. Ended × Running kit × cl.World) [
              | true ↦ change_strategy kit cl mine now e w
              | false ↦ (completed, e, w)
            ])))
        (sym (no_changes kit laws mine))
        (record { reported = refl; runtime = refl; version_read = refl; strategy = h })

  -- Where == of two JSON values holds exactly of equal ones, settings are in effect, and the
  -- reload of others stops with an error: a reload of a later version with the settings that
  -- are in effect again reports no change, makes them the runtime settings, and leaves the
  -- strategy of the others in place.
  pub reverted-KeepsStrategy :
      (laws : KitLaws kit) (mine new : Settings kit) (doc doc2 : kit.Document)
      (latest latest2 version version2 now now2 : ℕ) (e e1 : Running kit) (w w1 : cl.World)
      → InEffect kit e mine
      → kit.validate doc ≡ some new
      → kit.validate doc2 ≡ some mine
      → leb latest2 e.settings_version ≡ false
      → maybe_reload_settings kit cl latest (some (doc, version)) now e w ≡ (stopped, e1, w1)
      → KeepsStrategy mine new version2
          (maybe_reload_settings kit cl latest2 (some (doc2, version2)) now2 e1 w1)
  unfolding after_loading after_validation
  reverted-KeepsStrategy laws mine new doc doc2 latest latest2 version version2 now now2 e e1 w w1 k
        v v2 later h =
      let c = failed_change laws mine new doc latest version now e e1 w w1 k v h in
      rw
        (maybe_reload_settings_by mine latest2 (some (doc2, version2)) now2 e1 w1
          (c.runtime ∙ k.current) (ap (λ n. leb latest2 n) c.version ∙ later))
        (rw v2 (same_settings laws mine new version2 now2 e1 w1 c.strategy))
