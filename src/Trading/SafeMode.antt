-- ===== src/Trading/SafeMode.antt =====
-- app/trading/engine.py: when the isolation of the loop's steps begins the safe mode.
use upbit_auto_trader.Prelude.{
  ℕ, suc, ◌≡◌, refl, ap, ◌∙◌, Bool, true, false, ◌&&◌, ◌||◌, not, List, [], ◌∷◌, leb, arith,
  either_known, All,
}
use upbit_auto_trader.Float.{Float}
use upbit_auto_trader.Trading.Engine.{Broker, Engine, Ended, completed, failed}
use upbit_auto_trader.Trading.Loop.{guarded, note_failure, safe_mode_after_failures}

-- How many of the latest steps in a row failed; the steps come last first.
unfoldable pub failed_in_a_row : List Ended → ℕ
failed_in_a_row [] = 0
failed_in_a_row (completed ∷ past) = 0
failed_in_a_row (failed ∷ past) = suc (failed_in_a_row past)

-- Whether at some time the ten latest steps had all failed.
unfoldable pub ten_failed : List Ended → Bool
unfolding failed_in_a_row
ten_failed [] = false
ten_failed (s ∷ past) = ten_failed past || leb 10 (failed_in_a_row (s ∷ past))

or_false : (c : Bool) → c ≡ c || false
or_false true = refl
or_false false = refl

module _ ⦃fl : Float⦄ (b : Broker) where
  -- A step: how it ended, and what it did to the engine.
  abbrev pub GuardedStep : Type 0
  GuardedStep = Ended × (Engine b → Engine b)

  unfoldable pub ends : List GuardedStep → List Ended
  ends [] = []
  ends ((s, act) ∷ past) = s ∷ ends past

  -- The engine after these steps, which come last first.
  unfoldable pub after_steps : List GuardedStep → Engine b → Engine b
  after_steps [] e = e
  after_steps ((s, act) ∷ past) e = (guarded b (s, act (after_steps past e))).1

  -- The safe mode and the count of the failed steps are these.
  abbrev pub IsAt : Bool → ℕ → Engine b → Type 0
  IsAt safe n e = (e.safe_mode ≡ safe) × (e.step_failures ≡ n)

  -- No step touches the safe mode or the count itself.
  abbrev pub Apart : List GuardedStep → Type 0
  Apart = All (λ (s : GuardedStep). (x : Engine b) → IsAt x.safe_mode x.step_failures (s.1 x))

  note_failure-IsAt :
      (e : Engine b)
      → IsAt (e.safe_mode || leb 10 (suc e.step_failures)) (suc e.step_failures) (note_failure b e)
  unfolding note_failure
  note_failure-IsAt e =
      either_known (IsAt (e.safe_mode || leb 10 (suc e.step_failures)) (suc e.step_failures))
        (not e.safe_mode && leb safe_mode_after_failures (suc e.step_failures))
        (λ begins. (ground arith, refl)) (λ stays. (ground arith, refl))

  -- From an engine without safe mode and failures, through any steps each of which does what it does
  -- to the engine but leaves the safe mode and the count of failures to `guarded`: the safe mode is on
  -- if and only if at some time the ten latest steps had all failed, and the count is that of the
  -- failed steps since the last one that went through.
  pub safe_mode_after_ten :
      (history : List GuardedStep) (e : Engine b)
      → Apart history
      → IsAt false 0 e
      → IsAt (ten_failed (ends history)) (failed_in_a_row (ends history)) (after_steps history e)
  unfolding after_steps guarded ten_failed failed_in_a_row ends
  safe_mode_after_ten [] e apart begun = begun
  safe_mode_after_ten ((completed, act) ∷ past) e (one, apart) begun =
      let x = after_steps past e in
      let (safe, n) = safe_mode_after_ten past e apart begun in
      let (same_safe, _) = one x in (same_safe ∙ safe ∙ or_false (ten_failed (ends past)), refl)
  safe_mode_after_ten ((failed, act) ∷ past) e (one, apart) begun =
      let x = after_steps past e in
      let (safe, n) = safe_mode_after_ten past e apart begun in
      let (same_safe, same_n) = one x in
      let (now_safe, now_n) = note_failure-IsAt (act x) in
      let m : (act x).step_failures ≡ failed_in_a_row (ends past) = same_n ∙ n in
      (
        now_safe
            ∙ ap (λ (k : ℕ). (act x).safe_mode || leb 10 (suc k)) m
            ∙ ap (λ c. c || leb 10 (suc (failed_in_a_row (ends past)))) (same_safe ∙ safe),
        now_n ∙ ap suc m,
      )
