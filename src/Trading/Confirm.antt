-- ===== src/Trading/Confirm.antt =====
-- app/trading/engine.py: when a streak of exit checks confirms an exit.
use upbit_auto_trader.Prelude.{
  ℕ, zero, suc, ◌≤◌, ◌<◌, ◌≡◌, refl, ap, ◌∙◌, Bool, true, false, ◌&&◌, not, Option, none, some,
  List, [], ◌∷◌, ◌++◌, ◌⊎◌, inl, inr, ltb, arith, either, either_known,
}
use mathlib.Core.Path.{subst}
use mathlib.Core.Bool.{false≢true}
use upbit_auto_trader.Risk.Exits.{ExitReason, stop_loss, take_profit, trailing_stop}
use upbit_auto_trader.Trading.Exits.{Streak, same_reason, next_streak, observe}

-- `n` exit checks in a row that found this reason.
unfoldable pub repeated : ℕ → ExitReason → List (Option ExitReason)
repeated zero r = []
repeated (suc n) r = some r ∷ repeated n r

-- Whether the latest of these checks, which come last first, confirmed an exit, and the streak.
unfoldable pub seen : ℕ → List (Option ExitReason) → Bool × Streak
seen ticks [] = (false, none)
seen ticks (c ∷ past) = observe false ticks (seen ticks past).1 c

same_reason_refl : (r : ExitReason) → same_reason r r ≡ true
unfolding same_reason
same_reason_refl stop_loss = refl
same_reason_refl take_profit = refl
same_reason_refl trailing_stop = refl

same_reason-path : (r s : ExitReason) → same_reason r s ≡ true → r ≡ s
unfolding same_reason
same_reason-path stop_loss stop_loss h = refl
same_reason-path stop_loss take_profit h = elim (false≢true h) [ ]
same_reason-path stop_loss trailing_stop h = elim (false≢true h) [ ]
same_reason-path take_profit stop_loss h = elim (false≢true h) [ ]
same_reason-path take_profit take_profit h = refl
same_reason-path take_profit trailing_stop h = elim (false≢true h) [ ]
same_reason-path trailing_stop stop_loss h = elim (false≢true h) [ ]
same_reason-path trailing_stop take_profit h = elim (false≢true h) [ ]
same_reason-path trailing_stop trailing_stop h = refl

-- The history begins with so many checks of this reason.
abbrev BeginsWith : ℕ → ExitReason → List (Option ExitReason) → Type 0
BeginsWith n r history = (older : List (Option ExitReason)) × (history ≡ repeated n r ++ older)

-- A streak is short of the ticks, and the history has it.
abbrev IsBacked : ℕ → List (Option ExitReason) → Streak → Type 0
IsBacked ticks history none = Unit {0}
IsBacked ticks history (some (r, n)) = (n < ticks) × BeginsWith n r history

begins_one_more :
    (n : ℕ) (r : ExitReason) (history : List (Option ExitReason))
    → BeginsWith n r history
    → BeginsWith (suc n) r (some r ∷ history)
unfolding repeated
begins_one_more n r history (older, e) = (older, ap (λ l. some r ∷ l) e)

-- The streak with one more check of this reason is in the history too.
next_streak-IsBacked :
    (ticks : ℕ) (history : List (Option ExitReason)) (s : Streak) (r : ExitReason)
    → 0 < ticks
    → IsBacked ticks history s
    → (next_streak s r ≤ ticks) × BeginsWith (next_streak s r) r (some r ∷ history)
unfolding next_streak repeated
next_streak-IsBacked ticks history none r pos h = (ground arith, (history, refl))
next_streak-IsBacked ticks history (some (r', n)) r pos (less, (older, e)) =
    either_known (λ (k : ℕ). (k ≤ ticks) × BeginsWith k r (some r ∷ history)) (same_reason r' r)
      (λ same.
        let begun = subst (λ x. BeginsWith n x history) (same_reason-path r' r same) (older, e) in
        (ground arith, begins_one_more n r history begun))
      (λ other. (ground arith, (history, refl)))

-- What the latest check leaves, and what it takes to confirm an exit.
abbrev IsSeen : ℕ → List (Option ExitReason) → Bool × Streak → Type 0
IsSeen ticks history (confirmed, s) =
    IsBacked ticks history s × (confirmed ≡ true → (r : ExitReason) × BeginsWith ticks r history)

observe-IsSeen :
    (ticks : ℕ) (history : List (Option ExitReason)) (s : Streak) (c : Option ExitReason)
    → 0 < ticks
    → IsBacked ticks history s
    → IsSeen ticks (c ∷ history) (observe false ticks s c)
unfolding observe
observe-IsSeen ticks history s none pos h = (tt, λ e. elim (false≢true e) [ ])
observe-IsSeen ticks history s (some r) pos h =
    let (most, begun) = next_streak-IsBacked ticks history s r pos h in
    let n = next_streak s r in
    either_known (IsSeen ticks (some r ∷ history)) (not false && ltb n ticks)
      (λ short. ((ground arith, begun), λ e. elim (false≢true e) [ ]))
      (λ reached.
        let all : n ≡ ticks = ground arith in
        (tt, λ e. (r, subst (λ k. BeginsWith k r (some r ∷ history)) all begun)))

seen-IsSeen :
    (ticks : ℕ) (history : List (Option ExitReason))
    → 0 < ticks
    → IsSeen ticks history (seen ticks history)
unfolding seen
seen-IsSeen ticks [] pos = (tt, λ e. elim (false≢true e) [ ])
seen-IsSeen ticks (c ∷ past) pos =
    observe-IsSeen ticks past (seen ticks past).1 c pos (seen-IsSeen ticks past pos).0

-- Where an exit is confirmed without force, the latest exit_confirm_ticks checks, which are at least
-- one, found one and the same reason.
pub confirmed_after_repeats :
    (ticks : ℕ) (history : List (Option ExitReason))
    → 0 < ticks
    → (seen ticks history).0 ≡ true
    → (r : ExitReason) × (older : List (Option ExitReason)) × (history ≡ repeated ticks r ++ older)
confirmed_after_repeats ticks history pos h =
    let (r, (older, e)) = (seen-IsSeen ticks history pos).1 h in (r, older, e)

-- One of the last `j` checks confirmed, or the streak with one more check is longer than `j`.
abbrev Confirms : ℕ → ExitReason → List (Option ExitReason) → ℕ → Type 0
Confirms ticks r older j = (k : ℕ) × (k < j) × ((seen ticks (repeated (suc k) r ++ older)).0 ≡ true)

next_streak_positive : (s : Streak) (r : ExitReason) → 0 < next_streak s r
unfolding next_streak
next_streak_positive none r = ground arith
next_streak_positive (some (r', n)) r =
    either (λ (k : ℕ). 0 < k) (same_reason r' r) (ground arith) (ground arith)

next_streak_same : (r : ExitReason) (n : ℕ) → next_streak (some (r, n)) r ≡ suc n
unfolding next_streak
next_streak_same r n =
    ap (λ c. elim c as (λ _. ℕ) [ true ↦ suc n | false ↦ 1 ]) (same_reason_refl r)

-- A check that does not confirm leaves the longer streak.
abbrev Counts : ExitReason → ℕ → Bool × Streak → Type 0
Counts r n (confirmed, s) = (confirmed ≡ true) ⊎ (s ≡ some (r, n))

observe-Counts :
    (ticks : ℕ) (s : Streak) (r : ExitReason)
    → Counts r (next_streak s r) (observe false ticks s (some r))
unfolding observe
observe-Counts ticks s r =
    either (Counts r (next_streak s r)) (not false && ltb (next_streak s r) ticks) (inr refl)
      (inl refl)

longer_or_confirmed :
    (ticks : ℕ) (r : ExitReason) (older : List (Option ExitReason)) (j : ℕ)
    → Confirms ticks r older j ⊎ (j < next_streak (seen ticks (repeated j r ++ older)).1 r)
unfolding seen repeated
longer_or_confirmed ticks r older zero = inr (next_streak_positive (seen ticks older).1 r)
longer_or_confirmed ticks r older (suc j) =
    let s = (seen ticks (repeated j r ++ older)).1 in
    elim (longer_or_confirmed ticks r older j) [
      | inl (k, less, fires) ↦ inl (k, ground arith, fires)
      | inr longer ↦ elim (observe-Counts ticks s r) [
        | inl fires ↦ inl (j, ground arith, fires)
        | inr counted ↦
            let next : next_streak (seen ticks (repeated (suc j) r ++ older)).1 r
                ≡ suc (next_streak s r) =
              ap (λ x. next_streak x r) counted ∙ next_streak_same r (next_streak s r) in
            inr (ground arith)
      ]
    ]

-- Where exit_confirm_ticks checks in a row, at least one, find the same reason, one of them confirms
-- the exit, whatever came before.
pub repeats_confirm :
    (ticks : ℕ) (r : ExitReason) (older : List (Option ExitReason))
    → 0 < ticks
    → (k : ℕ) × (k < ticks) × ((seen ticks (repeated (suc k) r ++ older)).0 ≡ true)
repeats_confirm ticks r older pos = elim (longer_or_confirmed ticks r older ticks) [
  | inl found ↦ found
  | inr longer ↦
      let history = repeated ticks r ++ older in
      let (most, _) =
        next_streak-IsBacked ticks history (seen ticks history).1 r pos
          (seen-IsSeen ticks history pos).0 in
      ground arith
]
