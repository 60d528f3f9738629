-- ===== src/Backtest/Rules.antt =====
-- app/backtest/engine.py: what the parts of the loop do, where they do not raise.
use upbit_auto_trader.Prelude.{
  ℕ, String, ◌≡◌, refl, true, Option, none, inl, inr, List, [], ◌∷◌, ◌++◌, All,
}
use mathlib.Core.Path.{subst}
use upbit_auto_trader.Float.{Float}
use upbit_auto_trader.Portfolio.Account.{PortfolioError, Result, ok, err, Fill, text, Position}
use upbit_auto_trader.Portfolio.Trading.{buy, settle_buy, settle_sell, sells_all}
use upbit_auto_trader.Portfolio.Outcomes.{IsBought, IsSold, buy_outcome, sell_outcome}
use upbit_auto_trader.Backtest.Engine.{◌>>=◌, Run, record_new_trades, sell_out, bought_or_noted}

-- A statement on what is returned, where nothing is raised.
abbrev pub Ensures : {A : Type 0} → (A → Type 0) → Result A → Type 0
Ensures P (ok a) = P a
Ensures P (err e) = Unit {0}

pub Ensures->>= :
    {A B : Type 0} (P : A → Type 0) (Q : B → Type 0) (m : Result A) (f : A → Result B)
    → Ensures P m
    → ((a : A) → P a → Ensures Q (f a))
    → Ensures Q (m >>= f)
Ensures->>= P Q (ok a) f h k = k a h
Ensures->>= P Q (err e) f h k = tt

pub Ensures-ok : {A : Type 0} (P : A → Type 0) (m : Result A) (a : A) → m ≡ ok a → Ensures P m → P a
Ensures-ok P m a e h = subst (Ensures P) e h

-- The statement holds of the value that is returned, whatever is known of it besides.
pub Ensures-known :
    {A : Type 0} (P : A → Type 0) (m : Result A) → Ensures P m → Ensures (λ a. P a × (m ≡ ok a)) m
Ensures-known P (ok a) h = (h, refl)
Ensures-known P (err e) h = tt

pub anything : {A : Type 0} (m : Result A) → Ensures (λ a. Unit {0}) m
anything (ok a) = tt
anything (err e) = tt

pub All-append :
    {A : Type 0} (P : A → Type 0) (xs ys : List A) → All P xs → All P ys → All P (xs ++ ys)
All-append P [] ys h k = k
All-append P (x ∷ xs) ys h k = (h.0, All-append P xs ys h.1 k)

module _ ⦃fl : Float⦄ where
  -- A sale of all that is held raises, or settles one fill that closes the position.
  pub sell_out_rule :
      (market : String) (price : fl.Num) (reason : String) (now : ℕ) (r : Run) (P : Run → Type 0)
      → ((pos : Position) (f : Fill)
          → IsSold market price now none true r.portfolio pos f
          → P (record_new_trades now (record r { portfolio = settle_sell r.portfolio pos true f })))
      → Ensures P (sell_out market price reason now r)
  unfolding sell_out sells_all
  sell_out_rule market price reason now r P k =
      elim (sell_outcome market price now none (text reason) none true r.portfolio) [
        | inl (e, raised) ↦ rw raised tt
        | inr (pos, f, settled, sold) ↦ rw settled (k pos f sold)
      ]

  -- A purchase is noted as refused, with the account as it was, or settles one fill.
  pub bought_rule :
      (market : String) (price : fl.Num) (now : ℕ) (amount : Option fl.Num) (reason : String)
      (r : Run) (P : Run → Type 0)
      → ((e : PortfolioError) → P (record r { rejected = r.rejected ++ (now, e) ∷ [] }))
      → ((f : Fill)
          → IsBought market price now true r.portfolio f
          → P (record r { portfolio = settle_buy r.portfolio f }))
      → P (
          bought_or_noted now
            (buy market price now amount none (text reason) none true r.portfolio)
            r)
  unfolding bought_or_noted
  bought_rule market price now amount reason r P refused bought =
      elim (buy_outcome market price now amount none (text reason) none true r.portfolio) [
        | inl (e, raised) ↦ rw raised (refused e)
        | inr (f, settled, h) ↦ rw settled (bought f h)
      ]
