-- ===== src/Market/Merging.antt =====
-- app/trading/market_state.py: what `merge_candles` does to the frame of a market.
use upbit_auto_trader.Prelude.{
  ℕ, String, ◌-◌, ◌≤◌, ◌<◌, ◌≡◌, refl, ap, ◌∙◌, Bool, false, not, ◌&&◌, ◌||◌, inl, inr, List, [],
  ◌∷◌, ◌++◌, arith, ltb, ◌==◌, if◌then◌else◌, All, length, Bool-cases, Option-cases, str_eq, zero,
  suc,
}
use upbit_auto_trader.Float.{Float}
use upbit_auto_trader.Dict
use upbit_auto_trader.Market.Candles.{
  Row, Candle, accepted, has_time, tidy, candles_to_dataframe, rows_of, drop_duplicates, sort_rows,
}
use upbit_auto_trader.Market.Frames.{
  Frames, times, unseen, drop_rows, newest, frame_of, combined, new_times,
}
use upbit_auto_trader.Market.Tables.{
  row_at, first_some, Later, IsAscending, row_at-append, row_at-tidy, tidy-IsAscending,
}

abbrev pub has : ℕ → List ℕ → Bool
has t [] = false
has t (u ∷ us) = u == t || has t us

abbrev pub AllLater : ℕ → List ℕ → Type 0
AllLater t = All (λ u. t < u)

abbrev pub Ascends : List ℕ → Type 0
Ascends [] = Unit
Ascends (t ∷ ts) = AllLater t ts × Ascends ts

module _ ⦃fl : Float⦄ where
  pub combined-IsAscending :
      (old rows : List Row) → IsAscending rows → IsAscending (combined old rows)
  unfolding combined
  combined-IsAscending [] rows a = a
  combined-IsAscending (r ∷ rs) rows a = tidy-IsAscending ((r ∷ rs) ++ rows)

  pub row_at-combined :
      (t : ℕ) (old rows : List Row)
      → row_at t (combined old rows) ≡ first_some (row_at t rows) (row_at t old)
  unfolding combined row_at
  row_at-combined t [] rows = elim (Option-cases (row_at t rows)) [
    | inl e ↦ rw e
    | inr (x, e) ↦ rw e
  ]
  row_at-combined t (r ∷ rs) rows = row_at-tidy t ((r ∷ rs) ++ rows) ∙ row_at-append t (r ∷ rs) rows

  has-times : (t : ℕ) (rs : List Row) → has t (times rs) ≡ has_time t rs
  unfolding times has_time
  has-times t [] = refl
  has-times t (r ∷ rs) = ap (λ b. r.time == t || b) (has-times t rs)

  has-unseen :
      (t : ℕ) (old rs : List Row) → has t (unseen old rs) ≡ (has_time t rs && not (has_time t old))
  unfolding unseen has_time
  has-unseen t old [] = refl
  has-unseen t old (r ∷ rs) = ground (arith, has-unseen t old rs)

  pub has-new_times :
      (t : ℕ) (old rs : List Row)
      → has t (new_times old rs) ≡ (has_time t rs && not (has_time t old))
  unfolding new_times has_time
  has-new_times t [] rs = ground (arith, has-times t rs)
  has-new_times t (r ∷ old) rs = has-unseen t (r ∷ old) rs

  times-AllLater : (t : ℕ) (rs : List Row) → Later t rs → AllLater t (times rs)
  unfolding times
  times-AllLater t [] l = tt
  times-AllLater t (r ∷ rs) l = (l.0, times-AllLater t rs l.1)

  times-Ascends : (rs : List Row) → IsAscending rs → Ascends (times rs)
  unfolding times
  times-Ascends [] a = tt
  times-Ascends (r ∷ rs) a = (times-AllLater r.time rs a.0, times-Ascends rs a.1)

  unseen-AllLater : (t : ℕ) (old rs : List Row) → Later t rs → AllLater t (unseen old rs)
  unfolding unseen
  unseen-AllLater t old [] l = tt
  unseen-AllLater t old (r ∷ rs) l = ground (arith, unseen-AllLater t old rs l.1)

  unseen-Ascends : (old rs : List Row) → IsAscending rs → Ascends (unseen old rs)
  unfolding unseen
  unseen-Ascends old [] a = tt
  unseen-Ascends old (r ∷ rs) a =
      ground (arith, unseen-Ascends old rs a.1, unseen-AllLater r.time old rs a.0)

  pub new_times-Ascends : (old rs : List Row) → IsAscending rs → Ascends (new_times old rs)
  unfolding new_times
  new_times-Ascends [] rs a = times-Ascends rs a
  new_times-Ascends (r ∷ old) rs a = unseen-Ascends (r ∷ old) rs a

  drop_rows-IsAscending : (n : ℕ) (rs : List Row) → IsAscending rs → IsAscending (drop_rows n rs)
  unfolding drop_rows
  drop_rows-IsAscending zero rs a = a
  drop_rows-IsAscending (suc n) [] a = tt
  drop_rows-IsAscending (suc n) (r ∷ rs) a = drop_rows-IsAscending n rs a.1

  length-drop_rows : (n : ℕ) (rs : List Row) → length (drop_rows n rs) ≡ length rs - n
  unfolding drop_rows
  length-drop_rows zero rs = omega arith
  length-drop_rows (suc n) [] = omega arith
  length-drop_rows (suc n) (r ∷ rs) = omega (arith, length-drop_rows n rs)

  pub newest-IsAscending : (n : ℕ) (rs : List Row) → IsAscending rs → IsAscending (newest n rs)
  unfolding newest
  newest-IsAscending n rs a = elim (Bool-cases (ltb n (length rs))) [
    | inl e ↦ rw e (drop_rows-IsAscending _ rs a)
    | inr e ↦ rw e a
  ]

  pub length-newest : (n : ℕ) (rs : List Row) → 0 < n → length (newest n rs) ≤ n
  unfolding newest
  length-newest n rs h = ground (arith, length-drop_rows (length rs - n) rs)

  pub newest_small : (n : ℕ) (rs : List Row) → (0 < n → length rs ≤ n) → newest n rs ≡ rs
  unfolding newest drop_rows
  newest_small zero rs h = ground arith
  newest_small (suc n) rs h = ground (arith, h (omega arith))

  pub candles_to_dataframe-eq-accepted :
      (cs : List Candle) (rows : List Row)
      → candles_to_dataframe cs ≡ accepted rows
      → rows ≡ tidy (rows_of cs)
  unfolding candles_to_dataframe tidy rows_of drop_duplicates sort_rows
  candles_to_dataframe-eq-accepted [] rows h = cc
  candles_to_dataframe-eq-accepted (c ∷ cs) rows h = ground arith

  pub frame_of-insert :
      (market m : String) (rs : List Row) (s : Frames)
      → frame_of (record s { candles = Dict.insert market rs s.candles }) m
        ≡ (if str_eq market m then rs else frame_of s m)
  unfolding frame_of
  frame_of-insert market m rs s = ground (arith, Dict.lookup-insert market m rs s.candles)
