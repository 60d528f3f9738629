-- ===== src/Market/Sound.antt =====
-- app/strategy/data.py and app/trading/market_state.py: what holds of every row, through the steps of a merge.
use upbit_auto_trader.Prelude.{
  ℕ, ◌≡◌, false, none, List, [], ◌∷◌, ◌++◌, arith, leb, ltb, All, length, Bool-cases, zero, suc,
  inl, inr,
}
use upbit_auto_trader.Float.{Float, nil}
use upbit_auto_trader.Market.Candles.{
  Row, has_time, tidy, drop_duplicates, insert_row, sort_rows, validate_candles, any_row,
  has_no_price, contradicts, lacks_volume,
}
use upbit_auto_trader.Market.Frames.{drop_rows, newest, combined}

module _ ⦃fl : Float⦄ where
  -- Every price is above zero, the high is not below the low, and the volume is not negative.
  abbrev pub IsSound : Row → Type 0
  IsSound r =
      (fl.le r.opening nil ≡ false)
      × (fl.le r.high nil ≡ false)
      × (fl.le r.low nil ≡ false)
      × (fl.le r.closing nil ≡ false)
      × (fl.lt r.high r.low ≡ false)
      × (fl.lt r.volume nil ≡ false)

  module _ (P : Row → Type 0) where
    All-drop_duplicates : (rs : List Row) → All P rs → All P (drop_duplicates rs)
    unfolding drop_duplicates
    All-drop_duplicates [] h = tt
    All-drop_duplicates (r ∷ rs) h = elim (Bool-cases (has_time r.time rs)) [
      | inl e ↦ rw e (All-drop_duplicates rs h.1)
      | inr e ↦ rw e (h.0, All-drop_duplicates rs h.1)
    ]

    All-insert_row : (r : Row) (rs : List Row) → P r → All P rs → All P (insert_row r rs)
    unfolding insert_row
    All-insert_row r [] p h = (p, tt)
    All-insert_row r (s ∷ rs) p h = elim (Bool-cases (leb r.time s.time)) [
      | inl e ↦ rw e (p, h)
      | inr e ↦ rw e (h.0, All-insert_row r rs p h.1)
    ]

    All-sort_rows : (rs : List Row) → All P rs → All P (sort_rows rs)
    unfolding sort_rows
    All-sort_rows [] h = tt
    All-sort_rows (r ∷ rs) h = All-insert_row r (sort_rows rs) h.0 (All-sort_rows rs h.1)

    All-append : (rs ss : List Row) → All P rs → All P ss → All P (rs ++ ss)
    All-append [] ss h k = k
    All-append (r ∷ rs) ss h k = (h.0, All-append rs ss h.1 k)

    All-drop_rows : (n : ℕ) (rs : List Row) → All P rs → All P (drop_rows n rs)
    unfolding drop_rows
    All-drop_rows zero rs h = h
    All-drop_rows (suc n) [] h = tt
    All-drop_rows (suc n) (r ∷ rs) h = All-drop_rows n rs h.1

    pub All-newest : (n : ℕ) (rs : List Row) → All P rs → All P (newest n rs)
    unfolding newest
    All-newest n rs h = elim (Bool-cases (ltb n (length rs))) [
      | inl e ↦ rw e (All-drop_rows _ rs h)
      | inr e ↦ rw e h
    ]

    pub All-combined : (old rows : List Row) → All P old → All P rows → All P (combined old rows)
    unfolding combined tidy
    All-combined [] rows h k = k
    All-combined (r ∷ rs) rows h k =
        All-sort_rows (drop_duplicates ((r ∷ rs) ++ rows))
          (All-drop_duplicates ((r ∷ rs) ++ rows) (All-append (r ∷ rs) rows h k))

  All-IsSound :
      (rs : List Row)
      → any_row has_no_price rs ≡ false
      → any_row contradicts rs ≡ false
      → any_row lacks_volume rs ≡ false
      → All IsSound rs
  unfolding any_row has_no_price contradicts lacks_volume
  All-IsSound [] p c v = tt
  All-IsSound (r ∷ rs) p c v =
      (ground arith, All-IsSound rs (ground arith) (ground arith) (ground arith))

  pub validate_candles-All :
      (rs : List Row) (step : ℕ) → validate_candles rs step ≡ none → All IsSound rs
  unfolding validate_candles
  validate_candles-All [] step h = tt
  validate_candles-All (r ∷ rs) step h =
      All-IsSound (r ∷ rs) (ground arith) (ground arith) (ground arith)
