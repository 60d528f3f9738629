-- ===== src/Market/Kept.antt =====
-- app/trading/market_state.py: the frames after any calls of `merge_candles`.
use upbit_auto_trader.Prelude.{
  ℕ, String, ◌≤◌, ◌<◌, ◌≡◌, refl, inl, inr, List, [], ◌∷◌, arith, All, length, Option-cases, str_eq,
}
use upbit_auto_trader.Float.{Float}
use upbit_auto_trader.Dict
use upbit_auto_trader.Exchange.Interval.{CandleInterval}
use upbit_auto_trader.Market.Candles.{
  Row, Candle, Checked, MarketDataError, accepted, refused, drop_unclosed, candles_to_dataframe,
  step_of, validate_candles,
}
use upbit_auto_trader.Market.Frames.{Frames, newest, frame_of, combined, merge_rows, merge_candles}
use upbit_auto_trader.Market.Tables.{IsAscending}
use upbit_auto_trader.Market.Merging.{
  combined-IsAscending, newest-IsAscending, length-newest, frame_of-insert,
}
use upbit_auto_trader.Market.Sound.{IsSound, All-newest, All-combined}
use upbit_auto_trader.Market.Merged.{
  IsKept, choose, insert_frame, rows, rows-IsAscending, merge_by_rows, merge_candles-eq-accepted,
}

module _ ⦃fl : Float⦄ where
  insert_frame-IsKept :
      (market : String) (rs : List Row) (s : Frames)
      → IsKept s
      → IsAscending rs
      → (0 < s.max_rows → length rs ≤ s.max_rows)
      → All IsSound rs
      → IsKept (insert_frame market rs s)
  unfolding insert_frame
  insert_frame-IsKept market rs s k a l q = record {
    ascending = λ m.
        rw (frame_of-insert market m rs s)
          (choose (λ fs. IsAscending fs) (str_eq market m) a (k.ascending m));
    sized = λ m h.
        rw (frame_of-insert market m rs s)
          (choose (λ fs. length fs ≤ s.max_rows) (str_eq market m) (l h) (k.sized m h));
    sound = λ m.
        rw (frame_of-insert market m rs s)
          (choose (λ fs. All IsSound fs) (str_eq market m) q (k.sound m));
  }

  combined-IsKept :
      (market : String) (rs : List Row) (s : Frames)
      → IsKept s
      → IsAscending rs
      → All IsSound rs
      → IsKept (insert_frame market (newest s.max_rows (combined (frame_of s market) rs)) s)
  combined-IsKept market rs s k a q =
      let whole = combined (frame_of s market) rs in
      insert_frame-IsKept market (newest s.max_rows whole) s k
        (newest-IsAscending s.max_rows whole (combined-IsAscending (frame_of s market) rs a))
        (length-newest s.max_rows whole)
        (All-newest IsSound s.max_rows whole
          (All-combined IsSound (frame_of s market) rs (k.sound market) q))

  merge_rows-refused :
      (market : String) (rs : List Row) (s s' : Frames) (e : MarketDataError)
      → merge_rows market rs s ≡ (refused e, s')
      → s' ≡ s
  unfolding merge_rows
  merge_rows-refused market [] s s' e h = ground arith
  merge_rows-refused market (r ∷ rs) s s' e h =
      elim (Option-cases (validate_candles (r ∷ rs) (step_of s.interval))) [
        | inl v ↦ ground arith
        | inr (x, v) ↦ ground arith
      ]

  -- A merge that is refused leaves the frames as they are.
  pub merge_candles-refused :
      (market : String) (candles : List Candle) (now : ℕ) (s s' : Frames) (e : MarketDataError)
      (d : Checked (List Row))
      → candles_to_dataframe candles ≡ d
      → merge_candles market candles now s ≡ (refused e, s')
      → s' ≡ s
  unfolding merge_candles
  merge_candles-refused market candles now s s' e (accepted rs) eq h =
      merge_rows-refused market (drop_unclosed rs (step_of s.interval) now) s s' e
        (rw (eq, merge_candles) at h)
  merge_candles-refused market candles now s s' e (refused x) eq h = ground arith

  pub IsKept-after :
      (market : String) (candles : List Candle) (now : ℕ) (s : Frames)
      (z : Checked (List ℕ) × Frames)
      → IsKept s
      → merge_candles market candles now s ≡ z
      → IsKept z.1
  IsKept-after market candles now s (refused e, s') k h =
      rw (merge_candles-refused market candles now s s' e (candles_to_dataframe candles) refl h) k
  IsKept-after market candles now s (accepted ts, s') k h =
      let rs = rows market candles now s k in
      elim (merge_by_rows market rs s s' ts (
        merge_candles-eq-accepted market candles now s s' ts (candles_to_dataframe candles) refl
          h)) [
            | inl (e, et, es) ↦ rw es k
            | inr (q, et, es) ↦
                rw es (combined-IsKept market rs s k (rows-IsAscending market candles now s k) q)
          ]

  -- The frames after any calls, each with its market, its candles and its time.
  unfoldable pub merge_all : List (String × List Candle × ℕ) → Frames → Frames
  merge_all [] s = s
  merge_all ((market, candles, now) ∷ calls) s =
      merge_all calls (merge_candles market candles now s).1

  abbrev pub no_frames : CandleInterval → ℕ → Frames
  no_frames interval max_rows = record { interval = interval; max_rows = max_rows; candles = [] }

  merge_all-IsKept :
      (calls : List (String × List Candle × ℕ)) (s : Frames) → IsKept s → IsKept (merge_all calls s)
  unfolding merge_all
  merge_all-IsKept [] s k = k
  merge_all-IsKept ((market, candles, now) ∷ calls) s k =
      merge_all-IsKept calls (merge_candles market candles now s).1
        (IsKept-after market candles now s (merge_candles market candles now s) k refl)

  no_frames-IsKept :
      (interval : CandleInterval) (max_rows : ℕ) → IsKept (no_frames interval max_rows)
  unfolding frame_of Dict.lookup
  no_frames-IsKept interval max_rows = record {
    ascending = λ m. tt;
    sized = λ m h. omega arith;
    sound = λ m. tt;
  }

  -- Whatever candles come from the exchange, in whatever order, every frame holds rows with prices
  -- above zero, no high below its low and no negative volume, in ascending order with no time twice,
  -- and at most max_rows of them where that is not zero.
  pub frames-IsKept :
      (interval : CandleInterval) (max_rows : ℕ) (calls : List (String × List Candle × ℕ))
      → IsKept (merge_all calls (no_frames interval max_rows))
  frames-IsKept interval max_rows calls =
      merge_all-IsKept calls (no_frames interval max_rows) (no_frames-IsKept interval max_rows)
