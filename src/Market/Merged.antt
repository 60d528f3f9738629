-- ===== src/Market/Merged.antt =====
-- app/trading/market_state.py: an accepted call of `merge_candles`.
use upbit_auto_trader.Prelude.{
  ℕ, String, ◌+◌, ◌≤◌, ◌<◌, ◌≡◌, refl, ap, sym, ◌∙◌, Bool, true, false, not, ◌&&◌, ◌||◌, ◌⊎◌, inl,
  inr, none, some, List, [], ◌∷◌, arith, if◌then◌else◌, All, length, Option-cases, str_eq, eq_refl,
}
use upbit_auto_trader.Float.{Float}
use upbit_auto_trader.Dict
use upbit_auto_trader.Market.Candles.{
  Row, Candle, Checked, accepted, refused, has_time, tidy, drop_unclosed, candles_to_dataframe,
  rows_of, step_of, validate_candles,
}
use upbit_auto_trader.Market.Frames.{
  Frames, newest, frame_of, combined, new_times, merge_rows, merge_candles,
}
use upbit_auto_trader.Market.Tables.{
  row_at, first_some, IsAscending, has_time-eq-is_some, row_at-tidy, tidy-IsAscending,
  drop_unclosed-IsAscending, row_at-drop_unclosed, drop_unclosed-kept,
}
use upbit_auto_trader.Market.Merging.{
  has, Ascends, combined-IsAscending, row_at-combined, has-new_times, new_times-Ascends,
  newest_small, candles_to_dataframe-eq-accepted, frame_of-insert,
}
use upbit_auto_trader.Market.Sound.{IsSound, validate_candles-All}

module _ ⦃fl : Float⦄ where
  -- The frames hold sound rows in ascending order, and at most max_rows of them where that is not zero.
  pub record IsKept (s : Frames) : Type 0 where
    pub ascending : (m : String) → IsAscending (frame_of s m)
    pub sized : (m : String) → 0 < s.max_rows → length (frame_of s m) ≤ s.max_rows
    pub sound : (m : String) → All IsSound (frame_of s m)

  -- The rows of the frame come from a table that holds, at a closed time, the last candle sent for it
  -- and else the old row; the times are those of the table that the old frame lacked.
  pub record IsMerged (market : String) (candles : List Candle) (now : ℕ) (s : Frames) (ts : List ℕ)
      (s' : Frames) : Type 0 where
    pub table : List Row
    pub ascending : IsAscending table
    pub kept : frame_of s' market ≡ newest s.max_rows table
    pub closed :
        (t : ℕ)
        → t + step_of s.interval ≤ now
        → row_at t table ≡ first_some (row_at t (rows_of candles)) (row_at t (frame_of s market))
    pub others :
        (t : ℕ) (r : Row)
        → row_at t table ≡ some r
        → (row_at t (rows_of candles) ≡ some r) ⊎ (row_at t (frame_of s market) ≡ some r)
    pub ordered : Ascends ts
    pub reported : (t : ℕ) → has t ts ≡ (has_time t table && not (has_time t (frame_of s market)))
    pub elsewhere : (m : String) → str_eq market m ≡ false → frame_of s' m ≡ frame_of s m

  pub choose :
      (P : List Row → Type 0) {rs ss : List Row} (b : Bool) → P rs → P ss → P (if b then rs else ss)
  choose P true p q = p
  choose P false p q = q

  unfoldable pub insert_frame : String → List Row → Frames → Frames
  insert_frame market rs s = record s { candles = Dict.insert market rs s.candles }

  pub merge_rows-eq-accepted :
      (market : String) (r : Row) (rs : List Row) (s s' : Frames) (ts : List ℕ)
      → merge_rows market (r ∷ rs) s ≡ (accepted ts, s')
      → (validate_candles (r ∷ rs) (step_of s.interval) ≡ none)
        × (ts ≡ new_times (frame_of s market) (r ∷ rs))
        × (s' ≡ insert_frame market (newest s.max_rows (combined (frame_of s market) (r ∷ rs))) s)
  unfolding merge_rows insert_frame
  merge_rows-eq-accepted market r rs s s' ts h =
      elim (Option-cases (validate_candles (r ∷ rs) (step_of s.interval))) [
        | inl e ↦ (e, ground arith, ground arith)
        | inr (x, e) ↦ ground arith
      ]

  none_of_itself : (b : Bool) → false ≡ (b && not b)
  none_of_itself true = refl
  none_of_itself false = refl

  has_time-combined :
      (t : ℕ) (old rs : List Row) → has_time t (combined old rs) ≡ (has_time t rs || has_time t old)
  has_time-combined t old rs = grind (
    arith,
    has_time-eq-is_some t (combined old rs),
    has_time-eq-is_some t rs,
    has_time-eq-is_some t old,
    row_at-combined t old rs,
  )

  and_not_or : (a b : Bool) → (a && not b) ≡ ((a || b) && not b)
  and_not_or true b = refl
  and_not_or false b = none_of_itself b

  -- The table of a merge that takes in the rows `rows`.
  module _ (market : String) (candles : List Candle) (now : ℕ) (s : Frames) (k : IsKept s) where
    abbrev step : ℕ
    step = step_of s.interval

    abbrev sent : List Row
    sent = tidy (rows_of candles)

    abbrev pub rows : List Row
    rows = drop_unclosed sent step now

    abbrev old : List Row
    old = frame_of s market

    row_at_closed : (t : ℕ) → t + step ≤ now → row_at t rows ≡ row_at t (rows_of candles)
    row_at_closed t h = row_at-drop_unclosed t step now sent h ∙ row_at-tidy t (rows_of candles)

    row_at_kept : (t : ℕ) (r : Row) → row_at t rows ≡ some r → row_at t (rows_of candles) ≡ some r
    row_at_kept t r h =
        sym (row_at-tidy t (rows_of candles))
        ∙ drop_unclosed-kept t step now sent r (tidy-IsAscending (rows_of candles)) h

    pub rows-IsAscending : IsAscending rows
    rows-IsAscending = drop_unclosed-IsAscending step now sent (tidy-IsAscending (rows_of candles))

    no_rows-IsMerged : rows ≡ [] → IsMerged market candles now s [] s
    unfolding row_at
    no_rows-IsMerged e = record {
      table = old;
      ascending = k.ascending market;
      kept = sym (newest_small s.max_rows old (k.sized market));
      closed = λ t h. rw (sym (row_at_closed t h) ∙ ap (row_at t) e);
      others = λ t r h. inr h;
      ordered = tt;
      reported = λ t. none_of_itself (has_time t old);
      elsewhere = λ m h. refl;
    }

    found :
        (t : ℕ) (r : Row)
        → first_some (row_at t rows) (row_at t old) ≡ some r
        → (row_at t (rows_of candles) ≡ some r) ⊎ (row_at t old ≡ some r)
    found t r h = elim (Option-cases (row_at t rows)) [
      | inl e ↦ inr (cc)
      | inr (x, e) ↦ inl (row_at_kept t r (cc))
    ]

    rows-IsMerged :
        IsMerged market candles now s
          (new_times old rows)
          (insert_frame market (newest s.max_rows (combined old rows)) s)
    unfolding insert_frame
    rows-IsMerged = record {
      table = combined old rows;
      ascending = combined-IsAscending old rows rows-IsAscending;
      kept =
          rw (frame_of-insert market market (newest s.max_rows (combined old rows)) s)
            (rw (eq_refl market));
      closed = λ t h.
          row_at-combined t old rows ∙ ap (λ o. first_some o (row_at t old)) (row_at_closed t h);
      others = λ t r h. found t r (sym (row_at-combined t old rows) ∙ h);
      ordered = new_times-Ascends old rows rows-IsAscending;
      reported = λ t.
          has-new_times t old rows
          ∙ and_not_or (has_time t rows) (has_time t old)
          ∙ ap (λ b. b && not (has_time t old)) (sym (has_time-combined t old rows));
      elsewhere =
          λ m h. rw (frame_of-insert market m (newest s.max_rows (combined old rows)) s) (rw h);
    }

  pub merge_by_rows :
      (market : String) (rs : List Row) (s s' : Frames) (ts : List ℕ)
      → merge_rows market rs s ≡ (accepted ts, s')
      → ((rs ≡ []) × (ts ≡ []) × (s' ≡ s))
        ⊎ ((All IsSound rs)
            × (ts ≡ new_times (frame_of s market) rs)
            × (s' ≡ insert_frame market (newest s.max_rows (combined (frame_of s market) rs)) s))
  unfolding merge_rows
  merge_by_rows market [] s s' ts h = inl (refl, cc, cc)
  merge_by_rows market (r ∷ rs) s s' ts h =
      let (v, t, e) = merge_rows-eq-accepted market r rs s s' ts h in
      inr (validate_candles-All (r ∷ rs) (step_of s.interval) v, t, e)

  pub merge_candles-eq-accepted :
      (market : String) (candles : List Candle) (now : ℕ) (s s' : Frames) (ts : List ℕ)
      (d : Checked (List Row))
      → candles_to_dataframe candles ≡ d
      → merge_candles market candles now s ≡ (accepted ts, s')
      → merge_rows market (drop_unclosed (tidy (rows_of candles)) (step_of s.interval) now) s
        ≡ (accepted ts, s')
  unfolding merge_candles
  merge_candles-eq-accepted market candles now s s' ts (accepted rs) e h =
      rw (← candles_to_dataframe-eq-accepted candles rs e) (rw (e, merge_candles) at h)
  merge_candles-eq-accepted market candles now s s' ts (refused x) e h = ground arith

  -- Of frames with ascending, sound rows within max_rows: an accepted merge leaves the other
  -- markets alone, and in the frame the newest max_rows rows of an ascending table; at a closed
  -- time the table has the last candle sent for it, else the row that the frame had, and at
  -- another time one of these; the returned times ascend and are those of the table that the
  -- frame lacked.
  pub merge_candles_lem :
      (market : String) (candles : List Candle) (now : ℕ) (s s' : Frames) (ts : List ℕ)
      → IsKept s
      → merge_candles market candles now s ≡ (accepted ts, s')
      → IsMerged market candles now s ts s'
  merge_candles_lem market candles now s s' ts k h =
      elim (merge_by_rows market _ s s' ts (
        merge_candles-eq-accepted market candles now s s' ts (candles_to_dataframe candles) refl
          h)) [
            | inl (e, et, es) ↦ rw (et, es) (no_rows-IsMerged market candles now s k e)
            | inr (q, et, es) ↦ rw (et, es) (rows-IsMerged market candles now s k)
          ]
