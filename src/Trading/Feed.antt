-- ===== src/Trading/Feed.antt =====
-- app/trading/engine.py: the candles of a market, `_fetch_candles`, `_refill_gaps`, and `process_closed_candles` up to
-- the candles that closed. The call of the exchange is a parameter.
use upbit_auto_trader.Prelude.{
  ℕ, zero, suc, String, true, false, Option, none, some, List, [], ◌∷◌, ◌++◌, ◌+◌, ◌-◌, ◌/◌, length,
  ltb, ◌==◌, if◌then◌else◌,
}
use upbit_auto_trader.Float.{Float}
use upbit_auto_trader.Market.Candles.{accepted, refused, MarketDataError, step_of, Candle}
use upbit_auto_trader.Market.Frames.{Frames, merge_candles, find_gaps}

module _ ⦃fl : Float⦄ where
  -- `client.get_candles(market, interval, count, to)`; `none` is a `TraderError`.
  pub record CandleClient : Type 1 where
    pub World : Type 0
    pub get_candles :
        (market : String) (count : ℕ) (to : Option ℕ) → World → Option (List Candle) × World

  -- `min(c.candle_date_time_utc for c in batch)`, of a batch that begins with `c`.
  unfoldable pub earliest : Candle → List Candle → ℕ
  earliest c [] = c.candle_date_time_utc
  earliest c (d ∷ cs) =
      let rest = earliest d cs in
      if ltb rest c.candle_date_time_utc then rest else c.candle_date_time_utc

  -- How the loop of `_fetch_candles` ends; `unfinished` where the fuel ran out.
  pub data Fetch : Type 0 where
    collected : List Candle → Fetch
    raised unfinished : Fetch

  -- What follows on the market's new candles: none of them was fetched, the answer was refused, the
  -- check raised, or the candles of these times closed.
  pub data Feed : Type 0 where
    not_fetched not_valid no_new : Feed
    stopped : MarketDataError → Feed
    closed : List ℕ → Feed

  -- `sorted(set(a) | set(b))`
  unfoldable pub insert_time : ℕ → List ℕ → List ℕ
  insert_time t [] = t ∷ []
  insert_time t (u ∷ us) =
      let rest = insert_time t us in
      if t == u then u ∷ us else if ltb t u then t ∷ u ∷ us else u ∷ rest

  unfoldable pub union : List ℕ → List ℕ → List ℕ
  unfolding insert_time
  union [] us = us
  union (t ∷ ts) us = insert_time t (union ts us)

  module _ (cl : CandleClient) where
    unfoldable pub requested : ℕ → ℕ
    requested remaining = if ltb 200 remaining then 200 else remaining

    -- What a round does with the answer; `go` is the next round.
    unfoldable pub after_batch :
        (go : ℕ → Option ℕ → List Candle → cl.World → Fetch × cl.World) (remaining : ℕ)
        (got : List Candle)
        → Option (List Candle)
        → cl.World
        → Fetch × cl.World
    unfolding requested earliest
    after_batch go remaining got none w = (raised, w)
    after_batch go remaining got (some []) w = (collected got, w)
    after_batch go remaining got (some (c ∷ cs)) w =
        elim (ltb (length (c ∷ cs)) (requested remaining)) [
          | true ↦ (collected (got ++ c ∷ cs), w)
          | false ↦ go (remaining - length (c ∷ cs)) (some (earliest c cs)) (got ++ c ∷ cs) w
        ]

    -- One round for each unit of fuel. `remaining` may fall below 0 in the code, which ends the loop too.
    unfoldable pub fetch_from :
        ℕ → String → ℕ → Option ℕ → List Candle → cl.World → Fetch × cl.World
    unfolding after_batch
    fetch_from zero market remaining to got w = (unfinished, w)
    fetch_from (suc fuel) market remaining to got w =
        let (answer, w') = cl.get_candles market (requested remaining) to w in
        elim (ltb 0 remaining) [
          | false ↦ (collected got, w)
          | true ↦ after_batch (fetch_from fuel market) remaining got answer w'
        ]

    -- The fuel is one round more than the candles that are wanted.
    unfoldable pub fetch_candles : String → ℕ → cl.World → Fetch × cl.World
    unfolding fetch_from
    fetch_candles market count w = fetch_from (suc count) market count none [] w

    -- `int((now - first_gap[0]) // interval) + 2`; a gap begins at a candle that has closed.
    unfoldable pub span : ℕ → ℕ → ℕ → ℕ
    span now from step = (now - from) / step + 2

    unfoldable pub refill_count : (max_rows warmup_candles span : ℕ) → ℕ
    refill_count max_rows warmup span =
        let most = if ltb (warmup + 1) span then span else warmup + 1 in
        if ltb most max_rows then most else max_rows

    -- From the answer of the second request on.
    unfoldable pub after_refetch : String → ℕ → List ℕ → Fetch → Frames → Feed × Frames
    unfolding union
    after_refetch market now new (collected candles) s =
        elim (merge_candles market candles now s).0 [
          | refused e ↦ (stopped e, (merge_candles market candles now s).1)
          | accepted more ↦ (closed (union new more), (merge_candles market candles now s).1)
        ]
    after_refetch market now new raised s = (closed new, s)
    after_refetch market now new unfinished s = (closed new, s)

    unfoldable pub refill_gaps :
        ℕ → String → List (ℕ × ℕ) → List ℕ → ℕ → Frames → cl.World → Feed × Frames × cl.World
    unfolding fetch_candles after_refetch span refill_count
    refill_gaps warmup market [] new now s w = (closed new, s, w)
    refill_gaps warmup market ((from, _) ∷ _) new now s w =
        let count = refill_count s.max_rows warmup (span now from (step_of s.interval)) in
        let (got, w') = fetch_candles market count w in
        let (feed, s') = after_refetch market now new got s in (feed, s', w')

    -- From the answer of the merge on.
    unfoldable pub after_merge :
        ℕ → String → ℕ → List ℕ → Frames → cl.World → Feed × Frames × cl.World
    unfolding refill_gaps
    after_merge warmup market now [] s w = (no_new, s, w)
    after_merge warmup market now (t ∷ ts) s w =
        refill_gaps warmup market (find_gaps market s) (t ∷ ts) now s w

    -- The check of one market, up to the loop over the candles that closed.
    unfoldable pub feed_market :
        (warmup refresh : ℕ) → String → ℕ → Frames → cl.World → Feed × Frames × cl.World
    unfolding after_merge
    feed_market warmup refresh market now s w = elim (cl.get_candles market refresh none w).0 [
      | none ↦ (not_fetched, s, (cl.get_candles market refresh none w).1)
      | some candles ↦ elim (merge_candles market candles now s).0 [
        | refused e ↦ (not_valid, s, (cl.get_candles market refresh none w).1)
        | accepted new ↦
            after_merge warmup market now new (merge_candles market candles now s).1
              (cl.get_candles market refresh none w).1
      ]
    ]
