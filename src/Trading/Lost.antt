-- ===== src/Trading/Lost.antt =====
-- app/trading/engine.py: what `_fetch_candles` asks for and gives, and what a refused refill of a gap leaves behind.
use upbit_auto_trader.Prelude.{
  ℕ, zero, suc, String, ◌+◌, ◌-◌, ◌≤◌, ◌<◌, ◌≡◌, ◌≢◌, refl, ap, Bool, true, false, ◌&&◌, not,
  Option, none, some, List, [], ◌∷◌, ◌++◌, arith, ltb, length, length-append, Option-cases, inl,
  inr, either_known,
}
use upbit_auto_trader.Float.{Float}
use upbit_auto_trader.Market.Candles.{
  accepted, refused, Checked, MarketDataError, Candle, has_time, candles_to_dataframe,
}
use upbit_auto_trader.Market.Frames.{Frames, merge_candles, find_gaps, frame_of}
use upbit_auto_trader.Market.Merging.{has}
use upbit_auto_trader.Market.Merged.{IsKept, merge_candles_lem}
use upbit_auto_trader.Market.Kept.{merge_candles-refused, IsKept-after}
use upbit_auto_trader.Trading.Feed.{
  CandleClient, Fetch, collected, raised, unfinished, stopped, requested, earliest, after_batch,
  fetch_from, fetch_candles, after_refetch, refill_gaps, after_merge, feed_market,
}

module _ ⦃fl : Float⦄ (cl : CandleClient) where
  -- The exchange sends at most as many candles as it is asked for.
  abbrev pub SendsAtMost : Type 0
  SendsAtMost =
      (market : String) (count : ℕ) (to : Option ℕ) (w : cl.World) (cs : List Candle)
      → (cl.get_candles market count to w).0 ≡ some cs
      → length cs ≤ count

  -- The loop came to its end, with no more candles than `most`.
  abbrev pub EndsWithin : ℕ → Fetch → Type 0
  EndsWithin most (collected cs) = length cs ≤ most
  EndsWithin most raised = Unit {0}
  EndsWithin most unfinished = ⊥

  after_batch-EndsWithin :
      (go : ℕ → Option ℕ → List Candle → cl.World → Fetch × cl.World) (remaining : ℕ)
      (got : List Candle) (answer : Option (List Candle)) (w : cl.World) (most : ℕ)
      → 0 < remaining
      → ((cs : List Candle) → answer ≡ some cs → length cs ≤ requested cl remaining)
      → length got + remaining ≤ most
      → ((left : ℕ) (to : Option ℕ) (more : List Candle) (v : cl.World)
          → left < remaining
          → length more + left ≤ most
          → EndsWithin most (go left to more v).0)
      → EndsWithin most (after_batch cl go remaining got answer w).0
  unfolding after_batch requested
  after_batch-EndsWithin go remaining got none w most p honest l next = tt
  after_batch-EndsWithin go remaining got (some []) w most p honest l next = omega arith
  after_batch-EndsWithin go remaining got (some (c ∷ cs)) w most p honest l next =
      let few = honest (c ∷ cs) refl in
      either_known (λ (z : Fetch × cl.World). EndsWithin most z.0)
        (ltb (length (c ∷ cs)) (requested cl remaining))
        (λ e. ground (arith, length-append got (c ∷ cs)))
        (λ e.
          next (remaining - length (c ∷ cs)) (some (earliest c cs)) (got ++ c ∷ cs) w (ground arith)
            (ground (arith, length-append got (c ∷ cs))))

  fetch_from-EndsWithin :
      (honest : SendsAtMost) (fuel : ℕ) (market : String) (remaining : ℕ) (to : Option ℕ)
      (got : List Candle) (w : cl.World) (most : ℕ)
      → remaining < fuel
      → length got + remaining ≤ most
      → EndsWithin most (fetch_from cl fuel market remaining to got w).0
  unfolding fetch_from
  fetch_from-EndsWithin honest zero market remaining to got w most f l = absurd (omega arith)
  fetch_from-EndsWithin honest (suc fuel) market remaining to got w most f l =
      either_known (λ (z : Fetch × cl.World). EndsWithin most z.0) (ltb 0 remaining)
        (λ e.
          after_batch-EndsWithin (fetch_from cl fuel market) remaining got
            (cl.get_candles market (requested cl remaining) to w).0
            (cl.get_candles market (requested cl remaining) to w).1 most (ground arith)
            (honest market (requested cl remaining) to w) l
            (λ left to' more v d k.
              fetch_from-EndsWithin honest fuel market left to' more v most (omega arith) k))
        (λ e. omega arith)

  -- From an exchange that sends at most as many candles as it is asked for, `_fetch_candles` comes
  -- to its end, with an error or with at most the candles that were wanted.
  pub fetch_candles_ends :
      (honest : SendsAtMost) (market : String) (count : ℕ) (w : cl.World)
      → EndsWithin count (fetch_candles cl market count w).0
  unfolding fetch_candles
  fetch_candles_ends honest market count w =
      fetch_from-EndsWithin honest (suc count) market count none [] w count (omega arith)
        (omega arith)

  collected_stopped :
      (market : String) (now : ℕ) (new : List ℕ) (cs : List Candle) (s s' : Frames)
      (e : MarketDataError) (z : Checked (List ℕ) × Frames)
      → merge_candles market cs now s ≡ z
      → after_refetch cl market now new (collected cs) s ≡ (stopped e, s')
      → s' ≡ s
  unfolding after_refetch
  collected_stopped market now new cs s s' e (accepted more, s2) eq h = ground arith
  collected_stopped market now new cs s s' e (refused x, s2) eq h =
      let same = merge_candles-refused market cs now s s2 x (candles_to_dataframe cs) refl eq in
      ground arith

  after_refetch-stopped :
      (market : String) (now : ℕ) (new : List ℕ) (f : Fetch) (s s' : Frames) (e : MarketDataError)
      → after_refetch cl market now new f s ≡ (stopped e, s')
      → s' ≡ s
  unfolding after_refetch
  after_refetch-stopped market now new (collected cs) s s' e h =
      collected_stopped market now new cs s s' e (merge_candles market cs now s) refl h
  after_refetch-stopped market now new raised s s' e h = ground arith
  after_refetch-stopped market now new unfinished s s' e h = ground arith

  refill_gaps-stopped :
      (warmup : ℕ) (market : String) (gaps : List (ℕ × ℕ)) (new : List ℕ) (now : ℕ) (s s' : Frames)
      (w w' : cl.World) (e : MarketDataError)
      → refill_gaps cl warmup market gaps new now s w ≡ (stopped e, s', w')
      → s' ≡ s
  unfolding refill_gaps
  refill_gaps-stopped warmup market [] new now s s' w w' e h = ground arith
  refill_gaps-stopped warmup market ((a, b) ∷ gaps) new now s s' w w' e h =
      after_refetch-stopped market now new _ s s' e (ap (λ z. (z.0, z.1)) h)

  after_merge-stopped :
      (warmup : ℕ) (market : String) (now : ℕ) (new : List ℕ) (s s' : Frames) (w w' : cl.World)
      (e : MarketDataError)
      → after_merge cl warmup market now new s w ≡ (stopped e, s', w')
      → (new ≢ []) × (s' ≡ s)
  unfolding after_merge
  after_merge-stopped warmup market now [] s s' w w' e h = absurd (ground arith)
  after_merge-stopped warmup market now (t ∷ ts) s s' w w' e h =
      (λ c. cc, refill_gaps-stopped warmup market (find_gaps market s) (t ∷ ts) now s s' w w' e h)

  -- What a refused refill leaves: the candles that the check had taken in as new stay in the frames,
  -- and the next merge reports none of the market that the frame holds.
  pub record IsLost (market : String) (now : ℕ) (s s' : Frames) (candles : List Candle)
      (new : List ℕ) : Type 0 where
    pub taken : merge_candles market candles now s ≡ (accepted new, s')
    pub some_new : new ≢ []
    pub never :
        (later : List Candle) (then' : ℕ) (s2 : Frames) (ts : List ℕ)
        → merge_candles market later then' s' ≡ (accepted ts, s2)
        → (t : ℕ) → has_time t (frame_of s' market) ≡ true
        → has t ts ≡ false

  no_report : (b c d : Bool) → d ≡ (b && not c) → c ≡ true → d ≡ false
  no_report b true d e h = ground arith
  no_report b false d e h = cc

  feed_market_accepted :
      (warmup refresh : ℕ) (market : String) (now : ℕ) (s s' : Frames) (w w' : cl.World)
      (e : MarketDataError) (cs : List Candle) (new : List ℕ) (s1 : Frames)
      → (cl.get_candles market refresh none w).0 ≡ some cs
      → merge_candles market cs now s ≡ (accepted new, s1)
      → feed_market cl warmup refresh market now s w ≡ (stopped e, s', w')
      → after_merge cl warmup market now new s1 (cl.get_candles market refresh none w).1
        ≡ (stopped e, s', w')
  unfolding feed_market
  feed_market_accepted warmup refresh market now s s' w w' e cs new s1 a m h = ground arith

  merged_stopped :
      (warmup refresh : ℕ) (market : String) (now : ℕ) (s s' : Frames) (w w' : cl.World)
      (e : MarketDataError) (cs : List Candle) (z : Checked (List ℕ) × Frames)
      → IsKept s
      → (cl.get_candles market refresh none w).0 ≡ some cs
      → merge_candles market cs now s ≡ z
      → feed_market cl warmup refresh market now s w ≡ (stopped e, s', w')
      → (new : List ℕ) × IsLost market now s s' cs new
  unfolding feed_market
  merged_stopped warmup refresh market now s s' w w' e cs (refused x, s1) k a m h =
      absurd (ground arith)
  merged_stopped warmup refresh market now s s' w w' e cs (accepted new, s1) k a m h =
      let inner = feed_market_accepted warmup refresh market now s s' w w' e cs new s1 a m h in
      let (some_new, same) =
        after_merge-stopped warmup market now new s1 s' (cl.get_candles market refresh none w).1 w'
          e inner in
      (
        new,
        record {
          taken = rw same m;
          some_new = some_new;
          never = λ later then' s2 ts h2 t held.
              no_report _ _ _
                ((merge_candles_lem market later then' s' s2 ts
                    (rw same (IsKept-after market cs now s (accepted new, s1) k m)) h2).reported
                  t)
                held;
        },
      )

  -- Of frames with ascending, sound rows within max_rows: where the check of a market raises
  -- because the refill of a gap brings candles that are refused, the frames are those after an
  -- accepted merge that reported new times, and the next merge of the market reports no time
  -- that its frame holds.
  pub refill_loses :
      (warmup refresh : ℕ) (market : String) (now : ℕ) (s s' : Frames) (w w' : cl.World)
      (e : MarketDataError)
      → IsKept s
      → feed_market cl warmup refresh market now s w ≡ (stopped e, s', w')
      → (cs : List Candle) × (new : List ℕ) × IsLost market now s s' cs new
  unfolding feed_market
  refill_loses warmup refresh market now s s' w w' e k h =
      elim (Option-cases (cl.get_candles market refresh none w).0) [
        | inl a ↦ absurd (ground arith)
        | inr (cs, a) ↦
            let (new, lost) =
              merged_stopped warmup refresh market now s s' w w' e cs
                (merge_candles market cs now s) k a refl h in
            (cs, new, lost)
      ]
