-- ===== src/Market/Gaps.antt =====
-- app/trading/market_state.py: the gaps that `find_gaps` reports in an ascending frame.
use upbit_auto_trader.Prelude.{
  ℕ, ◌+◌, ◌≤◌, ◌<◌, ◌≡◌, refl, true, false, ◌⊎◌, inl, inr, List, [], ◌∷◌, arith, ltb, if◌then◌else◌,
  All, Bool, Bool-cases, some, String,
}
use upbit_auto_trader.Float.{Float}
use upbit_auto_trader.Market.Candles.{Row, step_of, has_time}
use upbit_auto_trader.Market.Frames.{
  Frames, gaps_of, find_gaps, frame_of, last_time_of, last_closed_time, has_no_fixed_length,
}
use mathlib.Core.Path.{subst}
use upbit_auto_trader.Market.Merged.{IsKept}
use upbit_auto_trader.Market.Tables.{IsAscending, Later, Later-of_lt}

-- The time lies inside one of the gaps.
abbrev pub InGap : ℕ → List (ℕ × ℕ) → Type 0
InGap t [] = ⊥
InGap t ((a, b) ∷ gs) = ((a < t) × (t < b)) ⊎ InGap t gs

module _ ⦃fl : Float⦄ where
  -- No candle of the frame begins within `step` up to the time.
  abbrev pub Missing : ℕ → ℕ → List Row → Type 0
  Missing step t = All (λ (r : Row). (r.time + step ≤ t) ⊎ (t < r.time))

  widened :
      (t : ℕ) (c : Bool) (x y : ℕ) (gs : List (ℕ × ℕ))
      → InGap t gs
      → InGap t (if c then (x, y) ∷ gs else gs)
  widened t true x y gs g = inr g
  widened t false x y gs g = g

  is_gap : (step t u v : ℕ) → (u + step ≤ t) ⊎ (t < u) → u < t → t < v → ltb (u + step) v ≡ true
  is_gap step t u v (inl h) l k = ground arith
  is_gap step t u v (inr h) l k = absurd (omega arith)

  gaps_of-Missing :
      (step t last : ℕ) (r : Row) (rs : List Row)
      → 0 < step
      → Missing step t (r ∷ rs)
      → r.time < t
      → last_time_of (r ∷ rs) ≡ some last
      → t < last
      → InGap t (gaps_of step (r ∷ rs))
  unfolding gaps_of last_time_of
  gaps_of-Missing step t last r [] p m a e b = ground arith
  gaps_of-Missing step t last r (s ∷ rs) p m a e b = elim m.1.0 [
    | inl before ↦
        widened t (ltb (r.time + step) s.time) r.time s.time (gaps_of step (s ∷ rs))
          (gaps_of-Missing step t last s rs p m.1 (omega arith) e b)
    | inr after ↦ rw (is_gap step t r.time s.time m.0 a after) (inl (a, after))
  ]

  has_time-Later : (t : ℕ) (rs : List Row) → Later t rs → has_time t rs ≡ false
  unfolding has_time
  has_time-Later t [] l = refl
  has_time-Later t (r ∷ rs) l = ground (arith, has_time-Later t rs l.1)

  split_gap :
      (t : ℕ) (c : Bool) (x y : ℕ) (gs : List (ℕ × ℕ))
      → InGap t (if c then (x, y) ∷ gs else gs)
      → ((x < t) × (t < y)) ⊎ InGap t gs
  split_gap t true x y gs g = g
  split_gap t false x y gs g = inr g

  InGap-free :
      (step t : ℕ) (r : Row) (rs : List Row)
      → IsAscending (r ∷ rs)
      → InGap t (gaps_of step (r ∷ rs))
      → (r.time < t) × (has_time t (r ∷ rs) ≡ false)
  unfolding gaps_of has_time
  InGap-free step t r [] a g = absurd g
  InGap-free step t r (s ∷ rs) a g =
      elim (split_gap t (ltb (r.time + step) s.time) r.time s.time (gaps_of step (s ∷ rs)) g) [
        | inl b ↦ (b.0, ground (arith, has_time-Later t rs (Later-of_lt t s.time rs b.1 a.1.0)))
        | inr g' ↦ ground (arith, InGap-free step t s rs a.1 g')
      ]

  -- The pair has a candle of the frame at both ends, and they are further apart than `step`.
  abbrev pub IsGap : ℕ → List Row → ℕ × ℕ → Type 0
  IsGap step frame (a, b) = (a + step < b) × (has_time a frame ≡ true) × (has_time b frame ≡ true)

  abbrev AllIn : List Row → List Row → Type 0
  AllIn frame = All (λ (r : Row). has_time r.time frame ≡ true)

  AllIn-cons : (q : Row) (frame rs : List Row) → AllIn frame rs → AllIn (q ∷ frame) rs
  unfolding has_time
  AllIn-cons q frame [] h = tt
  AllIn-cons q frame (r ∷ rs) (h, k) = (ground arith, AllIn-cons q frame rs k)

  AllIn-refl : (rs : List Row) → AllIn rs rs
  unfolding has_time
  AllIn-refl [] = tt
  AllIn-refl (r ∷ rs) = (ground arith, AllIn-cons r rs rs (AllIn-refl rs))

  gaps_of-IsGap :
      (step : ℕ) (frame : List Row) (r : Row) (rs : List Row)
      → AllIn frame (r ∷ rs)
      → All (IsGap step frame) (gaps_of step (r ∷ rs))
  unfolding gaps_of
  gaps_of-IsGap step frame r [] h = tt
  gaps_of-IsGap step frame r (s ∷ rs) (p, (q, h)) =
      let rest = gaps_of-IsGap step frame s rs (q, h) in
      elim (Bool-cases (ltb (r.time + step) s.time)) [
        | inl far ↦ rw far ((ground arith, p, q), rest)
        | inr near ↦ rw near rest
      ]

  find_gaps_of :
      (s : Frames) (market : String) (r : Row) (rs : List Row)
      → has_no_fixed_length s.interval ≡ false
      → frame_of s market ≡ r ∷ rs
      → find_gaps market s ≡ gaps_of (step_of s.interval) (r ∷ rs)
  unfolding find_gaps
  find_gaps_of s market r rs f e = rw (f, e)

  last_of :
      (s : Frames) (market : String) (r : Row) (rs : List Row) (last : ℕ)
      → frame_of s market ≡ r ∷ rs
      → last_closed_time market s ≡ some last
      → last_time_of (r ∷ rs) ≡ some last
  unfolding last_closed_time
  last_of s market r rs last e l = rw e at l

  -- Of the frame of a market whose candles have a fixed length: a time between the first and the
  -- last candle, with no candle begun in the length of one before it, lies in a reported gap, and
  -- no candle of the frame begins inside a reported gap.
  pub find_gaps_lem :
      (s : Frames) (market : String) (r : Row) (rs : List Row) (last t : ℕ)
      → IsKept s
      → has_no_fixed_length s.interval ≡ false
      → frame_of s market ≡ r ∷ rs
      → last_closed_time market s ≡ some last
      → 0 < step_of s.interval
      → (Missing (step_of s.interval) t (r ∷ rs)
          → r.time < t
          → t < last
          → InGap t (find_gaps market s))
        × (InGap t (find_gaps market s) → has_time t (frame_of s market) ≡ false)
        × All (IsGap (step_of s.interval) (frame_of s market)) (find_gaps market s)
  find_gaps_lem s market r rs last t k f e l p = rw (find_gaps_of s market r rs f e) (
    λ m a b.
        gaps_of-Missing (step_of s.interval) t last r rs p m a (last_of s market r rs last e l) b,
    λ g.
        rw e
          (InGap-free (step_of s.interval) t r rs (subst IsAscending e (k.ascending market)) g).1,
    rw e (gaps_of-IsGap (step_of s.interval) (r ∷ rs) r rs (AllIn-refl (r ∷ rs))),
  )
