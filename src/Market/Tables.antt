-- ===== src/Market/Tables.antt =====
-- app/strategy/data.py: what a frame holds at each time, through `drop_duplicates`, the sorts and `drop_unclosed`.
use upbit_auto_trader.Prelude.{
  ℕ, ◌+◌, ◌≤◌, ◌<◌, ◌≡◌, refl, ap, sym, ◌∙◌, false, ◌||◌, inl, inr, Option, none, some, List, [],
  ◌∷◌, ◌++◌, arith, leb, ◌==◌, if◌then◌else◌, All, is_some, Bool-cases, Option-cases,
}
use upbit_auto_trader.Float.{Float}
use upbit_auto_trader.Market.Candles.{
  Row, has_time, drop_duplicates, insert_row, sort_rows, tidy, drop_unclosed,
}

module _ ⦃fl : Float⦄ where
  -- The last row of a time; the one row of it where the times ascend.
  abbrev pub first_some : Option Row → Option Row → Option Row
  first_some none o = o
  first_some (some r) o = some r

  unfoldable pub row_at : ℕ → List Row → Option Row
  row_at t [] = none
  row_at t (r ∷ rs) = first_some (row_at t rs) (if r.time == t then some r else none)

  abbrev pub Later : ℕ → List Row → Type 0
  Later t = All (λ (r : Row). t < r.time)

  abbrev pub IsAscending : List Row → Type 0
  IsAscending [] = Unit
  IsAscending (r ∷ rs) = Later r.time rs × IsAscending rs

  abbrev IsDistinct : List Row → Type 0
  IsDistinct [] = Unit
  IsDistinct (r ∷ rs) = (has_time r.time rs ≡ false) × IsDistinct rs

  pub has_time-eq-is_some : (t : ℕ) (rs : List Row) → has_time t rs ≡ is_some (row_at t rs)
  unfolding has_time row_at
  has_time-eq-is_some t [] = refl
  has_time-eq-is_some t (r ∷ rs) = ground (arith, has_time-eq-is_some t rs)

  pub row_at-append :
      (t : ℕ) (rs ss : List Row) → row_at t (rs ++ ss) ≡ first_some (row_at t ss) (row_at t rs)
  unfolding row_at
  row_at-append t [] ss = ground arith
  row_at-append t (r ∷ rs) ss = ground (arith, row_at-append t rs ss)

  row_at-drop_duplicates : (t : ℕ) (rs : List Row) → row_at t (drop_duplicates rs) ≡ row_at t rs
  unfolding row_at drop_duplicates
  row_at-drop_duplicates t [] = refl
  row_at-drop_duplicates t (r ∷ rs) =
      ground (arith, row_at-drop_duplicates t rs, has_time-eq-is_some r.time rs)

  has_time-drop_duplicates :
      (t : ℕ) (rs : List Row) → has_time t (drop_duplicates rs) ≡ has_time t rs
  has_time-drop_duplicates t rs =
      has_time-eq-is_some t (drop_duplicates rs)
      ∙ ap is_some (row_at-drop_duplicates t rs)
      ∙ sym (has_time-eq-is_some t rs)

  drop_duplicates-IsDistinct : (rs : List Row) → IsDistinct (drop_duplicates rs)
  unfolding drop_duplicates
  drop_duplicates-IsDistinct [] = tt
  drop_duplicates-IsDistinct (r ∷ rs) = elim (Bool-cases (has_time r.time rs)) [
    | inl h ↦ rw h (drop_duplicates-IsDistinct rs)
    | inr h ↦ rw h (has_time-drop_duplicates r.time rs ∙ h, drop_duplicates-IsDistinct rs)
  ]

  row_at-insert_row :
      (t : ℕ) (r : Row) (rs : List Row)
      → has_time r.time rs ≡ false
      → row_at t (insert_row r rs) ≡ (if r.time == t then some r else row_at t rs)
  unfolding row_at insert_row has_time
  row_at-insert_row t r [] h = ground arith
  row_at-insert_row t r (s ∷ rs) h =
      ground (arith, row_at-insert_row t r rs, has_time-eq-is_some r.time rs)

  pub Later-of_lt : (t u : ℕ) (rs : List Row) → t < u → Later u rs → Later t rs
  Later-of_lt t u [] h l = tt
  Later-of_lt t u (r ∷ rs) h l = (omega (arith, l.0), Later-of_lt t u rs h l.1)

  Later-insert_row :
      (t : ℕ) (r : Row) (rs : List Row) → t < r.time → Later t rs → Later t (insert_row r rs)
  unfolding insert_row
  Later-insert_row t r [] h l = (h, tt)
  Later-insert_row t r (s ∷ rs) h l = ground (arith, Later-insert_row t r rs h l.1)

  insert_row-IsAscending :
      (r : Row) (rs : List Row)
      → has_time r.time rs ≡ false
      → IsAscending rs
      → IsAscending (insert_row r rs)
  unfolding insert_row has_time
  insert_row-IsAscending r [] h a = (tt, tt)
  insert_row-IsAscending r (s ∷ rs) h a = elim (Bool-cases (leb r.time s.time)) [
    | inl e ↦ rw e ((ground arith, Later-of_lt r.time s.time rs (ground arith) a.0), a)
    | inr e ↦ rw e (
      Later-insert_row s.time r rs (ground arith) a.0,
      insert_row-IsAscending r rs (ground arith) a.1,
    )
  ]

  has_time-insert_row :
      (t : ℕ) (r : Row) (rs : List Row)
      → has_time t (insert_row r rs) ≡ (r.time == t || has_time t rs)
  unfolding has_time insert_row
  has_time-insert_row t r [] = ground arith
  has_time-insert_row t r (s ∷ rs) = ground (arith, has_time-insert_row t r rs)

  has_time-sort_rows : (t : ℕ) (rs : List Row) → has_time t (sort_rows rs) ≡ has_time t rs
  unfolding has_time sort_rows
  has_time-sort_rows t [] = refl
  has_time-sort_rows t (r ∷ rs) =
      has_time-insert_row t r (sort_rows rs) ∙ ap (λ b. r.time == t || b) (has_time-sort_rows t rs)

  sort_rows-IsAscending : (rs : List Row) → IsDistinct rs → IsAscending (sort_rows rs)
  unfolding sort_rows
  sort_rows-IsAscending [] d = tt
  sort_rows-IsAscending (r ∷ rs) d =
      insert_row-IsAscending r (sort_rows rs) (has_time-sort_rows r.time rs ∙ d.0)
        (sort_rows-IsAscending rs d.1)

  row_at-distinct :
      (t : ℕ) (r : Row) (rs : List Row)
      → has_time r.time rs ≡ false
      → row_at t (r ∷ rs) ≡ (if r.time == t then some r else row_at t rs)
  unfolding row_at
  row_at-distinct t r rs h = ground (arith, has_time-eq-is_some r.time rs)

  row_at-sort_rows : (t : ℕ) (rs : List Row) → IsDistinct rs → row_at t (sort_rows rs) ≡ row_at t rs
  unfolding sort_rows
  row_at-sort_rows t [] d = refl
  row_at-sort_rows t (r ∷ rs) d =
      row_at-insert_row t r (sort_rows rs) (has_time-sort_rows r.time rs ∙ d.0)
      ∙ ap (λ (o : Option Row). if r.time == t then some r else o) (row_at-sort_rows t rs d.1)
      ∙ sym (row_at-distinct t r rs d.0)

  pub tidy-IsAscending : (rs : List Row) → IsAscending (tidy rs)
  unfolding tidy
  tidy-IsAscending rs = sort_rows-IsAscending (drop_duplicates rs) (drop_duplicates-IsDistinct rs)

  pub row_at-tidy : (t : ℕ) (rs : List Row) → row_at t (tidy rs) ≡ row_at t rs
  unfolding tidy
  row_at-tidy t rs =
      row_at-sort_rows t (drop_duplicates rs) (drop_duplicates-IsDistinct rs)
      ∙ row_at-drop_duplicates t rs

  drop_unclosed-Later :
      (u step now : ℕ) (rs : List Row) → Later u rs → Later u (drop_unclosed rs step now)
  unfolding drop_unclosed
  drop_unclosed-Later u step now [] l = tt
  drop_unclosed-Later u step now (r ∷ []) l = ground arith
  drop_unclosed-Later u step now (r ∷ s ∷ rs) l = (l.0, drop_unclosed-Later u step now (s ∷ rs) l.1)

  pub drop_unclosed-IsAscending :
      (step now : ℕ) (rs : List Row) → IsAscending rs → IsAscending (drop_unclosed rs step now)
  unfolding drop_unclosed
  drop_unclosed-IsAscending step now [] a = tt
  drop_unclosed-IsAscending step now (r ∷ []) a = ground arith
  drop_unclosed-IsAscending step now (r ∷ s ∷ rs) a = (
    drop_unclosed-Later r.time step now (s ∷ rs) a.0,
    drop_unclosed-IsAscending step now (s ∷ rs) a.1,
  )

  -- A closed row is kept.
  pub row_at-drop_unclosed :
      (t step now : ℕ) (rs : List Row)
      → t + step ≤ now
      → row_at t (drop_unclosed rs step now) ≡ row_at t rs
  unfolding drop_unclosed row_at
  row_at-drop_unclosed t step now [] h = refl
  row_at-drop_unclosed t step now (r ∷ []) h = ground arith
  row_at-drop_unclosed t step now (r ∷ s ∷ rs) h =
      ground (arith, row_at-drop_unclosed t step now (s ∷ rs) h)

  row_at-Later : (t u : ℕ) (rs : List Row) → t ≤ u → Later u rs → row_at t rs ≡ none
  unfolding row_at
  row_at-Later t u [] h l = refl
  row_at-Later t u (r ∷ rs) h l = ground (arith, row_at-Later t u rs h l.1)

  -- A row that is kept is the row that was there.
  pub drop_unclosed-kept :
      (t step now : ℕ) (rs : List Row) (x : Row)
      → IsAscending rs
      → row_at t (drop_unclosed rs step now) ≡ some x
      → row_at t rs ≡ some x
  unfolding drop_unclosed row_at
  drop_unclosed-kept t step now [] x a h = h
  drop_unclosed-kept t step now (r ∷ []) x a h = ground arith
  drop_unclosed-kept t step now (r ∷ s ∷ rs) x a h =
      elim (Option-cases (row_at t (drop_unclosed (s ∷ rs) step now))) [
        | inl e ↦ ground (arith, row_at-Later t r.time (s ∷ rs))
        | inr (y, e) ↦ ground (arith, drop_unclosed-kept t step now (s ∷ rs) x a.1)
      ]
