-- ===== src/Risk/Chronology.antt =====
-- app/risk/manager.py: the order in which `rebuild` replays the closed trades, described without a sort.
use upbit_auto_trader.Prelude.{
  ℕ, ◌≤◌, ◌≡◌, refl, ◌∙◌, ap, List, [], ◌∷◌, All, arith, leb, ◌==◌, inl, inr, Bool-cases,
  if◌then◌else◌,
}
use upbit_auto_trader.Float.{Float}
use upbit_auto_trader.Portfolio.Account.{Trade}
use upbit_auto_trader.Risk.Events.{insert_by_exit, sort_by_exit}

module _ ⦃fl : Float⦄ where
  -- No trade closed after a later one of the list.
  abbrev pub Ascends : List Trade → Type 0
  Ascends [] = Unit
  Ascends (t ∷ ts) = All (λ (u : Trade). t.exit_time ≤ u.exit_time) ts × Ascends ts

  -- The trades that closed at this time, in the order given.
  unfoldable pub closed_at : ℕ → List Trade → List Trade
  closed_at n [] = []
  closed_at n (t ∷ ts) = let rest = closed_at n ts in if t.exit_time == n then t ∷ rest else rest

  -- `closed` has the trades in the order in which they closed; trades that closed at one time keep
  -- their order. There is one such list.
  pub record IsInOrder (trades closed : List Trade) : Type 0 where
    pub ascends : Ascends closed
    pub keeps : (n : ℕ) → closed_at n closed ≡ closed_at n trades

  All-insert_by_exit :
      (P : Trade → Type 0) (t : Trade) (us : List Trade)
      → P t
      → All P us
      → All P (insert_by_exit t us)
  unfolding insert_by_exit
  All-insert_by_exit P t [] p h = (p, tt)
  All-insert_by_exit P t (u ∷ us) p (q, h) = elim (Bool-cases (leb t.exit_time u.exit_time)) [
    | inl before ↦ rw before (p, (q, h))
    | inr after ↦ rw after (q, All-insert_by_exit P t us p h)
  ]

  All-later :
      (m n : ℕ) (us : List Trade)
      → m ≤ n
      → All (λ (u : Trade). n ≤ u.exit_time) us
      → All (λ (u : Trade). m ≤ u.exit_time) us
  All-later m n [] h k = tt
  All-later m n (u ∷ us) h (k, ks) = (omega arith, All-later m n us h ks)

  insert_by_exit-Ascends :
      (t : Trade) (us : List Trade) → Ascends us → Ascends (insert_by_exit t us)
  unfolding insert_by_exit
  insert_by_exit-Ascends t [] h = (tt, tt)
  insert_by_exit-Ascends t (u ∷ us) (h, k) = elim (Bool-cases (leb t.exit_time u.exit_time)) [
    | inl before ↦
        let le : t.exit_time ≤ u.exit_time = ground arith in
        rw before ((le, All-later t.exit_time u.exit_time us le h), (h, k))
    | inr after ↦ rw after (
      All-insert_by_exit (λ (x : Trade). u.exit_time ≤ x.exit_time) t us (ground arith) h,
      insert_by_exit-Ascends t us k,
    )
  ]

  closed_at-insert_by_exit :
      (n : ℕ) (t : Trade) (us : List Trade)
      → closed_at n (insert_by_exit t us) ≡ closed_at n (t ∷ us)
  unfolding insert_by_exit closed_at
  closed_at-insert_by_exit n t [] = refl
  closed_at-insert_by_exit n t (u ∷ us) = ground (arith, closed_at-insert_by_exit n t us)

  closed_at-cons :
      (n : ℕ) (t : Trade) (us vs : List Trade)
      → closed_at n us ≡ closed_at n vs
      → closed_at n (t ∷ us) ≡ closed_at n (t ∷ vs)
  unfolding closed_at
  closed_at-cons n t us vs h = ap (λ rest. if t.exit_time == n then t ∷ rest else rest) h

  pub sort_by_exit-IsInOrder : (trades : List Trade) → IsInOrder trades (sort_by_exit trades)
  unfolding sort_by_exit
  sort_by_exit-IsInOrder [] = record { ascends = tt; keeps = λ n. refl }
  sort_by_exit-IsInOrder (t ∷ ts) =
      let rest = sort_by_exit-IsInOrder ts in
      record {
        ascends = insert_by_exit-Ascends t (sort_by_exit ts) rest.ascends;
        keeps = λ n.
            closed_at-insert_by_exit n t (sort_by_exit ts)
            ∙ closed_at-cons n t (sort_by_exit ts) ts (rest.keeps n);
      }
