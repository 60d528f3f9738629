-- ===== src/Orders/OnceOnly.antt =====
-- app/trading/orders.py: over a session of the paper broker, no signal is filled twice.
use mathlib.Core.List.{append_assoc}
use mathlib.Core.Path.{subst}
use upbit_auto_trader.Prelude.{
  ℕ, String, ◌≡◌, refl, sym, ap, ◌∙◌, false, Option, List, [], ◌∷◌, ◌++◌, inl, inr, arith,
  if◌then◌else◌,
}
use upbit_auto_trader.Float.{Float}
use upbit_auto_trader.Market.Prices.{PriceState}
use upbit_auto_trader.Orders.Order.{
  OrderRequest, Order, resolved_client_id, is_filled, is_processed, reject, new_order,
}
use upbit_auto_trader.Orders.Paper.{PaperBroker, execute, fill_order}
use upbit_auto_trader.Orders.PaperLaws.{execute_outcome}

-- No text stands in the list twice.
abbrev pub Distinct : List String → Type 0
Distinct [] = Unit {0}
Distinct (i ∷ is) = (is_processed i is ≡ false) × Distinct is

module _ ⦃fl : Float⦄ where
  -- One call of `execute`, with the new ids and the quote that it gets.
  pub record Ask : Type 0 where
    pub stamp : String
    pub id : String
    pub request : OrderRequest
    pub price : Option PriceState
    pub now : ℕ

  -- The client ids of the orders that were filled.
  unfoldable pub filled_ids : List Order → List String
  filled_ids [] = []
  filled_ids (o ∷ os) = let rest = filled_ids os in if is_filled o then o.client_id ∷ rest else rest

  filled_ids-append : (xs ys : List Order) → filled_ids (xs ++ ys) ≡ filled_ids xs ++ filled_ids ys
  unfolding filled_ids
  filled_ids-append [] ys = refl
  filled_ids-append (x ∷ xs) ys = ground (arith, filled_ids-append xs ys)

  module _ (isoformat : ℕ → String) where
    abbrev pub ask : Ask → PaperBroker → Order × PaperBroker
    ask a b = execute isoformat a.stamp a.id a.request a.price a.now b

    -- The orders of a session, the last one first, and the broker after it.
    pub session : List Ask → PaperBroker → List Order × PaperBroker
    session [] b = ([], b)
    session (a ∷ rest) b =
        let (o, b') = ask a b in let (os, b'') = session rest b' in (os ++ o ∷ [], b'')

    -- One call adds the client id of its order where it fills it, and that id is new.
    ask_adds :
        (a : Ask) (b : PaperBroker)
        → Distinct b.processed
        → ((ask a b).1.processed ≡ filled_ids ((ask a b).0 ∷ []) ++ b.processed)
          × Distinct (ask a b).1.processed
    unfolding filled_ids is_filled
    ask_adds a b h = elim (execute_outcome isoformat a.stamp a.id a.request a.price a.now b) [
      | inl (e, refused) ↦ rw refused (unfold reject in (refl, h))
      | inr f ↦
          let i = resolved_client_id isoformat a.stamp "paper" a.request in
          let ids : filled_ids ((ask a b).0 ∷ []) ≡ i ∷ [] =
            ap (λ o. filled_ids (o ∷ [])) f.order ∙ (unfold fill_order new_order in refl) in
          (
            f.noted ∙ sym (ap (λ l. l ++ b.processed) ids),
            subst Distinct (sym f.noted) (f.unseen, h),
          )
    ]

    session_adds :
        (asks : List Ask) (b : PaperBroker)
        → Distinct b.processed
        → ((session asks b).1.processed ≡ filled_ids (session asks b).0 ++ b.processed)
          × Distinct (session asks b).1.processed
    unfolding session filled_ids
    session_adds [] b h = (refl, h)
    session_adds (a ∷ rest) b h =
        let (one, distinct) = ask_adds a b h in
        let (more, all) = session_adds rest (ask a b).1 distinct in
        let o = (ask a b).0 in
        let os = (session rest (ask a b).1).0 in
        (
          more
              ∙ ap (λ l. filled_ids os ++ l) one
              ∙ sym (append_assoc (filled_ids os) (filled_ids (o ∷ [])) b.processed)
              ∙ sym (ap (λ l. l ++ b.processed) (filled_ids-append os (o ∷ []))),
          all,
        )

    -- Over any session the processed ids grow by exactly the ids of the filled orders, and stay
    -- distinct: no signal is filled twice, nor one that was processed before the session.
    pub session_fills_once :
        (asks : List Ask) (b : PaperBroker)
        → Distinct b.processed
        → ((session asks b).1.processed ≡ filled_ids (session asks b).0 ++ b.processed)
          × Distinct (filled_ids (session asks b).0 ++ b.processed)
    session_fills_once asks b h =
        let (grown, distinct) = session_adds asks b h in (grown, subst Distinct grown distinct)
