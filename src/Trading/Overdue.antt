-- ===== src/Trading/Overdue.antt =====
-- app/trading/engine.py: no order waits for its follow-up beyond `pending_max_age`.
use mathlib.Core.Path.{subst}
use mathlib.Core.Bool.{false≢true}
use upbit_auto_trader.Prelude.{
  ℕ, String, ◌≡◌, refl, sym, ◌∙◌, Bool, true, false, Option, none, some, [], ◌∷◌, ◌⊎◌, inl, inr,
  arith, either, either_known, either_option, is_some, str_eq, eq_iff, eq_refl, or_else, Bool-cases,
}
use upbit_auto_trader.Float.{Float}
use upbit_auto_trader.Dict
use upbit_auto_trader.Dict.{Dict, lookup-insert, lookup-insert_self, lookup-erase}
use upbit_auto_trader.Portfolio.Account.{Side, buying, selling, Trade}
use upbit_auto_trader.Risk.Events.{record_trade}
use upbit_auto_trader.Market.Prices.{seconds_since, mark_prices}
use upbit_auto_trader.Orders.Order.{
  OrderStatus, new, submitted, filled, partial, cancelled, rejected, unknown, Order, is_filled,
}
use upbit_auto_trader.Database.Repository.{is_unknown}
use upbit_auto_trader.Notify.Event.{order_filled}
use upbit_auto_trader.Trading.Engine.{
  FollowUp, broke, still_open, settled, Broker, Engine, current_equity, snapshot, book_sale,
  book_side, save_filled, record_filled, record_rejected, record_open, count_rejected, record_order,
  is_duplicate, notify,
}
use upbit_auto_trader.Trading.Unresolved.{
  pending_max_age, count_error, sync_account, give_up_pending, settle_pending, keep_or_give_up,
  follow_up, after_follow_up, resolve_all, resolve_pending_orders, markets_of,
}

module _ ⦃fl : Float⦄ (b : Broker) where
  -- The orders that wait are the same.
  abbrev Same : Engine b → Engine b → Type 0
  Same e e' = e'.pending_orders ≡ e.pending_orders

  snapshot-Same : (e e' : Engine b) (time : ℕ) → Same e e' → Same e (snapshot b time e')
  unfolding snapshot
  snapshot-Same e e' time h = either_option (Same e) (current_equity b e') h (λ v. h)

  book_sale-Same : (e : Engine b) (t : Option Trade) (now : ℕ) → Same e (book_sale b t now e)
  unfolding book_sale
  book_sale-Same e none now = refl
  book_sale-Same e (some t) now = either (Same e) (is_some (record_trade t now e.risk).0) refl refl

  book_side-Same : (e : Engine b) (s : Side) (now : ℕ) → Same e (book_side b s now e)
  unfolding book_side
  book_side-Same e buying now = refl
  book_side-Same e selling now = book_sale-Same e _ now

  record_filled-Same : (o : Order) (now : ℕ) (e : Engine b) → Same e (record_filled b o now e)
  unfolding record_filled save_filled
  record_filled-Same o now e =
      let at = or_else o.filled_at now in
      let saved = save_filled b o at e in
      snapshot-Same e (notify b order_filled (book_side b o.side at saved)) at
        (book_side-Same saved o.side at)

  abbrev unknown_status : OrderStatus → Bool
  unknown_status s = elim s [ unknown ↦ true | _ ↦ false ]

  record_open-Same :
      (s : OrderStatus) (o : Order) (e : Engine b)
      → unknown_status s ≡ false
      → Same e (record_open b s o e)
  unfolding record_open record_rejected
  record_open-Same unknown o e h = elim (false≢true (sym h)) [ ]
  record_open-Same new o e h = refl
  record_open-Same submitted o e h = refl
  record_open-Same filled o e h = refl
  record_open-Same partial o e h = refl
  record_open-Same cancelled o e h = refl
  record_open-Same rejected o e h = refl

  record_order-Same :
      (o : Order) (now : ℕ) (e : Engine b) → is_unknown o ≡ false → Same e (record_order b o now e)
  unfolding record_order count_rejected
  record_order-Same o now e h =
      either (Same e) (is_duplicate b o.error) refl (
        either (Same e) (is_filled o) (record_filled-Same o now e)
          (record_open-Same o.status o e h))

  sync_account-Same : (now : ℕ) (e : Engine b) → Same e (sync_account b now e)
  unfolding sync_account
  sync_account-Same now e = either_option (Same e) b.reconcile refl (λ f.
      either (Same e) (f (mark_prices e.market) (markets_of e.pending_orders) now e.broker).0 refl
        refl)

  module _ (now : ℕ) where
    -- The order is younger than the limit.
    abbrev pub IsYoung : Order → Type 0
    IsYoung o = fl.le pending_max_age (seconds_since now o.created_at) ≡ false

    -- The order, where there is one, is young.
    abbrev YoungIf : Option Order → Type 0
    YoungIf none = Unit {0}
    YoungIf (some o) = IsYoung o

    -- The follow-up of the market's order: what waits in the other markets waits on, and what waits in
    -- this one is young.
    abbrev Follows : String → Dict Order → Dict Order → Type 0
    Follows market d d' =
        ((k : String) → str_eq market k ≡ false → Dict.lookup k d' ≡ Dict.lookup k d)
        × YoungIf (Dict.lookup market d')

    erase-Follows : (market : String) (d : Dict Order) → Follows market d (Dict.erase market d)
    erase-Follows market d = (
      λ k other. ground (arith, lookup-erase market k d),
      let gone : Dict.lookup market (Dict.erase market d) ≡ none =
            ground (arith, lookup-erase market market d, eq_refl market) in
          subst YoungIf (sym gone) tt,
    )

    insert-Follows :
        (market : String) (o : Order) (d : Dict Order)
        → IsYoung o
        → Follows market d (Dict.insert market o d)
    insert-Follows market o d young = (
      λ k other. ground (arith, lookup-insert market k o d),
      subst YoungIf (sym (lookup-insert_self market o d)) young,
    )

    -- Orders inserted and erased again under one market.
    erase-insert-Follows :
        (market : String) (o : Order) (d : Dict Order)
        → Follows market d (Dict.erase market (Dict.insert market o d))
    erase-insert-Follows market o d =
        let (others, own) = erase-Follows market (Dict.insert market o d) in
        (λ k other. others k other ∙ ground (arith, lookup-insert market k o d), own)

    -- The same of the engines before and after.
    abbrev Goes : String → Engine b → Engine b → Type 0
    Goes market e e' = Follows market e.pending_orders e'.pending_orders

    -- The orders that a follow-up settles are not unknown.
    abbrev pub Known : FollowUp → Type 0
    Known broke = Unit {0}
    Known still_open = Unit {0}
    Known (settled final) = is_unknown final ≡ false

    keep_or_give_up-Goes :
        (market : String) (o : Order) (e : Engine b)
        → Goes market e (keep_or_give_up b market o now e)
    unfolding keep_or_give_up give_up_pending
    keep_or_give_up-Goes market o e =
        either_known (Goes market e) (fl.le pending_max_age (seconds_since now o.created_at))
          (λ late.
            subst (Follows market e.pending_orders) (sym (sync_account-Same now _))
              (erase-insert-Follows market o e.pending_orders))
          (λ young. insert-Follows market o e.pending_orders young)

    after_follow_up-Goes :
        (market : String) (found : FollowUp) (o : Order) (e e' : Engine b)
        → e'.pending_orders ≡ e.pending_orders
        → Known found
        → Goes market e (after_follow_up b market now (found, o, e'))
    unfolding after_follow_up settle_pending
    after_follow_up-Goes market (settled final) o e e' same known =
        subst
          (λ d.
            Follows market d (after_follow_up b market now (settled final, o, e')).pending_orders)
          same
          (subst (Follows market e'.pending_orders) (sym (record_order-Same final now _ known))
            (erase-Follows market e'.pending_orders))
    after_follow_up-Goes market still_open o e e' same known =
        subst (λ d. Follows market d (keep_or_give_up b market o now e').pending_orders) same
          (keep_or_give_up-Goes market o e')
    after_follow_up-Goes market broke o e e' same known =
        subst
          (λ d. Follows market d (keep_or_give_up b market o now (count_error b e')).pending_orders)
          same (keep_or_give_up-Goes market o (count_error b e'))

    -- What the broker's follow-up answers is known.
    abbrev pub Settles : Type 0
    Settles = (o : Order) (e : Engine b) → Known (follow_up b o now e).0

    follow_up-Same : (o : Order) (e : Engine b) → Same e (follow_up b o now e).2
    unfolding follow_up
    follow_up-Same o e =
        either_option (λ (out : FollowUp × Order × Engine b). Same e out.2) b.resolve_order refl
          (λ f. refl)

    -- Every order that waits is in the list or young.
    abbrev Remains : Dict Order → Engine b → Type 0
    Remains rest e =
        (k : String) → (Dict.contains k rest ≡ true) ⊎ YoungIf (Dict.lookup k e.pending_orders)

    next-Remains :
        (market : String) (o : Order) (rest : Dict Order) (e e' : Engine b)
        → Goes market e e'
        → Remains ((market, o) ∷ rest) e
        → Remains rest e'
    unfolding Dict.lookup
    next-Remains market o rest e e' (others, own) h k = elim (Bool-cases (str_eq market k)) [
      | inl same ↦
          let path : market ≡ k = ground (arith, eq_iff market k) in
          inr (subst (λ m. YoungIf (Dict.lookup m e'.pending_orders)) path own)
      | inr other ↦ elim (h k) [
        | inl there ↦ inl (ground arith)
        | inr young ↦ inr (subst YoungIf (sym (others k other)) young)
      ]
    ]

    resolve_all-Remains :
        Settles
        → (rest : Dict Order) (e : Engine b) → Remains rest e
        → Remains [] (resolve_all b rest now e)
    unfolding resolve_all
    resolve_all-Remains settles [] e h = h
    resolve_all-Remains settles ((market, o) ∷ rest) e h =
        let (found, o', e') = follow_up b o now e in
        resolve_all-Remains settles rest (after_follow_up b market now (follow_up b o now e)) (
          next-Remains market o rest e (after_follow_up b market now (follow_up b o now e))
            (after_follow_up-Goes market found o' e e' (follow_up-Same o e) (settles o e)) h)

    there_or_young : (o : Option Order) → (is_some o ≡ true) ⊎ YoungIf o
    there_or_young none = inr tt
    there_or_young (some o) = inl refl

    all-Remains : (e : Engine b) → Remains e.pending_orders e
    all-Remains e k = there_or_young (Dict.lookup k e.pending_orders)

    -- After a follow-up of the unknown orders by a broker that settles none as unknown again, every
    -- order that still waits is younger than pending_max_age.
    pub no_overdue_order :
        (e : Engine b)
        → Settles
        → (market : String) (o : Order)
        → Dict.lookup market (resolve_pending_orders b now e).pending_orders ≡ some o
        → IsYoung o
    unfolding resolve_pending_orders Dict.lookup
    no_overdue_order e settles market o found =
        elim (resolve_all-Remains settles e.pending_orders e (all-Remains e) market) [
          | inl there ↦ elim (false≢true there) [ ]
          | inr young ↦ subst YoungIf found young
        ]
