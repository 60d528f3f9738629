-- ===== src/Trading/Kept.antt =====
-- app/trading/engine.py: what the record of an order leaves as it was.
use upbit_auto_trader.Prelude.{
  ℕ, String, ◌≡◌, refl, true, Option, none, some, either, either_option, is_some, or_else, arith,
}
use upbit_auto_trader.Float.{Float}
use upbit_auto_trader.Dict
use upbit_auto_trader.Dict.{Dict, lookup-insert}
use upbit_auto_trader.Portfolio.Account.{Side, buying, selling, Trade}
use upbit_auto_trader.Risk.Events.{record_trade}
use upbit_auto_trader.Orders.Order.{
  OrderStatus, new, submitted, filled, partial, cancelled, rejected, unknown, Order, is_filled,
}
use upbit_auto_trader.Database.Repository.{
  record_fill, save_order, sync_portfolio, snapshot_balance,
}
use upbit_auto_trader.Trading.Engine.{
  Broker, Engine, current_equity, snapshot, book_sale, record_filled, record_unknown,
  record_rejected, record_open, count_rejected, record_order, is_duplicate, notify, book_side,
  save_filled,
}
use upbit_auto_trader.Notify.Event.{order_filled}

module _ ⦃fl : Float⦄ (b : Broker) where
  -- A dictionary that has every key of another.
  abbrev pub Covers : Dict Order → Dict Order → Type 0
  Covers d d' = (k : String) → Dict.contains k d ≡ true → Dict.contains k d' ≡ true

  -- The broker, the saved signals, the settings, the pause and the safe mode are as before, the waits
  -- after a failed exit too, and the orders that waited wait.
  abbrev pub Keeps : Engine b → Engine b → Type 0
  Keeps e e' =
      (e'.broker ≡ e.broker)
      × (e'.repo.signals ≡ e.repo.signals)
      × (e'.settings ≡ e.settings)
      × (e'.paused ≡ e.paused)
      × (e'.safe_mode ≡ e.safe_mode)
      × Covers e.pending_orders e'.pending_orders

  pub Keeps-refl : (e : Engine b) → Keeps e e
  Keeps-refl e = (refl, refl, refl, refl, refl, λ k h. h)

  Covers-insert : (market : String) (o : Order) (d : Dict Order) → Covers d (Dict.insert market o d)
  Covers-insert market o d k h = rw (lookup-insert market k o d) (ground arith)

  snapshot-Keeps : (e e' : Engine b) (time : ℕ) → Keeps e e' → Keeps e (snapshot b time e')
  unfolding snapshot snapshot_balance
  snapshot-Keeps e e' time h = either_option (Keeps e) (current_equity b e') h (λ v. h)

  book_sale-Keeps :
      (e e' : Engine b) (t : Option Trade) (now : ℕ) → Keeps e e' → Keeps e (book_sale b t now e')
  unfolding book_sale
  book_sale-Keeps e e' none now h = h
  book_sale-Keeps e e' (some t) now h =
      either (Keeps e) (is_some (record_trade t now e'.risk).0) h h

  book_side-Keeps :
      (e e' : Engine b) (s : Side) (now : ℕ) → Keeps e e' → Keeps e (book_side b s now e')
  unfolding book_side
  book_side-Keeps e e' buying now h = h
  book_side-Keeps e e' selling now h = book_sale-Keeps e e' _ now h

  record_filled-Keeps : (o : Order) (now : ℕ) (e : Engine b) → Keeps e (record_filled b o now e)
  unfolding record_filled save_filled record_fill save_order sync_portfolio
  record_filled-Keeps o now e =
      let at = or_else o.filled_at now in
      let saved = save_filled b o at e in
      snapshot-Keeps e (notify b order_filled (book_side b o.side at saved)) at
        (book_side-Keeps e saved o.side at (Keeps-refl e))

  record_rejected-Keeps : (o : Order) (e : Engine b) → Keeps e (record_rejected b o e)
  unfolding record_rejected save_order
  record_rejected-Keeps o e = (refl, refl, refl, refl, refl, λ k h. h)

  record_open-Keeps : (s : OrderStatus) (o : Order) (e : Engine b) → Keeps e (record_open b s o e)
  unfolding record_open record_unknown save_order
  record_open-Keeps unknown o e =
      (refl, refl, refl, refl, refl, Covers-insert o.market o e.pending_orders)
  record_open-Keeps new o e = record_rejected-Keeps o e
  record_open-Keeps submitted o e = record_rejected-Keeps o e
  record_open-Keeps filled o e = record_rejected-Keeps o e
  record_open-Keeps partial o e = record_rejected-Keeps o e
  record_open-Keeps cancelled o e = record_rejected-Keeps o e
  record_open-Keeps rejected o e = record_rejected-Keeps o e

  pub record_order-Keeps : (o : Order) (now : ℕ) (e : Engine b) → Keeps e (record_order b o now e)
  unfolding record_order count_rejected
  record_order-Keeps o now e =
      either (Keeps e) (is_duplicate b o.error) ((refl, refl, refl, refl, refl, λ k h. h)) (
        either (Keeps e) (is_filled o) (record_filled-Keeps o now e)
          (record_open-Keeps o.status o e))
