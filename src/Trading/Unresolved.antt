-- ===== src/Trading/Unresolved.antt =====
-- app/trading/engine.py: the follow-up of the orders whose state at the exchange is not known.
use upbit_auto_trader.Prelude.{ℕ, suc, String, true, false, Option, none, some, List, [], ◌∷◌}
use upbit_auto_trader.Float.{Float}
use upbit_auto_trader.Dict
use upbit_auto_trader.Dict.{Dict}
use upbit_auto_trader.Market.Prices.{mark_prices, seconds_since}
use upbit_auto_trader.Orders.Order.{OrderError, never_settled, never_settled_after, Order}
use upbit_auto_trader.Database.Repository.{save_order, sync_portfolio, load_unknown_orders}
use upbit_auto_trader.Notify.Event.{api_error}
use upbit_auto_trader.Trading.Engine.{
  FollowUp, broke, still_open, settled, Broker, Engine, portfolio_of, notify, record_order,
}

-- The error of an order that is given up, after the one that it had.
unfoldable pub give_up_error : Option OrderError → OrderError
give_up_error none = never_settled
give_up_error (some before) = never_settled_after before

module _ ⦃fl : Float⦄ where
  -- `dict.setdefault`
  abbrev pub set_default : String → Order → Dict Order → Dict Order
  set_default market o d = elim (Dict.contains market d) [
    | true ↦ d
    | false ↦ Dict.insert market o d
  ]

  abbrev pub load_all : List Order → Dict Order → Dict Order
  load_all [] d = d
  load_all (o ∷ os) d = load_all os (set_default o.market o d)

  abbrev pub markets_of : Dict Order → List String
  markets_of [] = []
  markets_of ((market, _) ∷ rest) = market ∷ markets_of rest

  -- `pending_max_age`, in seconds.
  abbrev pub pending_max_age : fl.Num
  pending_max_age = fl.number 600 0

  module _ (b : Broker) where
    unfoldable pub load_pending_orders : Engine b → Engine b
    load_pending_orders e = record e {
      pending_orders = load_all (load_unknown_orders e.repo) e.pending_orders;
    }

    abbrev pub count_error : Engine b → Engine b
    count_error e = record e { stats = record e.stats { errors = suc e.stats.errors } }

    -- The account after the reconciliation, where the broker has one.
    unfoldable pub sync_account : ℕ → Engine b → Engine b
    sync_account now e = elim b.reconcile [
      | none ↦ e
      | some f ↦
          let (went, s) = f (mark_prices e.market) (markets_of e.pending_orders) now e.broker in
          let e' : Engine b = record e { broker = s } in
          elim went [
            | true ↦ record e' { repo = sync_portfolio (portfolio_of b e') e'.repo }
            | false ↦ count_error e'
          ]
    ]

    -- `_give_up_pending`, without the warning on what the reconciliation found.
    unfoldable pub give_up_pending : String → Order → ℕ → Engine b → Engine b
    unfolding sync_account give_up_error
    give_up_pending market o now e = sync_account now (
        notify b api_error (record e {
          pending_orders = Dict.erase market e.pending_orders;
          repo = save_order (record o { error = some (give_up_error o.error) }) e.repo;
        }))

    -- The order is settled: it waits no more and is recorded.
    unfoldable pub settle_pending : String → Order → ℕ → Engine b → Engine b
    settle_pending market final now e = record_order b final now (record e {
      pending_orders = Dict.erase market e.pending_orders;
      stats = record e.stats { orders_resolved = suc e.stats.orders_resolved };
    })

    -- The order, as the follow-up left it, is given up once it is too old.
    unfoldable pub keep_or_give_up : String → Order → ℕ → Engine b → Engine b
    unfolding give_up_pending
    keep_or_give_up market o now e =
        let kept : Engine b = record e { pending_orders = Dict.insert market o e.pending_orders } in
        elim (fl.le pending_max_age (seconds_since now o.created_at)) [
          | true ↦ give_up_pending market o now kept
          | false ↦ kept
        ]

    unfoldable pub follow_up : Order → ℕ → Engine b → FollowUp × Order × Engine b
    follow_up o now e = elim b.resolve_order [
      | none ↦ (still_open, o, e)
      | some f ↦ let (found, o', s) = f o now e.broker in (found, o', record e { broker = s })
    ]

    -- What the follow-up of one order comes to.
    unfoldable pub after_follow_up : String → ℕ → FollowUp × Order × Engine b → Engine b
    unfolding settle_pending keep_or_give_up
    after_follow_up market now (settled final, o, e) = settle_pending market final now e
    after_follow_up market now (still_open, o, e) = keep_or_give_up market o now e
    after_follow_up market now (broke, o, e) = keep_or_give_up market o now (count_error e)

    unfoldable pub resolve_all : Dict Order → ℕ → Engine b → Engine b
    unfolding follow_up after_follow_up
    resolve_all [] now e = e
    resolve_all ((market, o) ∷ rest) now e =
        resolve_all rest now (after_follow_up market now (follow_up o now e))

    -- `resolve_pending_orders`
    unfoldable pub resolve_pending_orders : ℕ → Engine b → Engine b
    unfolding resolve_all
    resolve_pending_orders now e = resolve_all e.pending_orders now e
