-- ===== src/Live/Resolve.antt =====
-- app/trading/live_broker.py: what `_resolve_locked` does to an order that is not settled.
use upbit_auto_trader.Prelude.{
  ℕ, String, ◌≡◌, ◌≢◌, refl, Option, none, some, arith, either, either_option,
}
use upbit_auto_trader.Float.{Float, nil}
use upbit_auto_trader.Portfolio.Account.{Portfolio, Result, ok, err, Fill}
use upbit_auto_trader.Exchange.Models.{OrderInfo, is_final, fill_funds}
use upbit_auto_trader.Exchange.Client.{either_reply, Client, by_uuid, by_identifier}
use upbit_auto_trader.Orders.Order.{Order, given_id, unknown}
use upbit_auto_trader.Live.Broker.{LiveBroker}
use upbit_auto_trader.Live.Submit.{is_not_found}
use upbit_auto_trader.Live.Settle.{apply_fill, booked, book, with_fill, known_funds}
use upbit_auto_trader.Live.Execute.{Verdict, final_order, settle_found, resolve_by, resolve}

module _ ⦃fl : Float⦄ where
  -- Nothing is booked, or the order is no longer open.
  abbrev Booked : LiveBroker → Order × LiveBroker → Type 0
  Booked b z = z.0.status ≡ unknown → z.1 ≡ b

  booked_known :
      (z : Result Fill × Portfolio) (o : Order) (i : OrderInfo) (now : ℕ) (b : LiveBroker)
      → (booked z o i now b).0.status ≢ unknown
  unfolding booked with_fill
  booked_known (err e, p) o i now b = ground arith
  booked_known (ok f, p) o i now b = ground arith

  apply_fill_unknown :
      (o : Order) (i : OrderInfo) (now : ℕ) (b : LiveBroker) → Booked b (apply_fill o i now b)
  unfolding apply_fill
  apply_fill_unknown o i now b =
      either (Booked b) (fl.le (fl.float_of i.executed_volume) nil) (λ h. refl)
        (either_option (Booked b) (known_funds (fill_funds i)) (λ h. refl)
          (λ funds h. elim (booked_known (book o i funds now b.portfolio) o i now b h) [ ]))

  -- Where the verdict is not that the order is final, the broker is unchanged.
  abbrev pub Waits : {W : Type 0} → LiveBroker → Verdict × Order × LiveBroker × W → Type 0
  Waits b z = z.0 ≢ final_order → z.2 ≡ b

  settle_found-Waits :
      (cl : Client) (o : Order) (i : OrderInfo) (now : ℕ) (b : LiveBroker) (w : cl.World)
      → Waits b (settle_found cl o i now b w)
  unfolding settle_found
  settle_found-Waits cl o i now b w =
      either (Waits b) (is_final i) (λ h. apply_fill_unknown _ _ now b (ground arith)) (λ h. refl)

  resolve_by-Waits :
      (cl : Client) (known ident : Option String) (o : Order) (now : ℕ) (b : LiveBroker)
      → (w : cl.World) → Waits b (resolve_by cl known ident o now b w)
  unfolding resolve_by
  resolve_by-Waits cl (some uuid) ident o now b w =
      either_reply (Waits b) (cl.get_order (by_uuid uuid) w).0
        (λ i. settle_found-Waits cl o i now b _) (λ f h. refl)
  resolve_by-Waits cl none (some i) o now b w =
      either_reply (Waits b) (cl.get_order (by_identifier i) w).0
        (λ info. settle_found-Waits cl o info now b _)
        (λ f. either (Waits b) (is_not_found f) (λ h. refl) (λ h. refl))
  resolve_by-Waits cl none none o now b w = λ h. refl

  -- Where `resolve_order` does not give the order back as settled, the broker is unchanged: its
  -- account, and the signals that it has noted.
  pub resolve_waits :
      (cl : Client) (o : Order) (now : ℕ) (b : LiveBroker) (w : cl.World)
      → (resolve cl o now b w).0 ≢ final_order
      → (resolve cl o now b w).2 ≡ b
  unfolding resolve
  resolve_waits cl o now b w =
      resolve_by-Waits cl (given_id o.exchange_order_id) (given_id o.exchange_identifier) o now b w
