-- ===== src/Exchange/Client.antt =====
-- app/exchange/upbit_client.py and app/core/exceptions.py: the calls that the live broker makes,
-- what they answer or raise, and the parameters of an order. The exchange behind the client is a
-- parameter: a state that each call may change and that gives the answer.
use upbit_auto_trader.Prelude.{ℕ, String, Bool, not, Option, none, some, List, if◌then◌else◌}
use upbit_auto_trader.Float.{Float, nil}
use upbit_auto_trader.Exchange.Models.{Balance, OrderInfo, OrderChance, positive}

-- What a request raises: `UpbitAPIError`, `UpbitNetworkError` or `UpbitResponseError`. `name` is
-- there where it is a text.
pub data Failure : Type 0 where
  api : (status_code : ℕ) (name : Option String) → Failure
  unreachable : Failure
  garbled : Failure

pub data Reply (A : Type 0) : Type 0 where
  answer : A → Reply A
  failed : Failure → Reply A

-- What holds of both ways to go on holds of the choice between them.
pub either_reply :
    {A B : Type 0} (P : B → Type 0) {f : A → B} {g : Failure → B} (r : Reply A)
    → ((a : A) → P (f a))
    → ((e : Failure) → P (g e))
    → P (elim r [ answer a ↦ f a | failed e ↦ g e ])
either_reply P (answer a) on_answer on_failure = on_answer a
either_reply P (failed e) on_answer on_failure = on_failure e

-- `uuid=...` or `identifier=...`
pub data OrderKey : Type 0 where
  by_uuid : String → OrderKey
  by_identifier : String → OrderKey

-- The body of an order.
pub record OrderParams : Type 0 where
  pub market : String
  pub side : String
  pub ord_type : String
  pub price : Option String
  pub volume : Option String
  pub identifier : Option String

module _ ⦃fl : Float⦄ where
  -- The client. `allow_orders` is its own lock: without it, a call that makes or cancels an order
  -- raises before any request (`_require_orders_allowed`). `get_ticker` gives the trade price; it is absent in some clients. `sleep` is the
  -- time that passes at the exchange.
  pub record Client : Type 1 where
    pub World : Type 0
    pub allow_orders : Bool
    pub create_order : OrderParams → World → Reply OrderInfo × World
    pub get_order : OrderKey → World → Reply OrderInfo × World
    pub cancel_order : String → World → Reply OrderInfo × World
    pub get_order_chance : String → World → Reply OrderChance × World
    pub get_ticker : Option (String → World → Reply (Option fl.Num) × World)
    pub get_accounts : World → Reply (List Balance) × World
    pub sleep : fl.Num → World → World

  -- `market_buy_params`; `none` is the `ValueError`.
  unfoldable pub market_buy_params : String → fl.Num → Option OrderParams
  market_buy_params market amount_krw =
      if fl.le amount_krw nil
      then none
      else some (record {
        market = market;
        side = "bid";
        ord_type = "price";
        price = some (fl.show_round amount_krw);
        volume = none;
        identifier = none;
      })

  -- `market_sell_params`; `none` is the `ValueError`.
  unfoldable pub market_sell_params : String → fl.Num → Option OrderParams
  market_sell_params market volume =
      let quantized = fl.quantize_down volume in
      if fl.le volume nil
      then none
      else if not (positive quantized)
      then none
      else some (record {
        market = market;
        side = "ask";
        ord_type = "market";
        price = none;
        volume = some (fl.show_dec quantized);
        identifier = none;
      })
