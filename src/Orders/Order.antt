-- ===== src/Orders/Order.antt =====
-- app/trading/orders.py: the order, its request and its states. The texts of errors are values
-- that hold their parts.
use Prim.Native.String.{◌++◌}
use upbit_auto_trader.Prelude.{
  ℕ, String, Bool, true, false, Option, none, some, List, [], ◌∷◌, str_eq, if◌then◌else◌,
}
use upbit_auto_trader.Float.{Float, nil}
use upbit_auto_trader.Portfolio.Account.{Side, buying, selling, PortfolioError, Fill, Note, text}

pub data OrderStatus : Type 0 where
  new submitted filled partial cancelled rejected unknown : OrderStatus

-- Why an order could not be prepared: `UpbitError`, `PortfolioError` or `ValueError`.
pub data PrepareError : Type 0 where
  chance_failed market_closed no_amount amount_too_small price_type_missing nothing_to_sell
        market_type_missing bad_params :
      PrepareError

-- `Order.error`, by what the text says.
pub data OrderError : Type 0 where
  duplicate_signal : OrderError
  no_price_information : OrderError
  price_too_old : OrderError
  account_refused : PortfolioError → OrderError
  quote_stale : OrderError
  quote_failed : OrderError
  quote_empty : OrderError
  not_prepared : PrepareError → OrderError
  confirmed_missing : (identifier : String) → OrderError
  not_confirmed : (identifier : String) → OrderError
  exchange_refused : (status : ℕ) (name : Option String) → OrderError
  creation_failed : OrderError
  fill_not_confirmed : (uuid : String) → OrderError
  nothing_filled : (state uuid : String) → OrderError
  funds_not_known : (uuid : String) → OrderError
  booking_failed : PortfolioError → (uuid : String) → OrderError
  no_reference : OrderError
  never_settled : OrderError
  never_settled_after : OrderError → OrderError

module _ ⦃fl : Float⦄ where
  pub record OrderRequest : Type 0 where
    pub market : String
    pub side : Side
    pub amount : Option fl.Num
    pub quantity : Option fl.Num
    pub reason : String
    pub strategy : String
    pub signal_time : Option ℕ
    pub client_id : Option String

  pub record Order : Type 0 where
    pub id : String
    pub client_id : String
    pub mode : String
    pub market : String
    pub side : Side
    pub amount : Option fl.Num
    pub quantity : Option fl.Num
    pub status : OrderStatus
    pub created_at : ℕ
    pub reason : Note
    pub strategy : String
    pub signal_time : Option ℕ
    pub filled_at : Option ℕ
    pub fill_price : Option fl.Num
    pub filled_quantity : Option fl.Num
    pub fee : fl.Num
    pub error : Option OrderError
    pub exchange_order_id : Option String
    pub exchange_identifier : Option String
    pub fills : List Fill

  -- `is_filled`
  unfoldable pub is_filled : Order → Bool
  is_filled o = elim o.status [ filled ↦ true | partial ↦ true | _ ↦ false ]

  unfoldable pub side_value : Side → String
  side_value buying = "BUY"
  side_value selling = "SELL"

  -- `if self.client_id` of an optional text: the empty text counts as none.
  unfoldable pub given_id : Option String → Option String
  given_id none = none
  given_id (some i) = if str_eq i "" then none else some i

  -- `resolved_client_id(mode)`. `isoformat` is `datetime.isoformat` and `fresh` the value of
  -- `uuid4().hex`.
  unfoldable pub resolved_client_id : (ℕ → String) → String → String → OrderRequest → String
  unfolding given_id side_value
  resolved_client_id isoformat fresh mode r = elim (given_id r.client_id) [
    | some i ↦ i
    | none ↦
        let stamp : String = elim r.signal_time [ some t ↦ isoformat t | none ↦ fresh ] in
        mode ++ ":" ++ r.market ++ ":" ++ side_value r.side ++ ":" ++ stamp
  ]

  -- The order that `execute` begins with. `fresh` is the new order's id.
  unfoldable pub new_order : String → String → String → OrderRequest → ℕ → Order
  new_order fresh client_id mode r now = record {
    id = fresh;
    client_id = client_id;
    mode = mode;
    market = r.market;
    side = r.side;
    amount = r.amount;
    quantity = r.quantity;
    status = new;
    created_at = now;
    reason = text r.reason;
    strategy = r.strategy;
    signal_time = r.signal_time;
    filled_at = none;
    fill_price = none;
    filled_quantity = none;
    fee = nil;
    error = none;
    exchange_order_id = none;
    exchange_identifier = none;
    fills = [];
  }

  -- `_reject`
  unfoldable pub reject : Order → OrderError → Order
  reject o e = record o { status = rejected; error = some e }

-- `client_id in self.processed`
unfoldable pub is_processed : String → List String → Bool
is_processed i [] = false
is_processed i (j ∷ js) = let rest = is_processed i js in if str_eq j i then true else rest
