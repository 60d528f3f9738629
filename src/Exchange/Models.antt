-- ===== src/Exchange/Models.antt =====
-- app/exchange/models.py: the balances, the order with its fills, and what can be ordered.
use Prim.Native.String.{◌∷◌ as ◌∷c◌, [] as no_text}
use upbit_auto_trader.Prelude.{
  String, Bool, true, false, not, ◌&&◌, ◌||◌, Option, none, some, List, [], ◌∷◌, str_eq,
  if◌then◌else◌,
}
use upbit_auto_trader.Float.{Float}

module _ ⦃fl : Float⦄ where
  -- `Account`
  pub record Balance : Type 0 where
    pub currency : String
    pub balance : fl.Decimal
    pub locked : fl.Decimal
    pub avg_buy_price : fl.Decimal

  unfoldable pub total : Balance → fl.Decimal
  total a = fl.dec_add a.balance a.locked

  -- `OrderTrade`, with the amount that the code reads.
  pub record OrderTrade : Type 0 where
    pub price : fl.Decimal
    pub volume : fl.Decimal
    pub funds : fl.Decimal

  -- `OrderInfo`, the fields that the broker reads.
  pub record OrderInfo : Type 0 where
    pub uuid : String
    pub ord_type : String
    pub state : String
    pub executed_volume : fl.Decimal
    pub paid_fee : fl.Decimal
    pub price : Option fl.Decimal
    pub trades : List OrderTrade

  unfoldable pub is_final : OrderInfo → Bool
  is_final i = str_eq i.state "done" || str_eq i.state "cancel"

  -- `sum` from the left, as `executed_funds` does it.
  unfoldable pub sum_funds : fl.Decimal → List OrderTrade → fl.Decimal
  sum_funds acc [] = acc
  sum_funds acc (t ∷ ts) = sum_funds (fl.dec_add acc t.funds) ts

  unfoldable pub executed_funds : OrderInfo → fl.Decimal
  unfolding sum_funds
  executed_funds i = sum_funds fl.dec_zero i.trades

  -- `d > 0`
  abbrev pub positive : fl.Decimal → Bool
  positive d = fl.dec_lt fl.dec_zero d

  -- The amount by the kind of the order, where there is no list of trades.
  unfoldable pub funds_by_type : OrderInfo → Option fl.Decimal
  funds_by_type i = elim i.price [
    | none ↦ none
    | some price ↦
        if str_eq i.ord_type "price" && str_eq i.state "done"
        then some price
        else if str_eq i.ord_type "limit"
        then some (fl.dec_mul price i.executed_volume)
        else none
  ]

  abbrev pub has_trades : OrderInfo → Bool
  has_trades i = elim i.trades [ [] ↦ false | _ ∷ _ ↦ true ]

  unfoldable pub fill_funds : OrderInfo → Option fl.Decimal
  unfolding executed_funds funds_by_type
  fill_funds i =
      if has_trades i
      then some (executed_funds i)
      else if not (positive i.executed_volume)
      then some fl.dec_zero
      else funds_by_type i

  -- `OrderChance`, by the properties that the broker reads.
  pub record OrderChance : Type 0 where
    pub bid_account : Balance
    pub ask_account : Balance
    pub min_total_bid : Option fl.Decimal
    pub max_total : Option fl.Decimal
    pub market_state : Option String
    pub bid_types : List String
    pub ask_types : List String

-- `market.split("-", 1)[1]`; `none` is the `IndexError`.
unfoldable pub base_currency : String → Option String
base_currency no_text = none
base_currency (c ∷c rest) =
    let later = base_currency rest in if str_eq (c ∷c no_text) "-" then some rest else later
