-- ===== src/Live/Noted.antt =====
-- app/trading/live_broker.py: what `execute` leaves behind, and that a signal whose order may exist
-- is not sent again.
use upbit_auto_trader.Prelude.{
  ℕ, String, ◌≡◌, refl, ◌∙◌, true, none, ◌⊎◌, inl, inr, ap, either, either_option, arith, eq_iff,
}
use upbit_auto_trader.Float.{Float, nil}
use upbit_auto_trader.Portfolio.Account.{Portfolio, Result, ok, err, Fill}
use upbit_auto_trader.Exchange.Models.{OrderInfo, OrderChance, fill_funds}
use upbit_auto_trader.Exchange.Client.{either_reply, OrderParams, Client}
use upbit_auto_trader.Orders.Order.{rejected, reject, OrderRequest, Order, is_processed}
use upbit_auto_trader.Live.Broker.{
  Texts, LiveBroker, build_params, prepare, prepare_buy, prepare_sell, Prepared, Outcome, returned,
  raised, running,
}
use upbit_auto_trader.Live.Submit.{Submission, created, missing, unconfirmed, refused, escaped}
use upbit_auto_trader.Live.Settle.{
  Waited, settled, broken, stopped, spent, apply_fill, booked, known_funds, wait_for_fill,
}
use upbit_auto_trader.Live.Execute.{finish, after_attempts, place, note_processed}

module _ ⦃fl : Float⦄ where
  -- What an order that came back says of the broker after it: its signal is noted, or it is
  -- rejected and carries no order id of the exchange, and nothing was noted or booked.
  abbrev pub Told : String → LiveBroker → Outcome Order → LiveBroker → Type 0
  Told c b (returned o) b' =
      (is_processed c b'.processed ≡ true)
      ⊎ ((o.status ≡ rejected)
          × (o.exchange_order_id ≡ none)
          × (b'.portfolio ≡ b.portfolio)
          × (b'.processed ≡ b.processed))
  Told c b (raised _) b' = Unit {0}
  Told c b running b' = Unit {0}

  abbrev pub Accounted :
      {W : Type 0} → String → LiveBroker → Outcome Order × LiveBroker × W → Type 0
  Accounted c b z = (z.1.settings ≡ b.settings) × Told c b z.0 z.1

  abbrev SameNotes : LiveBroker → LiveBroker → Type 0
  SameNotes b b' = (b'.settings ≡ b.settings) × (b'.processed ≡ b.processed)

  booked_same :
      (z : Result Fill × Portfolio) (o : Order) (i : OrderInfo) (now : ℕ) (b : LiveBroker)
      → SameNotes b (booked z o i now b).1
  unfolding booked
  booked_same (err e, p) o i now b = (refl, refl)
  booked_same (ok f, p) o i now b = (refl, refl)

  abbrev SamePair : LiveBroker → Order × LiveBroker → Type 0
  SamePair b z = SameNotes b z.1

  -- Booking a fill changes neither the noted signals nor the settings.
  pub apply_fill_same :
      (o : Order) (i : OrderInfo) (now : ℕ) (b : LiveBroker) → SameNotes b (apply_fill o i now b).1
  unfolding apply_fill
  apply_fill_same o i now b =
      either (SamePair b) (fl.le (fl.float_of i.executed_volume) nil) (refl, refl)
        (either_option (SamePair b) (known_funds (fill_funds i)) (refl, refl)
          (λ funds. booked_same _ o i now b))

  finish-Accounted :
      {W : Type 0} (c : String) (old : LiveBroker) (o : Order) (i : OrderInfo) (now : ℕ)
      → (b : LiveBroker) (z : Waited × W) → b.settings ≡ old.settings
      → is_processed c b.processed ≡ true
      → Accounted c old (finish o i now b z)
  unfolding finish
  finish-Accounted c old o i now b (settled f, w) s h =
      let (settings, noted) = apply_fill_same o f now b in
      (settings ∙ s, inl (ap (is_processed c) noted ∙ h))
  finish-Accounted c old o i now b (broken f, w) s h = (s, inl h)
  finish-Accounted c old o i now b (stopped e, w) s h = (s, tt)
  finish-Accounted c old o i now b (spent, w) s h = (s, tt)

  self_noted : (c : String) (b : LiveBroker) → is_processed c (note_processed c b).processed ≡ true
  unfolding is_processed
  self_noted c b = ground (arith, eq_iff c c)

  after_attempts-Accounted :
      (cl : Client) (fuel : ℕ) (o : Order) (now : ℕ) (b : LiveBroker) (s : Submission)
      → (w : cl.World) → o.exchange_order_id ≡ none
      → Accounted o.client_id b (after_attempts cl fuel o now b s w)
  unfolding after_attempts reject
  after_attempts-Accounted cl fuel o now b (created i) w h =
      finish-Accounted o.client_id b _ i now _ (wait_for_fill cl fuel i _ w) refl
        (self_noted o.client_id b)
  after_attempts-Accounted cl fuel o now b (missing i) w h = (refl, inr (refl, h, refl, refl))
  after_attempts-Accounted cl fuel o now b (unconfirmed i) w h =
      (refl, inl (self_noted o.client_id b))
  after_attempts-Accounted cl fuel o now b (refused e) w h = (refl, inr (refl, h, refl, refl))
  after_attempts-Accounted cl fuel o now b (escaped e) w h = (refl, tt)

  pub place-Accounted :
      (cl : Client) (tx : Texts) (fuel : ℕ) (o : Order) (ps : OrderParams) (now : ℕ)
      → (b : LiveBroker) (w : cl.World) → o.exchange_order_id ≡ none
      → Accounted o.client_id b (place cl tx fuel o ps now b w)
  unfolding place
  place-Accounted cl tx fuel o ps now b w h = after_attempts-Accounted cl fuel _ now b _ _ h

  -- The order that `prepare` notes an amount or a quantity in.
  abbrev SameOrder : Order → Prepared × Order → Type 0
  SameOrder o z = (z.1.client_id ≡ o.client_id) × (z.1.exchange_order_id ≡ o.exchange_order_id)

  prepare_same :
      (c : OrderChance) (r : OrderRequest) (p : Portfolio) (o : Order)
      → SameOrder o (prepare c r p o)
  unfolding prepare prepare_buy prepare_sell
  prepare_same c r p o = (ground arith, ground arith)

  abbrev pub Ready :
      Order → LiveBroker → {W : Type 0} → (Prepared × Order) × LiveBroker × W → Type 0
  Ready o b z =
      SameOrder o z.0
      × (z.1.settings ≡ b.settings)
      × (z.1.portfolio ≡ b.portfolio)
      × (z.1.processed ≡ b.processed)

  pub build_params-Ready :
      (cl : Client) (r : OrderRequest) (o : Order) (b : LiveBroker) (w : cl.World)
      → Ready o b (build_params cl r o b w)
  unfolding build_params
  build_params-Ready cl r o b w =
      either_reply (Ready o b) (cl.get_order_chance r.market w).0
        (λ c. (prepare_same c r b.portfolio o, refl, refl, refl))
        (λ f. ((refl, refl), refl, refl, refl))
