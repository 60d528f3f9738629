-- ===== src/Notify/Manager.antt =====
-- app/notify/manager.py: the queue of the notifications and their delivery. A channel is a parameter,
-- with the state of what it sends to; the queue is that of asyncio, which never waits here.
use upbit_auto_trader.Prelude.{
  ℕ, zero, suc, ◌-◌, String, Bool, true, false, ◌&&◌, not, Option, none, some, List, [], ◌∷◌, ◌++◌,
  length, ltb, leb, str_eq, if◌then◌else◌,
}
use upbit_auto_trader.Float.{Float, nil}
use upbit_auto_trader.Dict
use upbit_auto_trader.Dict.{Dict}
use upbit_auto_trader.Market.Prices.{seconds_since}
use upbit_auto_trader.Backtest.Engine.{drop}
use upbit_auto_trader.Notify.Event.{EventKind, is_burst, is_priority, NotificationEvent}

-- What `notifier.send` comes to: `NotifyError` tells whether it may be tried again.
pub data Sending : Type 0 where
  delivered : Sending
  refused : (retryable : Bool) (text : String) → Sending
  broken : (text : String) → Sending

-- A channel, with the world that it sends to. `sleep` is the time that passes there.
pub record Channel ⦃fl : Float⦄ (World : Type 0) : Type 0 where
  pub name : String
  pub send : NotificationEvent → World → Sending × World
  pub sleep : fl.Num → World → World

module _ ⦃fl : Float⦄ where
  pub record NotifyStats : Type 0 where
    pub queued : ℕ
    pub sent : ℕ
    pub failed : ℕ
    pub dropped : ℕ
    pub suppressed : ℕ

  module _ (World : Type 0) where
    pub record NotificationManager : Type 0 where
      pub notifiers : List (Channel World)
      pub enabled : EventKind → Bool
      pub error_cooldown_seconds : fl.Num
      pub max_queue : ℕ
      pub retries : ℕ
      pub retry_delays : List fl.Num
      pub queue : List NotificationEvent
      pub last_keyed : Dict ℕ
      pub history : List NotificationEvent
      pub stats : NotifyStats

    abbrev pub is_empty {ℓ} : {A : Type ℓ} → List A → Bool
    is_empty [] = true
    is_empty (_ ∷ _) = false

    unfoldable pub is_enabled : EventKind → NotificationManager → Bool
    is_enabled kind m = m.enabled kind && not (is_empty m.notifiers)

    -- `Queue.full`: a queue without a maximum is never full.
    unfoldable pub is_full : NotificationManager → Bool
    is_full m = ltb 0 m.max_queue && leb m.max_queue (length m.queue)

    -- The key of an event, unless it is empty.
    unfoldable pub filled_key : Option String → Option String
    filled_key none = none
    filled_key (some k) = if str_eq k "" then none else some k

    unfoldable pub key_of : NotificationEvent → Option String
    unfolding filled_key
    key_of e =
        filled_key (elim e.key [
          | some k ↦ some k
          | none ↦ if is_burst e.kind then some e.auto_key else none
        ])

    -- The items without the first one that has no priority, where there is one.
    unfoldable pub without_first_minor : List NotificationEvent → Option (List NotificationEvent)
    without_first_minor [] = none
    without_first_minor (e ∷ es) = elim (is_priority e.kind) [
      | false ↦ some es
      | true ↦ elim (without_first_minor es) [ none ↦ none | some rest ↦ some (e ∷ rest) ]
    ]

    unfoldable pub after_eviction : List NotificationEvent → List NotificationEvent
    unfolding without_first_minor
    after_eviction items = elim (without_first_minor items) [
      | some rest ↦ rest
      | none ↦ drop 1 items
    ]

    unfoldable pub evict_one : NotificationManager → NotificationManager
    unfolding after_eviction
    evict_one m = elim (is_empty m.queue) [
      | true ↦ m
      | false ↦ record m {
        queue = after_eviction m.queue;
        stats = record m.stats { dropped = suc m.stats.dropped };
      }
    ]

    -- The event goes to the end of the queue; `put_nowait` refuses it where that is full.
    unfoldable pub put : NotificationEvent → NotificationManager → Bool × NotificationManager
    unfolding is_full
    put e m = elim (is_full m) [
      | true ↦ (false, record m { stats = record m.stats { dropped = suc m.stats.dropped } })
      | false ↦ (
        true,
        record m {
          queue = m.queue ++ e ∷ [];
          stats = record m.stats { queued = suc m.stats.queued };
        },
      )
    ]

    unfoldable pub make_room_and_put :
        NotificationEvent → NotificationManager → Bool × NotificationManager
    unfolding evict_one put
    make_room_and_put e m = put e (elim (is_full m) [ true ↦ evict_one m | false ↦ m ])

    abbrev pub suppress : NotificationManager → Bool × NotificationManager
    suppress m =
        (false, record m { stats = record m.stats { suppressed = suc m.stats.suppressed } })

    -- Whether an event of the key came less than the cooldown ago.
    unfoldable pub cools_down : String → ℕ → NotificationManager → Bool
    cools_down key now m = elim (Dict.lookup key m.last_keyed) [
      | none ↦ false
      | some last ↦ fl.lt (seconds_since now last) m.error_cooldown_seconds
    ]

    unfoldable pub emit_keyed :
        Option String → ℕ → NotificationEvent → NotificationManager → Bool × NotificationManager
    unfolding cools_down make_room_and_put
    emit_keyed none now e m = make_room_and_put e m
    emit_keyed (some key) now e m = elim (cools_down key now m) [
      | true ↦ suppress m
      | false ↦ make_room_and_put e (record m { last_keyed = Dict.insert key now m.last_keyed })
    ]

    -- `emit`. `now` is the clock's time.
    unfoldable pub emit : ℕ → NotificationEvent → NotificationManager → Bool × NotificationManager
    unfolding is_enabled key_of emit_keyed
    emit now e m = elim (is_enabled e.kind m) [
      | false ↦ suppress m
      | true ↦ emit_keyed (key_of e) now e m
    ]

    -- `retry_delays[min(attempt, len - 1)]`, the last one again where there are not enough.
    unfoldable pub delay_at : ℕ → List fl.Num → fl.Num
    delay_at attempt [] = nil
    delay_at attempt (d ∷ []) = d
    delay_at zero (d ∷ _ ∷ _) = d
    delay_at (suc attempt) (d ∷ d' ∷ ds) = delay_at attempt (d' ∷ ds)

    abbrev pub pause : Channel World → fl.Num → World → World
    pause c delay w = elim (fl.lt nil delay) [ true ↦ c.sleep delay w | false ↦ w ]

    -- What an attempt comes to, where `again` is what follows an error that may be tried again.
    unfoldable pub after_sending : Sending × World → Option String × World → Option String × World
    after_sending (delivered, w) again = (none, w)
    after_sending (broken text, w) again = (some text, w)
    after_sending (refused true text, w) again = again
    after_sending (refused false text, w) again = (some text, w)

    abbrev pub text_of : Sending → Option String
    text_of delivered = none
    text_of (broken text) = some text
    text_of (refused _ text) = some text

    -- The attempts from number `attempt` on, of which `left` follow this one.
    unfoldable pub send_from :
        (left attempt : ℕ)
        → List fl.Num
        → Channel World
        → NotificationEvent
        → World
        → Option String × World
    unfolding delay_at after_sending
    send_from zero attempt delays c e w =
        let tried = c.send e w in after_sending tried (text_of tried.0, tried.1)
    send_from (suc left) attempt delays c e w =
        let tried = c.send e w in
        after_sending tried
          (send_from left (suc attempt) delays c e (pause c (delay_at attempt delays) tried.1))

    -- `_send_with_retry`: the error, if it was not delivered.
    unfoldable pub send_with_retry :
        NotificationManager → Channel World → NotificationEvent → World → Option String × World
    unfolding send_from
    send_with_retry m c e w = send_from m.retries 0 m.retry_delays c e w

    unfoldable pub count_sent : Option String → NotifyStats → NotifyStats
    count_sent none s = record s { sent = suc s.sent }
    count_sent (some _) s = record s { failed = suc s.failed }

    unfoldable pub deliver_to :
        List (Channel World)
        → NotificationEvent
        → NotificationManager
        → World
        → NotificationManager × World
    unfolding send_with_retry count_sent
    deliver_to [] e m w = (m, w)
    deliver_to (c ∷ cs) e m w =
        let (error, w') = send_with_retry m c e w in
        deliver_to cs e (record m { stats = count_sent error m.stats }) w'

    -- `del history[:-50]`
    abbrev pub last_fifty : List NotificationEvent → List NotificationEvent
    last_fifty es = drop (length es - 50) es

    -- `_deliver`, without the callback for a failure.
    unfoldable pub deliver :
        NotificationEvent → NotificationManager → World → NotificationManager × World
    unfolding deliver_to
    deliver e m w =
        let (m', w') = deliver_to m.notifiers e m w in
        (record m' { history = last_fifty (m'.history ++ e ∷ []) }, w')

    -- The worker, or `flush` without one: the queue is delivered in its order.
    unfoldable pub deliver_all :
        List NotificationEvent → NotificationManager → World → NotificationManager × World
    unfolding deliver
    deliver_all [] m w = (m, w)
    deliver_all (e ∷ es) m w = let (m', w') = deliver e m w in deliver_all es m' w'

    unfoldable pub flush : NotificationManager → World → NotificationManager × World
    unfolding deliver_all
    flush m w = deliver_all m.queue (record m { queue = [] }) w
