-- ===== src/Notify/Examples.antt =====
-- Tests of the notifications, and their theorems at concrete inputs.
use upbit_auto_trader.Prelude.{
  ℕ, suc, ◌≤◌, String, ◌≡◌, refl, true, Option, none, some, [], ◌∷◌, length, arith,
}
use upbit_auto_trader.Float.Fixed.{fixed}
use upbit_auto_trader.Prelude.Int.{sub_ℕ, ◌+ℤ◌, ◌-ℤ◌}
use upbit_auto_trader.Dict
use upbit_auto_trader.Notify.Event.{EventKind, NotificationEvent, is_burst, is_priority}
use upbit_auto_trader.Notify.Manager.{
  refused, Channel, NotificationManager, is_enabled, is_full, key_of, filled_key, emit_keyed,
  cools_down, make_room_and_put, evict_one, after_eviction, without_first_minor, put, emit,
}
use upbit_auto_trader.Notify.Queue.{Takes, emit_queue}

-- A channel whose world is the number of the times that it was asked, and that always fails.
abbrev down : Channel ℕ
down = record { name = "telegram"; send = λ e n. (refused true "502", suc n); sleep = λ d n. n }

abbrev note : EventKind → Option String → NotificationEvent
note kind key = record {
  kind = kind;
  title = "KRW-BTC";
  message = "";
  key = key;
  auto_key = "auto";
}

abbrev manager : NotificationManager ℕ
manager = record {
  notifiers = down ∷ [];
  enabled = λ kind. true;
  error_cooldown_seconds = fixed.number 300 0;
  max_queue = 2;
  retries = 2;
  retry_delays = fixed.number 1 0 ∷ fixed.number 3 0 ∷ [];
  queue = note EventKind.stop_loss none ∷ note EventKind.buy none ∷ [];
  last_keyed = [];
  history = [];
  stats = record { queued = 2; sent = 0; failed = 0; dropped = 0; suppressed = 0 };
}

-- The queue is full: the purchase makes room, not the stop loss that is older.
purchase_makes_room :
    (emit ℕ 0 (note EventKind.risk_halt none) manager).1.queue
    ≡ note EventKind.stop_loss none ∷ note EventKind.risk_halt none ∷ []
unfolding emit is_enabled key_of filled_key emit_keyed make_room_and_put is_full evict_one
    after_eviction without_first_minor put is_burst is_priority
purchase_makes_room = refl

emit_queue_example :
    (length (emit ℕ 0 (note EventKind.risk_halt none) manager).1.queue ≤ 2)
    × Takes ℕ
        (note EventKind.risk_halt none)
        manager
        (emit ℕ 0 (note EventKind.risk_halt none) manager)
emit_queue_example =
    emit_queue ℕ 0 (note EventKind.risk_halt none) manager (ground arith) (ground arith)

abbrev lost : NotificationEvent
lost = note EventKind.api_error (some "price_stream")

lost_key : key_of ℕ lost ≡ some "price_stream"
unfolding key_of filled_key
lost_key = refl

lost_taken : (emit ℕ 1_000_000 lost manager).0 ≡ true
unfolding emit is_enabled key_of filled_key emit_keyed cools_down make_room_and_put is_full
    evict_one after_eviction without_first_minor put is_burst is_priority Dict.lookup Dict.insert
lost_taken = refl

soon : fixed.lt (fixed.total_seconds (sub_ℕ 200_000_000 1_000_000)) (fixed.number 300 0) ≡ true
unfolding ◌+ℤ◌ ◌-ℤ◌
soon = refl

abbrev asked : ℕ → ℕ
asked n = n
