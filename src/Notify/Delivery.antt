-- ===== src/Notify/Delivery.antt =====
-- app/notify/manager.py: the cooldown of a key, and how often a channel is asked to send an event.
use mathlib.Core.Path.{subst}
use mathlib.Core.Bool.{false≢true}
use upbit_auto_trader.Prelude.{
  ℕ, zero, suc, ◌+◌, ◌≤◌, String, ◌≡◌, refl, sym, ap, ◌∙◌, Bool, true, false, Option, none, some,
  List, arith, either, either_known,
}
use upbit_auto_trader.Float.{Float, nil}
use upbit_auto_trader.Dict
use upbit_auto_trader.Dict.{lookup-insert_self}
use upbit_auto_trader.Market.Prices.{seconds_since}
use upbit_auto_trader.Notify.Event.{NotificationEvent}
use upbit_auto_trader.Notify.Manager.{
  Sending, delivered, refused, broken, Channel, NotificationManager, is_enabled, is_full, is_empty,
  key_of, evict_one, put, make_room_and_put, suppress, cools_down, emit_keyed, emit, after_sending,
  text_of, pause, delay_at, send_from, send_with_retry,
}

module _ ⦃fl : Float⦄ (World : Type 0) where
  abbrev SameKeys : NotificationManager World → NotificationManager World → Type 0
  SameKeys m m' =
      (m'.last_keyed ≡ m.last_keyed) × (m'.error_cooldown_seconds ≡ m.error_cooldown_seconds)

  put-SameKeys :
      (m : NotificationManager World) (e : NotificationEvent) (m' : NotificationManager World)
      → SameKeys m m'
      → SameKeys m (put World e m').1
  unfolding put
  put-SameKeys m e m' h =
      either (λ (out : Bool × NotificationManager World). SameKeys m out.1) (is_full World m') h h

  evict_one-SameKeys : (m : NotificationManager World) → SameKeys m (evict_one World m)
  unfolding evict_one
  evict_one-SameKeys m = either (SameKeys m) (is_empty World m.queue) (refl, refl) (refl, refl)

  make_room_and_put-SameKeys :
      (e : NotificationEvent) (m : NotificationManager World)
      → SameKeys m (make_room_and_put World e m).1
  unfolding make_room_and_put
  make_room_and_put-SameKeys e m =
      put-SameKeys m e
        (elim (is_full World m) as (λ _. NotificationManager World) [
          | true ↦ evict_one World m
          | false ↦ m
        ])
        (either (SameKeys m) (is_full World m) (evict_one-SameKeys m) (refl, refl))

  -- After an event that was taken, its key stands with its time.
  emit_keyed-last :
      (key : String) (now : ℕ) (e : NotificationEvent) (m : NotificationManager World)
      → (emit_keyed World (some key) now e m).0 ≡ true
      → SameKeys
          (record m { last_keyed = Dict.insert key now m.last_keyed })
          (emit_keyed World (some key) now e m).1
  unfolding emit_keyed
  emit_keyed-last key now e m =
      either
        (λ (out : Bool × NotificationManager World).
          out.0 ≡ true
          → SameKeys (record m { last_keyed = Dict.insert key now m.last_keyed }) out.1)
        (cools_down World key now m) (λ taken. elim (false≢true taken) [ ])
        (λ taken.
          make_room_and_put-SameKeys e (record m { last_keyed = Dict.insert key now m.last_keyed }))

  cools_down-known :
      (key : String) (last later : ℕ) (m : NotificationManager World)
      → Dict.lookup key m.last_keyed ≡ some last
      → fl.lt (seconds_since later last) m.error_cooldown_seconds ≡ true
      → cools_down World key later m ≡ true
  unfolding cools_down
  cools_down-known key last later m h soon =
      subst
        (λ (o : Option ℕ).
          elim o as (λ _. Bool) [
            | none ↦ false
            | some t ↦ fl.lt (seconds_since later t) m.error_cooldown_seconds
          ]
          ≡ true)
        (sym h) soon

  emit-keyed :
      (now : ℕ) (e : NotificationEvent) (key : String) (m : NotificationManager World)
      → key_of World e ≡ some key
      → (emit World now e m).0 ≡ true
      → SameKeys (record m { last_keyed = Dict.insert key now m.last_keyed }) (emit World now e m).1
  unfolding emit
  emit-keyed now e key m h =
      either
        (λ (out : Bool × NotificationManager World).
          out.0 ≡ true
          → SameKeys (record m { last_keyed = Dict.insert key now m.last_keyed }) out.1)
        (is_enabled World e.kind m)
        (subst
          (λ (o : Option String).
            (emit_keyed World o now e m).0 ≡ true
            → SameKeys (record m { last_keyed = Dict.insert key now m.last_keyed })
                (emit_keyed World o now e m).1)
          (sym h) (emit_keyed-last key now e m))
        (λ taken. elim (false≢true taken) [ ])

  emit_cooling :
      (later : ℕ) (e : NotificationEvent) (key : String) (m : NotificationManager World)
      → key_of World e ≡ some key
      → cools_down World key later m ≡ true
      → emit World later e m ≡ suppress World m
  unfolding emit emit_keyed
  emit_cooling later e key m h cooling =
      let Held = λ (out : Bool × NotificationManager World). out ≡ suppress World m in
      either Held (is_enabled World e.kind m)
        (subst (λ (o : Option String). Held (emit_keyed World o later e m)) (sym h)
          (either_known Held (cools_down World key later m) (λ yes_cooling. refl)
            (λ over. elim (false≢true (sym over ∙ cooling)) [ ])))
        refl

  -- After an event with a key was taken, a further event with the same key that comes before the
  -- cooldown is over is left out: it is counted as suppressed and nothing else changes.
  pub emit_again_cools :
      (now later : ℕ) (e e' : NotificationEvent) (key : String) (m : NotificationManager World)
      → key_of World e ≡ some key
      → key_of World e' ≡ some key
      → (emit World now e m).0 ≡ true
      → fl.lt (seconds_since later now) m.error_cooldown_seconds ≡ true
      → emit World later e' (emit World now e m).1 ≡ suppress World (emit World now e m).1
  emit_again_cools now later e e' key m h h' taken soon =
      let m' = (emit World now e m).1 in
      let (keys, cooldown) = emit-keyed now e key m h taken in
      emit_cooling later e' key m' h' (
        cools_down-known key now later m'
          (ap (Dict.lookup key) keys ∙ lookup-insert_self key now m.last_keyed)
          (ap (fl.lt (seconds_since later now)) cooldown ∙ soon))

  module _ (sent : World → ℕ) where
    after_sending-most :
        (tried : Sending × World) (again : Option String × World) (n : ℕ)
        → sent tried.1 ≤ n
        → sent again.1 ≤ n
        → sent (after_sending World tried again).1 ≤ n
    unfolding after_sending
    after_sending-most (delivered, w) again n h k = h
    after_sending-most (broken text, w) again n h k = h
    after_sending-most (refused true text, w) again n h k = k
    after_sending-most (refused false text, w) again n h k = h

    pause-quiet :
        (c : Channel World) (delay : fl.Num) (w : World)
        → ((d : fl.Num) (x : World) → sent (c.sleep d x) ≡ sent x)
        → sent (pause World c delay w) ≡ sent w
    pause-quiet c delay w quiet =
        either (λ (x : World). sent x ≡ sent w) (fl.lt nil delay) (quiet delay w) refl

    send_from-most :
        (left attempt : ℕ) (delays : List fl.Num) (c : Channel World) (e : NotificationEvent)
        (w : World)
        → ((x : World) → sent (c.send e x).1 ≡ suc (sent x))
        → ((d : fl.Num) (x : World) → sent (c.sleep d x) ≡ sent x)
        → sent (send_from World left attempt delays c e w).1 ≤ suc left + sent w
    unfolding send_from
    send_from-most zero attempt delays c e w counts quiet =
        let tried = c.send e w in
        after_sending-most tried (text_of World tried.0, tried.1) _
          (let one = counts w in ground arith) (let one = counts w in ground arith)
    send_from-most (suc left) attempt delays c e w counts quiet =
        let tried = c.send e w in
        let one = counts w in
        let delay = delay_at World attempt delays in
        let rest =
          send_from-most left (suc attempt) delays c e (pause World c delay tried.1) counts quiet in
        let still : sent (pause World c delay tried.1) ≡ sent tried.1 =
          pause-quiet c delay tried.1 quiet in
        after_sending-most tried _ _ (ground arith) (ground arith)

    -- Where a channel counts the times that it is asked to send, an event is sent at most once more than
    -- the retries, whatever the channel answers.
    pub send_with_retry_most :
        (m : NotificationManager World) (c : Channel World) (e : NotificationEvent) (w : World)
        → ((x : World) → sent (c.send e x).1 ≡ suc (sent x))
        → ((d : fl.Num) (x : World) → sent (c.sleep d x) ≡ sent x)
        → sent (send_with_retry World m c e w).1 ≤ suc m.retries + sent w
    unfolding send_with_retry
    send_with_retry_most m c e w counts quiet =
        send_from-most m.retries 0 m.retry_delays c e w counts quiet
