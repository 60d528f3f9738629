-- ===== src/Notify/Queue.antt =====
-- app/notify/manager.py: what the queue of notifications holds after an event, and the cooldown.
use mathlib.Core.Bool.{false≢true}
use upbit_auto_trader.Prelude.{
  ℕ, suc, ◌≤◌, ◌<◌, String, ◌≡◌, refl, sym, ap, ◌∙◌, Bool, true, false, Option, none, some, List,
  [], ◌∷◌, ◌++◌, length, All, arith, either, either_known, ◌⊎◌, inl, inr,
}
use upbit_auto_trader.Float.{Float}
use upbit_auto_trader.Dict
use upbit_auto_trader.Dict.{lookup-insert_self}
use upbit_auto_trader.Backtest.Engine.{drop}
use upbit_auto_trader.Notify.Event.{is_priority, NotificationEvent}
use upbit_auto_trader.Notify.Manager.{
  NotificationManager, is_enabled, is_full, is_empty, key_of, without_first_minor, after_eviction,
  evict_one, put, make_room_and_put, cools_down, emit_keyed, emit,
}

module _ ⦃fl : Float⦄ (World : Type 0) where
  abbrev pub IsPriority : NotificationEvent → Type 0
  IsPriority e = is_priority e.kind ≡ true

  -- One event of the queue was dropped: the first without priority, or the oldest where all have it.
  pub record IsEvicted (before after : List NotificationEvent) : Type 0 where
    pub dropped : NotificationEvent
    pub older : List NotificationEvent
    pub newer : List NotificationEvent
    pub was_there : before ≡ older ++ dropped ∷ newer
    pub rest_kept : after ≡ older ++ newer
    pub older_priority : All IsPriority older
    pub rightly : (is_priority dropped.kind ≡ false) ⊎ ((older ≡ []) × All IsPriority before)

  -- All have priority, or the first that has not is left out.
  abbrev Found : List NotificationEvent → Option (List NotificationEvent) → Type 0
  Found items none = All IsPriority items
  Found items (some rest) = (x : IsEvicted items rest) × (is_priority x.dropped.kind ≡ false)

  cons-Found :
      (e : NotificationEvent) (es : List NotificationEvent) (o : Option (List NotificationEvent))
      → IsPriority e
      → Found es o
      → Found (e ∷ es) (elim o [ none ↦ none | some rest ↦ some (e ∷ rest) ])
  cons-Found e es none h found = (h, found)
  cons-Found e es (some rest) h (x, minor) = (
    record {
      dropped = x.dropped;
      older = e ∷ x.older;
      newer = x.newer;
      was_there = ap (λ l. e ∷ l) x.was_there;
      rest_kept = ap (λ l. e ∷ l) x.rest_kept;
      older_priority = (h, x.older_priority);
      rightly = inl minor;
    },
    minor,
  )

  without_first_minor-Found :
      (items : List NotificationEvent) → Found items (without_first_minor World items)
  unfolding without_first_minor
  without_first_minor-Found [] = tt
  without_first_minor-Found (e ∷ es) =
      either_known (Found (e ∷ es)) (is_priority e.kind)
        (λ major.
          cons-Found e es (without_first_minor World es) major (without_first_minor-Found es))
        (λ minor. (
          record {
            dropped = e;
            older = [];
            newer = es;
            was_there = refl;
            rest_kept = refl;
            older_priority = tt;
            rightly = inl minor;
          },
          minor,
        ))

  shortened-IsEvicted :
      (e : NotificationEvent) (es : List NotificationEvent) (o : Option (List NotificationEvent))
      → Found (e ∷ es) o
      → IsEvicted (e ∷ es) (elim o [ some rest ↦ rest | none ↦ drop 1 (e ∷ es) ])
  shortened-IsEvicted e es none all = record {
    dropped = e;
    older = [];
    newer = es;
    was_there = refl;
    rest_kept = refl;
    older_priority = tt;
    rightly = inr (refl, all);
  }
  shortened-IsEvicted e es (some rest) (x, minor) = x

  after_eviction-IsEvicted :
      (e : NotificationEvent) (es : List NotificationEvent)
      → IsEvicted (e ∷ es) (after_eviction World (e ∷ es))
  unfolding after_eviction
  after_eviction-IsEvicted e es =
      shortened-IsEvicted e es (without_first_minor World (e ∷ es))
        (without_first_minor-Found (e ∷ es))

  length-middle :
      (xs ys : List NotificationEvent) (y : NotificationEvent)
      → length (xs ++ y ∷ ys) ≡ suc (length (xs ++ ys))
  length-middle [] ys y = refl
  length-middle (x ∷ xs) ys y = ap suc (length-middle xs ys y)

  length-end :
      (xs : List NotificationEvent) (y : NotificationEvent)
      → length (xs ++ y ∷ []) ≡ suc (length xs)
  length-end [] y = refl
  length-end (x ∷ xs) y = ap suc (length-end xs y)

  evicted_shorter :
      (before after : List NotificationEvent)
      → IsEvicted before after
      → length before ≡ suc (length after)
  evicted_shorter before after x =
      ap length x.was_there
      ∙ length-middle x.older x.newer x.dropped
      ∙ ap (λ l. suc (length l)) (sym x.rest_kept)

  nonempty-IsEvicted :
      (items : List NotificationEvent)
      → is_empty World items ≡ false
      → IsEvicted items (after_eviction World items)
  nonempty-IsEvicted [] h = elim (false≢true (sym h)) [ ]
  nonempty-IsEvicted (e ∷ es) h = after_eviction-IsEvicted e es

  empty_length : (items : List NotificationEvent) → is_empty World items ≡ true → length items ≡ 0
  empty_length [] h = refl
  empty_length (e ∷ es) h = elim (false≢true h) [ ]

  -- The event was not taken and the queue is as before; or it is at the end of the queue, which was not
  -- full, or from which one event was dropped.
  abbrev pub Takes :
      NotificationEvent → NotificationManager World → Bool × NotificationManager World → Type 0
  Takes e m (taken, m') =
      ((taken ≡ false) × (m'.queue ≡ m.queue))
      ⊎ ((taken ≡ true) × (is_full World m ≡ false) × (m'.queue ≡ m.queue ++ e ∷ []))
      ⊎ ((taken ≡ true)
          × (is_full World m ≡ true)
          × (rest : List NotificationEvent) × IsEvicted m.queue rest
          × (m'.queue ≡ rest ++ e ∷ []))

  -- The queue fits, and the event was dealt with.
  abbrev pub Goes :
      NotificationEvent → NotificationManager World → Bool × NotificationManager World → Type 0
  Goes e m out = (length out.1.queue ≤ m.max_queue) × Takes e m out

  put-Goes :
      (e : NotificationEvent) (m : NotificationManager World)
      → 0 < m.max_queue
      → is_full World m ≡ false
      → Goes e m (put World e m)
  unfolding put is_full
  put-Goes e m pos free =
      either_known (Goes e m) (is_full World m) (λ full. elim (false≢true (sym free ∙ full)) [ ])
        (λ room. let longer = length-end m.queue e in (ground arith, inr (inl (refl, free, refl))))

  evicted-Goes :
      (e : NotificationEvent) (m m' : NotificationManager World)
      → 0 < m.max_queue
      → length m.queue ≤ m.max_queue
      → is_full World m ≡ true
      → m'.max_queue ≡ m.max_queue
      → IsEvicted m.queue m'.queue
      → Goes e m (put World e m')
  unfolding put is_full
  evicted-Goes e m m' pos fits full same x =
      let shorter = evicted_shorter m.queue m'.queue x in
      either_known (Goes e m) (is_full World m') (λ again. ground arith)
        (λ room.
          let longer = length-end m'.queue e in
          (ground arith, inr (inr (refl, full, m'.queue, x, refl))))

  make_room_and_put-Goes :
      (e : NotificationEvent) (m : NotificationManager World)
      → 0 < m.max_queue
      → length m.queue ≤ m.max_queue
      → Goes e m (make_room_and_put World e m)
  unfolding make_room_and_put evict_one
  make_room_and_put-Goes e m pos fits =
      let Puts = λ (m' : NotificationManager World). Goes e m (put World e m') in
      either_known Puts (is_full World m)
        (λ full.
          either_known Puts (is_empty World m.queue)
            (λ empty. let none_there = empty_length m.queue empty in unfold is_full in ground arith)
            (λ some_there.
              evicted-Goes e m _ pos fits full refl (nonempty-IsEvicted m.queue some_there)))
        (λ free. put-Goes e m pos free)

  emit_keyed-Goes :
      (key : Option String) (now : ℕ) (e : NotificationEvent) (m : NotificationManager World)
      → 0 < m.max_queue
      → length m.queue ≤ m.max_queue
      → Goes e m (emit_keyed World key now e m)
  unfolding emit_keyed is_full
  emit_keyed-Goes none now e m pos fits = make_room_and_put-Goes e m pos fits
  emit_keyed-Goes (some key) now e m pos fits =
      either (Goes e m) (cools_down World key now m) (fits, inl (refl, refl))
        (make_room_and_put-Goes e (record m { last_keyed = Dict.insert key now m.last_keyed }) pos
          fits)

  -- An event never makes the queue longer than its maximum. It is left out with the queue as it was,
  -- or stands at the end of it; then no other event is lost where the queue was not full, and one
  -- where it was: the first without priority, or the oldest where all have priority.
  pub emit_queue :
      (now : ℕ) (e : NotificationEvent) (m : NotificationManager World)
      → 0 < m.max_queue
      → length m.queue ≤ m.max_queue
      → (length (emit World now e m).1.queue ≤ m.max_queue) × Takes e m (emit World now e m)
  unfolding emit
  emit_queue now e m pos fits =
      either (Goes e m) (is_enabled World e.kind m)
        (emit_keyed-Goes (key_of World e) now e m pos fits) (fits, inl (refl, refl))
