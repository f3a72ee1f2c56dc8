-- ===== src/Realtime/Lifespan/Shutdown.antt =====
-- What the shutdown leaves behind, by what became of the reader's task.
use dizzchat.Prelude.{
  ◌≡◌, ◌↔◌, ◌⊎◌, refl, ap, subst, ◌∙◌, inl, inr, Bool, true, false, Option, some, none, List, [],
  ◌∷◌, is_empty, all, ok, err,
}
use dizzchat.Errors.{Error, Attempt, redis_error}
use dizzchat.Messaging.Conversation.{ConversationId}
use dizzchat.Realtime.ConnectionManager.{Connection, Closing}
use dizzchat.Realtime.Subscriber.{Reading, failed, run_reader}
use dizzchat.Realtime.Subscriber.Reader.{run_reader-lost}
use dizzchat.Realtime.Lifespan.{
  Task, reading, ended, Process, startup, serving_process, Happening, joined, left, dropped, read,
  task_after, read_round, happen, happen_all, shutdown,
}

-- The shutdown has returned, the task is gone, and every connection to Redis and to the database is
-- closed.
pub record IsReleased (outcome : Attempt (Unit {0}) × Process) : Type 0 where
  pub returned : outcome.0 ≡ ok tt
  pub stopped : outcome.1.running ≡ false
  pub no_task : outcome.1.task ≡ none
  pub pubsub_closed : outcome.1.pubsub_open ≡ false
  pub redis_closed : outcome.1.redis_open ≡ false
  pub engine_disposed : outcome.1.engine_open ≡ false

-- The task is in its loop, or an error ended it; the clients of Redis and of the database are open.
record IsServing (p : Process) : Type 0 where
  task_lem : (p.task ≡ some reading) ⊎ ((e : Error) × (p.task ≡ some (ended (err e))))
  redis : p.redis_open ≡ true
  engine : p.engine_open ≡ true

task_after-cases :
    (r : Attempt (Unit {0}))
    → (task_after r ≡ reading) ⊎ ((e : Error) × (task_after r ≡ ended (err e)))
task_after-cases (ok _) = inl refl
task_after-cases (err e) = inr (e, refl)

read_round-IsServing :
    (r : Reading) (t : Option Task) (p : Process)
    → p.task ≡ t
    → IsServing p
    → IsServing (read_round r t p)
unfolding read_round
read_round-IsServing r none p same s = s
read_round-IsServing r (some (ended _)) p same s = s
read_round-IsServing r (some reading) p same s = record {
  task_lem = elim (task_after-cases (run_reader (r ∷ []) p.replica.subscriber).1.0) [
    | inl going ↦ inl (ap some going)
    | inr (e, over) ↦ inr (e, ap some over)
  ];
  redis = s.redis;
  engine = s.engine;
}

happen-IsServing : (h : Happening) (p : Process) → IsServing p → IsServing (happen h p)
unfolding happen
happen-IsServing (joined reachable c k) p s = record {
  task_lem = s.task_lem;
  redis = s.redis;
  engine = s.engine;
}
happen-IsServing (left reachable c k) p s = record {
  task_lem = s.task_lem;
  redis = s.redis;
  engine = s.engine;
}
happen-IsServing (dropped c dead) p s = record {
  task_lem = s.task_lem;
  redis = s.redis;
  engine = s.engine;
}
happen-IsServing (read r) p s = read_round-IsServing r p.task p refl s

happen_all-IsServing :
    (happenings : List Happening) (p : Process) → IsServing p → IsServing (happen_all happenings p)
unfolding happen_all
happen_all-IsServing [] p s = s
happen_all-IsServing (h ∷ happenings) p s =
    happen_all-IsServing happenings (happen h p) (happen-IsServing h p s)

startup-IsServing :
    (migrated : Attempt (Unit {0})) {p : Process} → startup migrated ≡ ok p → IsServing p
unfolding startup
startup-IsServing (err e) {p} h = cc
startup-IsServing (ok _) {p} h =
    let same : serving_process ≡ p = cc in
    subst IsServing same (record { task_lem = inl refl; redis = refl; engine = refl })

module _ (closing : Connection → Closing) (p : Process) where
  shutdown-IsReleased : p.task ≡ some reading → IsReleased (shutdown closing true true p)
  unfolding shutdown
  shutdown-IsReleased in_loop =
      rw (in_loop, shutdown)
        (record {
          returned = refl;
          stopped = refl;
          no_task = refl;
          pubsub_closed = refl;
          redis_closed = refl;
          engine_disposed = refl;
        })

  shutdown-raises :
      (pubsub_answers redis_answers : Bool) {e : Error}
      → p.task ≡ some (ended (err e))
      → let outcome = shutdown closing pubsub_answers redis_answers p in
        (outcome.0 ≡ err e)
        × (outcome.1.redis_open ≡ p.redis_open)
        × (outcome.1.engine_open ≡ p.engine_open)
  unfolding shutdown
  shutdown-raises pubsub_answers redis_answers over = rw (over, shutdown) (refl, refl, refl)

-- A task that has ended stays so.
read_round-ended :
    (r : Reading) (t : Option Task) (p : Process) {e : Error}
    → t ≡ some (ended (err e))
    → p.task ≡ t
    → (read_round r t p).task ≡ some (ended (err e))
unfolding read_round
read_round-ended r none p over same = cc
read_round-ended r (some reading) p over same = cc
read_round-ended r (some (ended _)) p over same = cc

happen-ended :
    (h : Happening) (p : Process) {e : Error}
    → p.task ≡ some (ended (err e))
    → (happen h p).task ≡ some (ended (err e))
unfolding happen
happen-ended (joined reachable c k) p over = over
happen-ended (left reachable c k) p over = over
happen-ended (dropped c dead) p over = over
happen-ended (read r) p over = read_round-ended r p.task p over refl

happen_all-ended :
    (happenings : List Happening) (p : Process) {e : Error}
    → p.task ≡ some (ended (err e))
    → (happen_all happenings p).task ≡ some (ended (err e))
unfolding happen_all
happen_all-ended [] p over = over
happen_all-ended (h ∷ happenings) p over =
    happen_all-ended happenings (happen h p) (happen-ended h p over)

-- A reading that loses the connection ends the task, where a channel cannot be subscribed to again.
read_round-lost :
    (reachable : ConversationId → Bool) (t : Option Task) (p : Process)
    → t ≡ some reading
    → is_empty p.replica.subscriber.channels ≡ false
    → all reachable p.replica.subscriber.channels ≡ false
    → (read_round (failed reachable) t p).task ≡ some (ended (err redis_error))
unfolding read_round
read_round-lost reachable none p in_loop some_channel down = cc
read_round-lost reachable (some (ended _)) p in_loop some_channel down = cc
read_round-lost reachable (some reading) p in_loop some_channel down =
    ap (λ (r : Attempt (Unit {0})). some (task_after r))
      (run_reader-lost reachable [] p.replica.subscriber some_channel down).1

happen-lost :
    (reachable : ConversationId → Bool) (p : Process)
    → IsServing p
    → is_empty p.replica.subscriber.channels ≡ false
    → all reachable p.replica.subscriber.channels ≡ false
    → (e : Error) × ((happen (read (failed reachable)) p).task ≡ some (ended (err e)))
unfolding happen
happen-lost reachable p serving some_channel down = elim serving.task_lem [
  | inl in_loop ↦ (redis_error, read_round-lost reachable p.task p in_loop some_channel down)
  | inr (e, over) ↦ (e, read_round-ended (failed reachable) p.task p over refl)
]

-- Whatever happened while the application served, and however the closing of each socket goes (it
-- returns, raises, or outlasts the time that it is given), where Redis answers to the closing of its
-- connections: the shutdown returns with the reader's task gone and every connection to Redis and to
-- the database closed, exactly if no error has ended the task by then.
pub shutdown-IsReleased_iff :
    (migrated : Attempt (Unit {0})) (happenings : List Happening) (closing : Connection → Closing)
    (p : Process)
    → startup migrated ≡ ok p
    → IsReleased (shutdown closing true true (happen_all happenings p))
      ↔ ((happen_all happenings p).task ≡ some reading)
shutdown-IsReleased_iff migrated happenings closing p up =
    let q = happen_all happenings p in
    let serving = happen_all-IsServing happenings p (startup-IsServing migrated up) in
    (
      λ released. elim serving.task_lem [
        | inl in_loop ↦ in_loop
        | inr (e, over) ↦
            let raised = (shutdown-raises closing q true true over).0 in
            cc (raised, released.returned)
      ],
      shutdown-IsReleased closing q,
    )

-- Once a reading has lost the connection to Redis and one of the channels could not be subscribed
-- to again, and whatever happens after that: the shutdown raises, with the client of Redis and the
-- engine of the database still open, also where Redis answers again by then.
pub shutdown-lost :
    (migrated : Attempt (Unit {0})) (before after : List Happening)
    (reachable : ConversationId → Bool) (closing : Connection → Closing)
    (pubsub_answers redis_answers : Bool) (p : Process)
    → startup migrated ≡ ok p
    → is_empty (happen_all before p).replica.subscriber.channels ≡ false
    → all reachable (happen_all before p).replica.subscriber.channels ≡ false
    → let lost = happen (read (failed reachable)) (happen_all before p) in
      let outcome = shutdown closing pubsub_answers redis_answers (happen_all after lost) in
      ((e : Error) × (outcome.0 ≡ err e))
      × (outcome.1.redis_open ≡ true)
      × (outcome.1.engine_open ≡ true)
shutdown-lost migrated before after reachable closing pubsub_answers redis_answers p up some_channel
      down =
    let q = happen_all before p in
    let serving = happen_all-IsServing before p (startup-IsServing migrated up) in
    let lost = happen (read (failed reachable)) q in
    let (e, over) = happen-lost reachable q serving some_channel down in
    let still =
      happen_all-IsServing after lost (happen-IsServing (read (failed reachable)) q serving) in
    let (raised, redis, engine) =
      shutdown-raises closing (happen_all after lost) pubsub_answers redis_answers
        (happen_all-ended after lost over) in
    ((e, raised), redis ∙ still.redis, engine ∙ still.engine)
