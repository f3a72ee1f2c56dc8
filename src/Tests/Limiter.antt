-- ===== src/Tests/Limiter.antt =====
-- The limiter on a Redis that keeps a counter and its expiry under each key.
use dizzchat.Prelude.{
  ℕ, suc, ◌+◌, ◌≡◌, refl, Option, none, some, List, [], ◌∷◌, arith, min, ok, if◌then◌else◌,
}
use dizzchat.Messaging.Conversation.{Time}
use dizzchat.Realtime.RateLimiter.{Key}
use dizzchat.Realtime.RateLimiter.Expiry.{same_key, is_alive, Redis, IsExpiring}
use dizzchat.Realtime.RateLimiter.Windows.{
  Attempted, attempts_in, allowed_in, afterwards, allowed_in_lem,
}

record State : Type 0 where
  time : Time
  counters : Key → ℕ
  expiries : Key → Option Time

abbrev memory : Redis State
memory = record {
  incr = λ k r. (
    ok (suc (r.counters k)),
    record r { counters = λ j. if same_key j k then suc (r.counters j) else r.counters j },
  );
  expire = λ k ttl r. (
    ok tt,
    record r { expiries = λ j. if same_key j k then some (r.time + ttl) else r.expiries j },
  );
  wait = λ n r. record r {
    time = r.time + n;
    counters = λ j. if is_alive (r.expiries j) (r.time + n) then r.counters j else 0;
    expiries = λ j. if is_alive (r.expiries j) (r.time + n) then r.expiries j else none;
  };
  clock = λ r. r.time;
  count = λ k r. r.counters k;
  expiry = λ k r. r.expiries k;
}

memory-IsExpiring : IsExpiring memory
memory-IsExpiring = record {
  incr_result = λ k r. refl;
  incr_count = λ j k r. refl;
  incr_expiry = λ j k r. refl;
  incr_clock = λ k r. refl;
  expire_result = λ k ttl r. refl;
  expire_count = λ j k ttl r some_ttl. refl;
  expire_expiry = λ j k ttl r some_ttl there. refl;
  expire_clock = λ k ttl r. refl;
  wait_clock = λ n r. refl;
  wait_count = λ k n r. refl;
  wait_expiry = λ k n r alive. rw alive refl;
}

abbrev empty : State
empty = record { time = 3; counters = λ k. 0; expiries = λ k. none }

-- Four attempts of user 1 with a limit of two, the last of them in the second ten seconds, and one
-- of user 2.
abbrev attempts : List Attempted
attempts = (1, 0) ∷ (2, 1) ∷ (1, 1) ∷ (1, 4) ∷ (1, 3) ∷ []

abbrev first_window : Key
first_window = record { user_id = 1; window = 0 }

allowed_in_lem_example :
    (allowed_in memory 2 10 first_window attempts empty
      ≡ min 2 (attempts_in 10 first_window attempts 3))
    × ((memory.wait 10 (afterwards memory 2 10 attempts empty)).counters first_window ≡ 0)
allowed_in_lem_example =
    allowed_in_lem memory 2 10 memory-IsExpiring refl (omega arith) first_window attempts empty refl
