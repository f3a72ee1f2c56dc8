-- ===== src/Realtime/RateLimiter.antt =====
-- src/dizzchat/contexts/messaging/infrastructure/outbound/redis/redis_rate_limiter.py, over the two
-- commands of Redis that it issues in one transaction: `incr key` adds one to the key's counter and
-- returns it, `expire key ttl` lets the counter go after `ttl` seconds, and both may raise.
pub mod Expiry
pub mod Windows
use dizzchat.Prelude.{ℕ, ◌/◌, Bool, true, Result, ok, err, ◌==◌, leb, if◌then◌else◌}
use dizzchat.Errors.{Attempt, Error, zero_division_error}
use dizzchat.Storage.Session.{Action, ◌>>=◌, ◌>>◌, pure}
use dizzchat.Messaging.Conversation.{Uuid, Time}

-- `f"ratelimit:ws:{user_id}:{window}"`, as the two values in it.
pub record Key : Type 0 where
  pub user_id : Uuid
  pub window : ℕ

-- The division raises where the window is zero seconds long.
pub key : ℕ → Uuid → Time → Attempt Key
key window_seconds user_id now =
    if window_seconds == 0
    then err zero_division_error
    else ok record { user_id = user_id; window = now / window_seconds }

-- A limit of zero stands also for one below zero. The time is in whole seconds.
module _ {R : Type 0} (incr : Key → Action R ℕ) (expire : Key → ℕ → Action R (Unit {0}))
    (limit window_seconds : ℕ) where
  -- The transaction.
  pub increment : Key → Action R ℕ
  increment k = do count ← incr k; expire k window_seconds; pure count

  -- The answer to an attempt that was counted, or whose counting raised: that is let through.
  pub answer : Attempt ℕ × R → Bool × R
  answer (ok count, redis) = (leb count limit, redis)
  answer (err _, redis) = (true, redis)

  pub counted : Attempt Key → R → Attempt ℕ × R
  unfolding increment
  counted (ok k) redis = increment k redis
  counted (err e) redis = (err e, redis)

  pub allow : Uuid → Time → R → Bool × R
  unfolding answer counted
  allow user_id now redis =
      if limit == 0 then (true, redis) else answer (counted (key window_seconds user_id now) redis)
