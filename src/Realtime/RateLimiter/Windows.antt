-- ===== src/Realtime/RateLimiter/Windows.antt =====
-- How many attempts the limiter lets through.
use dizzchat.Prelude.{
  ℕ, zero, suc, ◌+◌, ◌/◌, ◌≤◌, ◌<◌, min, ◌≡◌, refl, sym, ap, ◌∙◌, Bool, true, false, ◌&&◌, List, [],
  ◌∷◌, arith, ◌==◌, leb, ltb, if◌then◌else◌, Bool-cases, inl, inr,
}
use dizzchat.Messaging.Conversation.{Uuid, Time}
use dizzchat.Realtime.RateLimiter.{Key, key, answer, allow}
use dizzchat.Realtime.RateLimiter.Expiry.{
  same_key, same_key_eq, Redis, IsExpiring, div_le_div, IsTimed, wait-IsTimed, incremented,
  increment_lem, incremented-count, incremented-clock, incremented-IsTimed,
}

-- An attempt: who makes it, and how many seconds after the one before it.
abbrev pub Attempted : Type 0
Attempted = Uuid × ℕ

-- How many attempts a user makes in a window, from a time on.
abbrev pub attempts_in : ℕ → Key → List Attempted → Time → ℕ
attempts_in window_seconds k [] t = 0
attempts_in window_seconds k ((u, n) ∷ attempts) t =
    let rest = attempts_in window_seconds k attempts (t + n) in
    if k.user_id == u && k.window == (t + n) / window_seconds then suc rest else rest

not_counted :
    (let_through user window : Bool) (n : ℕ)
    → window ≡ false
    → (if let_through && (user && window) then suc n else n) ≡ n
not_counted let_through user window n h = ground arith

nothing_more : (limit c a b : ℕ) → a ≡ 0 → b ≡ 0 → a + min limit c ≡ min limit (c + b)
nothing_more limit c a b none_allowed none_made = omega arith

-- What an attempt adds to those that are let through and to those that are made, where `c` is the
-- count before it and `c'` the one after it.
one_more :
    (limit c c' a b : ℕ) (own let_through : Bool)
    → c' ≡ (if own then suc c else c)
    → (own ≡ true → let_through ≡ leb (suc c) limit)
    → a + min limit c' ≡ min limit (c' + b)
    → {c₀ b₀ : ℕ} {own₀ : Bool} → c ≡ c₀
    → b ≡ b₀
    → own ≡ own₀
    → (if let_through && own then suc a else a) + min limit c₀
      ≡ min limit (c₀ + (if own₀ then suc b₀ else b₀))
one_more limit c c' a b true let_through count told rest e f g =
    let o = told refl in ground (arith, o)
one_more limit c c' a b false let_through count told rest e f g = ground arith

module _ {R : Type 0} (redis : Redis R) (limit window_seconds : ℕ) where
  -- An attempt, when its seconds have passed, at the time of Redis's clock.
  abbrev pub attempt : Attempted → R → Bool × R
  attempt (u, n) r =
      let r' = redis.wait n r in
      allow redis.incr redis.expire limit window_seconds u (redis.clock r') r'

  -- How many attempts of a user in a window are let through, of those in the list.
  pub allowed_in : Key → List Attempted → R → ℕ
  allowed_in k [] r = 0
  allowed_in k ((u, n) ∷ attempts) r =
      let answered = attempt (u, n) r in
      let rest = allowed_in k attempts answered.1 in
      if answered.0 && (k.user_id == u && k.window == redis.clock (redis.wait n r) / window_seconds)
      then suc rest
      else rest

  -- The state when all were made.
  pub afterwards : List Attempted → R → R
  afterwards [] r = r
  afterwards (a ∷ attempts) r = afterwards attempts (attempt a r).1

  module _ (laws : IsExpiring redis) (some_limit : (limit == 0) ≡ false)
      (some_window : zero < window_seconds) where
    abbrev counter : Uuid → R → Key
    counter u r = record { user_id = u; window = redis.clock r / window_seconds }

    abbrev counted : Key → R → R
    counted = incremented redis laws window_seconds some_window

    attempt_lem :
        (u : Uuid) (n : ℕ) (r : R)
        → let r' = redis.wait n r in
          attempt (u, n) r
          ≡ (leb (suc (redis.count (counter u r') r')) limit, counted (counter u r') r')
    unfolding allow key answer
    attempt_lem u n r =
        let r' = redis.wait n r in
        let positive : (window_seconds == 0) ≡ false = ground arith in
        rw (some_limit, allow)
          (rw (positive, key)
            (ap (answer redis.incr redis.expire limit window_seconds)
              (increment_lem redis laws window_seconds some_window limit (counter u r') r')))

    module _ (k : Key) where
      abbrev Timed : R → Type 0
      Timed = IsTimed redis laws window_seconds some_window k

      attempt-IsTimed : (u : Uuid) (n : ℕ) (r : R) → Timed r → Timed (attempt (u, n) r).1
      attempt-IsTimed u n r h =
          let r' = redis.wait n r in
          rw (attempt_lem u n r) (
            incremented-IsTimed redis laws window_seconds some_window k (counter u r') r' refl
              (wait-IsTimed redis laws window_seconds some_window k n r h))

      attempt-clock :
          (u : Uuid) (n : ℕ) (r : R) → redis.clock (attempt (u, n) r).1 ≡ redis.clock r + n
      attempt-clock u n r =
          let r' = redis.wait n r in
          rw (attempt_lem u n r) (
            incremented-clock redis laws window_seconds some_window (counter u r') r'
            ∙ laws.wait_clock n r)

      afterwards-IsTimed :
          (attempts : List Attempted) (r : R) → Timed r → Timed (afterwards attempts r)
      unfolding afterwards
      afterwards-IsTimed [] r h = h
      afterwards-IsTimed ((u, n) ∷ attempts) r h =
          afterwards-IsTimed attempts (attempt (u, n) r).1 (attempt-IsTimed u n r h)

      -- When the window is over, nothing more counts for it.
      window_over :
          (attempts : List Attempted) (r : R)
          → k.window < redis.clock r / window_seconds
          → (allowed_in k attempts r ≡ 0)
            × (attempts_in window_seconds k attempts (redis.clock r) ≡ 0)
      unfolding allowed_in
      window_over [] r over = (refl, refl)
      window_over ((u, n) ∷ attempts) r over =
          let later =
            div_le_div window_seconds (redis.clock r) (redis.clock r + n) some_window
              (omega arith) in
          let other : (k.window == (redis.clock r + n) / window_seconds) ≡ false = ground arith in
          let same = attempt-clock u n r in
          let rest =
            window_over attempts (attempt (u, n) r).1 (rw same (omega (arith, later, over))) in
          (
            not_counted (attempt (u, n) r).0 (k.user_id == u) _ _ (rw (laws.wait_clock n r) other)
                ∙ rest.0,
            not_counted true (k.user_id == u) _ _ other ∙ rw (sym same) rest.1,
          )

      -- The counter stays until its window is over.
      counter_there :
          (n : ℕ) (r : R)
          → Timed r
          → (redis.clock r + n) / window_seconds ≤ k.window
          → redis.count k (redis.wait n r) ≡ redis.count k r
      counter_there n r h early =
          ground (arith, laws.wait_count k n r, h.lasts (redis.clock r + n) early)

      -- The counter as an attempt leaves it, and what is answered where it is its own.
      counted_here :
          (u : Uuid) (n : ℕ) (r : R)
          → let r' = redis.wait n r in
            let own = same_key k (counter u r') in
            (redis.count k (attempt (u, n) r).1
              ≡ (if own then suc (redis.count k r') else redis.count k r'))
            × (own ≡ true → (attempt (u, n) r).0 ≡ leb (suc (redis.count k r')) limit)
      counted_here u n r =
          let r' = redis.wait n r in
          rw (attempt_lem u n r) (
            incremented-count redis laws window_seconds some_window k (counter u r') r',
            λ own.
                ap (λ (i : Key). leb (suc (redis.count i r')) limit)
                  (sym (same_key_eq k (counter u r') own)),
          )

      -- One attempt and those after it.
      allowed_from :
          (attempts : List Attempted) (r : R)
          → Timed r
          → allowed_in k attempts r + min limit (redis.count k r)
            ≡ min limit (redis.count k r + attempts_in window_seconds k attempts (redis.clock r))
      unfolding allowed_in
      allowed_from [] r h = omega arith
      allowed_from ((u, n) ∷ attempts) r h =
          elim (Bool-cases (ltb k.window ((redis.clock r + n) / window_seconds))) [
            | inl over ↦
                let same = attempt-clock u n r in
                let other : (k.window == (redis.clock r + n) / window_seconds) ≡ false =
                  ground arith in
                let (none_allowed, none_made) =
                  window_over attempts (attempt (u, n) r).1 (rw same (ground arith)) in
                nothing_more limit (redis.count k r) _ _
                  (not_counted (attempt (u, n) r).0 (k.user_id == u) _ _
                      (rw (laws.wait_clock n r) other)
                    ∙ none_allowed)
                  (not_counted true (k.user_id == u) _ _ other ∙ rw (sym same) none_made)
            | inr early ↦
                let there = counter_there n r h (ground arith) in
                let (count, told) = counted_here u n r in
                let rest = allowed_from attempts (attempt (u, n) r).1 (attempt-IsTimed u n r h) in
                let time = laws.wait_clock n r in
                one_more limit (redis.count k (redis.wait n r)) _ _ _ _ (attempt (u, n) r).0 count
                  told rest there (ap (attempts_in window_seconds k attempts) (attempt-clock u n r))
                  (ap (λ t. k.user_id == u && k.window == t / window_seconds) time)
          ]

      -- With a limit of at least one and a window of at least one second, where Redis answers, its
      -- counters go when their time is over, and the replica's clock tells Redis's time: attempts of
      -- all users are made one after the other, any number of seconds apart, and the user has no
      -- counter for the window yet. Then the user gets through in the window as often as he tries in
      -- it, up to the limit, however many windows the attempts go through; and a window's length
      -- after the last attempt Redis has no counter for it any more.
      pub allowed_in_lem :
          (attempts : List Attempted) (r : R)
          → redis.count k r ≡ 0
          → (allowed_in k attempts r
              ≡ min limit (attempts_in window_seconds k attempts (redis.clock r)))
            × (redis.count k (redis.wait window_seconds (afterwards attempts r)) ≡ 0)
      allowed_in_lem attempts r fresh =
          let timed : Timed r = record { lasts = λ t e. ground arith; ends = ground arith } in
          let total = allowed_from attempts r timed in
          let last = afterwards attempts r in
          let over = (afterwards-IsTimed attempts r timed).ends in
          (omega (arith, total, fresh), ground (arith, over, laws.wait_count k window_seconds last))
