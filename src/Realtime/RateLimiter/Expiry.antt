-- ===== src/Realtime/RateLimiter/Expiry.antt =====
-- What the limiter relies on of Redis: counters that go when their time is over.
use native.Mathlib.Nat.{le-div_iff_mul-le, div-mul-le_self, add-div_right}
use dizzchat.Prelude.{
  ℕ, zero, suc, ◌+◌, ◌/◌, ◌≤◌, ◌<◌, ◌≡◌, refl, ◌∙◌, Bool, true, false, ◌&&◌, ◌||◌, not, Option,
  none, some, arith, ◌==◌, ltb, if◌then◌else◌, ok, Bool-cases, inl, inr,
}
use dizzchat.Storage.Session.{Action}
use dizzchat.Messaging.Conversation.{Time}
use dizzchat.Realtime.RateLimiter.{Key, increment}

abbrev pub same_key : Key → Key → Bool
same_key k j = k.user_id == j.user_id && k.window == j.window

pub same_key_eq : (k j : Key) → same_key k j ≡ true → k ≡ j
same_key_eq k j h = ground arith

-- Whether a counter that goes at a time, if at any, is there at another.
abbrev pub is_alive : Option Time → Time → Bool
is_alive none t = true
is_alive (some e) t = ltb t e

-- Redis, with its clock and what it keeps under a key: the counter, which is zero where there is
-- none, and when it goes. `wait` lets seconds pass.
pub record Redis (R : Type 0) : Type 0 where
  pub incr : Key → Action R ℕ
  pub expire : Key → ℕ → Action R (Unit {0})
  pub wait : ℕ → R → R
  pub clock : R → Time
  pub count : Key → R → ℕ
  pub expiry : Key → R → Option Time

-- Redis answers; INCR counts by one under the key and leaves its expiry; EXPIRE with some seconds
-- sets the expiry of a counter that is there; and a counter stays until its expiry, and is gone then.
pub record IsExpiring {R : Type 0} (redis : Redis R) : Type 0 where
  pub incr_result : (k : Key) (r : R) → (redis.incr k r).0 ≡ ok (suc (redis.count k r))
  pub incr_count :
      (j k : Key) (r : R)
      → redis.count j (redis.incr k r).1
        ≡ (if same_key j k then suc (redis.count j r) else redis.count j r)
  pub incr_expiry : (j k : Key) (r : R) → redis.expiry j (redis.incr k r).1 ≡ redis.expiry j r
  pub incr_clock : (k : Key) (r : R) → redis.clock (redis.incr k r).1 ≡ redis.clock r
  pub expire_result : (k : Key) (ttl : ℕ) (r : R) → (redis.expire k ttl r).0 ≡ ok tt
  pub expire_count :
      (j k : Key) (ttl : ℕ) (r : R)
      → (ttl == 0) ≡ false
      → redis.count j (redis.expire k ttl r).1 ≡ redis.count j r
  pub expire_expiry :
      (j k : Key) (ttl : ℕ) (r : R)
      → (ttl == 0) ≡ false
      → (redis.count k r == 0) ≡ false
      → redis.expiry j (redis.expire k ttl r).1
        ≡ (if same_key j k then some (redis.clock r + ttl) else redis.expiry j r)
  pub expire_clock :
      (k : Key) (ttl : ℕ) (r : R) → redis.clock (redis.expire k ttl r).1 ≡ redis.clock r
  pub wait_clock : (n : ℕ) (r : R) → redis.clock (redis.wait n r) ≡ redis.clock r + n
  pub wait_count :
      (k : Key) (n : ℕ) (r : R)
      → redis.count k (redis.wait n r)
        ≡ (if is_alive (redis.expiry k r) (redis.clock r + n) then redis.count k r else 0)
  pub wait_expiry :
      (k : Key) (n : ℕ) (r : R)
      → is_alive (redis.expiry k r) (redis.clock r + n) ≡ true
      → redis.expiry k (redis.wait n r) ≡ redis.expiry k r

pub div_le_div : (w s t : ℕ) → zero < w → s ≤ t → s / w ≤ t / w
div_le_div w s t some_window h =
    (le-div_iff_mul-le some_window).1 (omega (arith, div-mul-le_self s w, h))

-- A window's length after a time of the window, the window is over.
window_ends : (w s t : ℕ) → zero < w → s / w ≤ t / w → s < t + w
window_ends w s t some_window h = elim (Bool-cases (ltb s (t + w))) [
  | inl before ↦ ground arith
  | inr after ↦
      let late = div_le_div w (t + w) s some_window (ground arith) in
      omega (arith, late, add-div_right t some_window, h)
]

is_alive_before : (e : Option Time) (s t : Time) → s ≤ t → is_alive e t ≡ true → is_alive e s ≡ true
is_alive_before none s t h a = refl
is_alive_before (some e) s t h a = ground arith

module _ {R : Type 0} (redis : Redis R) (laws : IsExpiring redis) (w : ℕ)
    (some_window : zero < w) where
  -- The state after the transaction.
  abbrev pub incremented : Key → R → R
  incremented j r = (redis.expire j w (redis.incr j r).1).1

  pub increment_lem :
      (limit : ℕ) (j : Key) (r : R)
      → increment redis.incr redis.expire limit w j r
        ≡ (ok (suc (redis.count j r)), incremented j r)
  unfolding increment
  increment_lem limit j r =
      rw (laws.incr_result j r) (rw (laws.expire_result j w (redis.incr j r).1) refl)

  pub incremented-count :
      (i j : Key) (r : R)
      → redis.count i (incremented j r)
        ≡ (if same_key i j then suc (redis.count i r) else redis.count i r)
  incremented-count i j r =
      laws.expire_count i j w (redis.incr j r).1 (ground arith) ∙ laws.incr_count i j r

  incremented-expiry :
      (i j : Key) (r : R)
      → redis.expiry i (incremented j r)
        ≡ (if same_key i j then some (redis.clock r + w) else redis.expiry i r)
  incremented-expiry i j r =
      let counted : (redis.count j (redis.incr j r).1 == 0) ≡ false =
        ground (arith, laws.incr_count j j r) in
      let set = laws.expire_expiry i j w (redis.incr j r).1 (ground arith) counted in
      rw (set, laws.incr_clock j r, laws.incr_expiry i j r) refl

  pub incremented-clock : (j : Key) (r : R) → redis.clock (incremented j r) ≡ redis.clock r
  incremented-clock j r = laws.expire_clock j w (redis.incr j r).1 ∙ laws.incr_clock j r

  module _ (k : Key) where
    -- A counter that is there lasts as long as its window, and no longer than a window from now.
    pub record IsTimed (r : R) : Type 0 where
      pub lasts :
          (t : Time)
          → t / w ≤ k.window
          → (redis.count k r == 0 || is_alive (redis.expiry k r) t) ≡ true
      pub ends :
          (redis.count k r == 0 || not (is_alive (redis.expiry k r) (redis.clock r + w))) ≡ true

    pub wait-IsTimed : (n : ℕ) (r : R) → IsTimed r → IsTimed (redis.wait n r)
    wait-IsTimed n r h = elim (Bool-cases (is_alive (redis.expiry k r) (redis.clock r + n))) [
      | inr dead ↦
          let none_left : redis.count k (redis.wait n r) ≡ 0 =
            ground (arith, laws.wait_count k n r) in
          record { lasts = λ t e. ground arith; ends = ground arith }
      | inl alive ↦
          let same : redis.count k (redis.wait n r) ≡ redis.count k r =
            ground (arith, laws.wait_count k n r) in
          let kept = laws.wait_expiry k n r alive in
          record {
            lasts = λ t e. rw (same, kept) (h.lasts t e);
            ends =
                let over =
                  is_alive_before (redis.expiry k r) (redis.clock r + w) (redis.clock r + n + w)
                    (omega arith) in
                rw (same, kept, laws.wait_clock n r) (ground (arith, h.ends, over));
          }
    ]

    pub incremented-IsTimed :
        (j : Key) (r : R) → j.window ≡ redis.clock r / w → IsTimed r → IsTimed (incremented j r)
    incremented-IsTimed j r now h = elim (Bool-cases (same_key k j)) [
      | inl same ↦ record {
        lasts = λ t e.
            let in_time = window_ends w t (redis.clock r) some_window (ground arith) in
            rw (incremented-expiry k j r, same) (ground arith);
        ends = rw (incremented-expiry k j r, same, incremented-clock j r) (ground arith);
      }
      | inr other ↦
          let count : redis.count k (incremented j r) ≡ redis.count k r =
            ground (arith, incremented-count k j r) in
          let expiry : redis.expiry k (incremented j r) ≡ redis.expiry k r =
            incremented-expiry k j r ∙ rw other refl in
          record {
            lasts = λ t e. rw (count, expiry) (h.lasts t e);
            ends = rw (count, expiry, incremented-clock j r) h.ends;
          }
    ]
