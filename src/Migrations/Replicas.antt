-- ===== src/Migrations/Replicas.antt =====
-- Replicas that migrate one database when they start: src/migrations/env.py, in any interleaving of
-- their steps. The advisory lock is the database's: one transaction holds it until it ends.
use dizzchat.Prelude.{
  ℕ, zero, suc, ◌+◌, ◌-◌, ◌≤◌, ◌≡◌, ◌⊎◌, refl, subst, ap, ◌∙◌, Option, none, some, ok, ◌==◌, ==_iff,
  if◌then◌else◌, Bool-cases, Result-cases, inl, inr, arith,
}
use dizzchat.Migrations.{
  Schema, at_base, at_identity, at_conversations, at_message_role, at_client_message_id,
  at_conversation_participants, add_conversation_participants,
}
use dizzchat.Migrations.Steps.{upgrade, upgrade_by, upgrade_head}

-- Where a replica's `_do_run_migrations` is; `migrating` has the tables as its transaction sees them.
pub data Phase : Type 0 where
  waiting : Phase
  migrating : Schema → Phase
  finished : Phase
  failed : Phase

-- What is committed, which replica holds the lock, and the phase of each.
pub record Fleet : Type 0 where
  pub committed : Schema
  pub holder : Option ℕ
  pub phase : ℕ → Phase

abbrev pub set : ℕ → Phase → (ℕ → Phase) → ℕ → Phase
set p x phase q = if q == p then x else phase q

abbrev pub locked : ℕ → Fleet → Fleet
locked p f = record f { holder = some p; phase = set p (migrating f.committed) f.phase }

abbrev pub revised : ℕ → Schema → Fleet → Fleet
revised p s f = record f { phase = set p (migrating s) f.phase }

abbrev pub committed_by : ℕ → Schema → Fleet → Fleet
committed_by p s f = record { committed = s; holder = none; phase = set p finished f.phase }

abbrev pub failed_by : ℕ → Fleet → Fleet
failed_by p f = record f { holder = none; phase = set p failed f.phase }

-- One step of one replica: it takes the lock, which waits until nobody holds it, and then reads the
-- revision; it runs the next revision; it commits where there is none; or it is rolled back, because
-- a revision failed or the replica was stopped.
pub data Step : Fleet → Fleet → Type 0 where
  acquire : {f : Fleet} (p : ℕ) → f.phase p ≡ waiting → f.holder ≡ none → Step f (locked p f)
  revise :
      {f : Fleet} (p : ℕ) {s s' : Schema}
      → f.phase p ≡ migrating s
      → upgrade s ≡ some (ok s')
      → Step f (revised p s' f)
  commit :
      {f : Fleet} (p : ℕ) {s : Schema}
      → f.phase p ≡ migrating s
      → upgrade s ≡ none
      → Step f (committed_by p s f)
  roll_back : {f : Fleet} (p : ℕ) {s : Schema} → f.phase p ≡ migrating s → Step f (failed_by p f)

-- The fleets that some steps lead to when all replicas start on one database.
abbrev pub started : Schema → Fleet
started s = record { committed = s; holder = none; phase = λ p. waiting }

pub data Reached (s : Schema) : Fleet → Type 0 where
  at_start : Reached s (started s)
  after_step : {f g : Fleet} → Reached s f → Step f g → Reached s g

-- That so many revisions lead from one to the other.
data Above (s : Schema) : ℕ → Schema → Type 0 where
  same_revision : Above s 0 s
  next_revision : {k : ℕ} {t u : Schema} → Above s k t → upgrade t ≡ some (ok u) → Above s (suc k) u

rank : Schema → ℕ
rank at_base = 0
rank (at_identity users tokens) = 1
rank (at_conversations t) = 2
rank (at_message_role t) = 3
rank (at_client_message_id t) = 4
rank (at_conversation_participants db) = 5

rank-le : (s : Schema) → rank s ≤ 5
unfolding rank
rank-le at_base = omega arith
rank-le (at_identity users tokens) = omega arith
rank-le (at_conversations t) = omega arith
rank-le (at_message_role t) = omega arith
rank-le (at_client_message_id t) = omega arith
rank-le (at_conversation_participants db) = omega arith

upgrade-rank : (s s' : Schema) → upgrade s ≡ some (ok s') → rank s' ≡ suc (rank s)
unfolding upgrade rank
upgrade-rank at_base s' h = ground (arith, h)
upgrade-rank (at_identity users tokens) s' h = ground (arith, h)
upgrade-rank (at_conversations t) s' h = ground (arith, h)
upgrade-rank (at_message_role t) s' h = ground (arith, h)
upgrade-rank (at_client_message_id t) s' h = elim (Result-cases (add_conversation_participants t)) [
  | inl (e, refused) ↦ absurd (cc (h, refused))
  | inr (db, added) ↦ ground (arith, h, added)
]
upgrade-rank (at_conversation_participants db) s' h = absurd (cc h)

Above-rank : {s t : Schema} {k : ℕ} → Above s k t → rank t ≡ k + rank s
Above-rank same_revision = omega arith
Above-rank (next_revision {t = t} {u = u} h up) = omega (arith, Above-rank h, upgrade-rank t u up)

upgrade_by-Above :
    {s t : Schema} {k : ℕ} (m n : ℕ) → m ≡ k + n → Above s k t → upgrade_by m s ≡ upgrade_by n t
unfolding upgrade_by
upgrade_by-Above {s = s} m n e same_revision =
    let same : m ≡ n = omega (arith, e) in ap (λ i. upgrade_by i s) same
upgrade_by-Above m n e (next_revision {k = k} {t = t} h up) =
    let longer : m ≡ k + suc n = omega (arith, e) in
    upgrade_by-Above m (suc n) longer h ∙ rw (up, upgrade_by) refl

upgrade_by-top : (n : ℕ) (t : Schema) → upgrade t ≡ none → upgrade_by n t ≡ ok t
unfolding upgrade_by
upgrade_by-top zero t top = refl
upgrade_by-top (suc n) t top = rw (top, upgrade_by) refl

-- The revision above which there is none is what `upgrade head` gives.
upgrade_head-Above : {s t : Schema} {k : ℕ} → Above s k t → upgrade t ≡ none → upgrade_head s ≡ ok t
unfolding upgrade_head
upgrade_head-Above {s} {t} {k} h top =
    let enough : 5 ≡ k + (5 - k) = omega (arith, Above-rank h, rank-le t) in
    upgrade_by-Above 5 (5 - k) enough h ∙ upgrade_by-top (5 - k) t top

-- From the last revision no other one is reached.
top-Above : {s t : Schema} {k : ℕ} → Above s k t → upgrade s ≡ none → t ≡ s
top-Above same_revision top = refl
top-Above {s} (next_revision {t = t} h up) top = absurd (cc (top-Above h top, up, top))

-- What holds of a fleet at all times. What is committed is what was there at the start, or what the
-- upgrade gives; who migrates holds the lock, and some revisions lead from what is committed to what
-- it sees; and nobody has finished unless what is committed is what the upgrade gives.
record IsOrderly (s : Schema) (f : Fleet) : Type 0 where
  committed_lem :
      (f.committed ≡ s) ⊎ ((upgrade_head s ≡ ok f.committed) × (upgrade f.committed ≡ none))
  holds_lock : (p : ℕ) (t : Schema) → f.phase p ≡ migrating t → f.holder ≡ some p
  on_the_way : (p : ℕ) (t : Schema) → f.phase p ≡ migrating t → (k : ℕ) × Above f.committed k t
  is_upgraded : (p : ℕ) → f.phase p ≡ finished → upgrade_head s ≡ ok f.committed

started-IsOrderly : (s : Schema) → IsOrderly s (started s)
started-IsOrderly s = record {
  committed_lem = inl refl;
  holds_lock = λ p t h. absurd (cc h);
  on_the_way = λ p t h. absurd (cc h);
  is_upgraded = λ p h. absurd (cc h);
}

module _ (s : Schema) (f : Fleet) (h : IsOrderly s f) (p : ℕ) where
  locked-IsOrderly : f.phase p ≡ waiting → f.holder ≡ none → IsOrderly s (locked p f)
  locked-IsOrderly waits free = record {
    committed_lem = h.committed_lem;
    holds_lock = λ q t m. elim (Bool-cases (q == p)) [
      | inl e ↦ ground (arith, ==_iff q p, e)
      | inr e ↦ absurd (cc (free, h.holds_lock q t (ground (arith, m, e))))
    ];
    on_the_way = λ q t m. elim (Bool-cases (q == p)) [
      | inl e ↦ (0, subst (Above f.committed 0) (ground (arith, m, e)) same_revision)
      | inr e ↦ absurd (cc (free, h.holds_lock q t (ground (arith, m, e))))
    ];
    is_upgraded = λ q m. h.is_upgraded q (ground (arith, m));
  }

  module _ (t : Schema) (migrates : f.phase p ≡ migrating t) where
    -- Nobody else migrates.
    alone : (q : ℕ) (u : Schema) → f.phase q ≡ migrating u → q ≡ p
    alone q u m = ground (arith, h.holds_lock q u m, h.holds_lock p t migrates)

    revised-IsOrderly : (u : Schema) → upgrade t ≡ some (ok u) → IsOrderly s (revised p u f)
    revised-IsOrderly u up = record {
      committed_lem = h.committed_lem;
      holds_lock = λ q v m. elim (Bool-cases (q == p)) [
        | inl e ↦ ground (arith, ==_iff q p, e, h.holds_lock p t migrates)
        | inr e ↦ h.holds_lock q v (ground (arith, m, e))
      ];
      on_the_way = λ q v m. elim (Bool-cases (q == p)) [
        | inl e ↦
            let (k, above) = h.on_the_way p t migrates in
            (
              suc k,
              subst (Above f.committed (suc k)) (ground (arith, m, e)) (next_revision above up),
            )
        | inr e ↦ h.on_the_way q v (ground (arith, m, e))
      ];
      is_upgraded = λ q m. h.is_upgraded q (ground (arith, m));
    }

    -- What a replica commits is what the upgrade gives.
    result : upgrade t ≡ none → upgrade_head s ≡ ok t
    result top =
        let (k, above) = h.on_the_way p t migrates in
        elim h.committed_lem [
          | inl first ↦ upgrade_head-Above (subst (λ c. Above c k t) first above) top
          | inr (given, last) ↦ ground (arith, given, top-Above above last)
        ]

    committed_by-IsOrderly : upgrade t ≡ none → IsOrderly s (committed_by p t f)
    committed_by-IsOrderly top = record {
      committed_lem = inr (result top, top);
      holds_lock = λ q v m. elim (Bool-cases (q == p)) [
        | inl e ↦ absurd (cc (m, e))
        | inr e ↦ absurd (ground (arith, ==_iff q p, e, alone q v (ground (arith, m, e))))
      ];
      on_the_way = λ q v m. elim (Bool-cases (q == p)) [
        | inl e ↦ absurd (cc (m, e))
        | inr e ↦ absurd (ground (arith, ==_iff q p, e, alone q v (ground (arith, m, e))))
      ];
      is_upgraded = λ q m. result top;
    }

    failed_by-IsOrderly : IsOrderly s (failed_by p f)
    failed_by-IsOrderly = record {
      committed_lem = h.committed_lem;
      holds_lock = λ q v m. elim (Bool-cases (q == p)) [
        | inl e ↦ absurd (cc (m, e))
        | inr e ↦ absurd (ground (arith, ==_iff q p, e, alone q v (ground (arith, m, e))))
      ];
      on_the_way = λ q v m. elim (Bool-cases (q == p)) [
        | inl e ↦ absurd (cc (m, e))
        | inr e ↦ h.on_the_way q v (ground (arith, m, e))
      ];
      is_upgraded = λ q m. h.is_upgraded q (ground (arith, m));
    }

step-IsOrderly : (s : Schema) (f g : Fleet) → IsOrderly s f → Step f g → IsOrderly s g
step-IsOrderly s f g h (acquire p waits free) = locked-IsOrderly s f h p waits free
step-IsOrderly s f g h (revise p m up) = revised-IsOrderly s f h p _ m _ up
step-IsOrderly s f g h (commit p m top) = committed_by-IsOrderly s f h p _ m top
step-IsOrderly s f g h (roll_back p m) = failed_by-IsOrderly s f h p _ m

Reached-IsOrderly : {s : Schema} {f : Fleet} → Reached s f → IsOrderly s f
Reached-IsOrderly at_start = started-IsOrderly _
Reached-IsOrderly (after_step reached step) = step-IsOrderly _ _ _ (Reached-IsOrderly reached) step

-- Any number of replicas that start on one database, in any interleaving, any of which may be rolled
-- back at any time: never do two of them migrate at once; what is committed is the database as it was
-- or exactly what one run of the upgrade makes of it, so that no revision is applied twice; and it is
-- the latter as soon as one replica has finished.
pub Reached-upgraded :
    (s : Schema) (f : Fleet)
    → Reached s f
    → ((p q : ℕ) (t u : Schema) → f.phase p ≡ migrating t → f.phase q ≡ migrating u → q ≡ p)
      × ((f.committed ≡ s) ⊎ (upgrade_head s ≡ ok f.committed))
      × ((p : ℕ) → f.phase p ≡ finished → upgrade_head s ≡ ok f.committed)
Reached-upgraded s f reached =
    let h = Reached-IsOrderly reached in
    (
      λ p q t u m n. alone s f h p t m q u n,
      elim h.committed_lem [ inl first ↦ inl first | inr (given, last) ↦ inr given ],
      h.is_upgraded,
    )
