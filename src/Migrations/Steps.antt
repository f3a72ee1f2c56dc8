-- ===== src/Migrations/Steps.antt =====
-- The chain of the revisions, each with its `down_revision`, as the migration tool walks it.
use dizzchat.Prelude.{
  ℕ, zero, suc, ok, ◌>>=◌, Option, none, some, [], ◌≡◌, refl, map, List, ◌∷◌, ap, subst, traverse,
  Result-cases, inl, inr, arith,
}
use dizzchat.Errors.{Attempt}
use dizzchat.Storage.Rows.{MessageRow, Database}
use dizzchat.Migrations.{
  Schema, at_base, at_identity, at_conversations, at_message_role, at_client_message_id,
  at_conversation_participants, Tables, SentMessage, RoleMessage, create_identity_tables,
  create_conversations_tables, add_message_role, drop_message_role, add_client_message_id,
  drop_client_message_id, add_conversation_participants, drop_conversation_participants, add_role,
  drop_role, add_key, drop_key, backfilled,
}

-- The next revision up, if there is one.
unfoldable pub upgrade : Schema → Option (Attempt Schema)
upgrade at_base = some (ok create_identity_tables)
upgrade (at_identity users tokens) =
    some (ok (at_conversations (create_conversations_tables users tokens)))
upgrade (at_conversations t) = some (ok (at_message_role (add_message_role t)))
upgrade (at_message_role t) = some (ok (at_client_message_id (add_client_message_id t)))
upgrade (at_client_message_id t) =
    some (add_conversation_participants t >>= λ db. ok (at_conversation_participants db))
upgrade (at_conversation_participants db) = none

-- The next revision down, if there is one.
unfoldable pub downgrade : Schema → Option (Attempt Schema)
downgrade at_base = none
downgrade (at_identity users tokens) = some (ok at_base)
downgrade (at_conversations t) = some (ok (at_identity t.users t.refresh_tokens))
downgrade (at_message_role t) = some (drop_message_role t >>= λ t'. ok (at_conversations t'))
downgrade (at_client_message_id t) = some (ok (at_message_role (drop_client_message_id t)))
downgrade (at_conversation_participants db) =
    some (ok (at_client_message_id (drop_conversation_participants db)))

-- `upgrade head`, by at most as many revisions as the first argument.
unfoldable pub upgrade_by : ℕ → Schema → Attempt Schema
unfolding upgrade
upgrade_by zero s = ok s
upgrade_by (suc n) s = elim (upgrade s) [ none ↦ ok s | some step ↦ step >>= upgrade_by n ]

-- There are five revisions above the empty database.
unfoldable pub upgrade_head : Schema → Attempt Schema
unfolding upgrade_by
upgrade_head s = upgrade_by 5 s

drop_role-add_role : (ms : List SentMessage) → traverse drop_role (map add_role ms) ≡ ok ms
drop_role-add_role [] = refl
drop_role-add_role (m ∷ ms) = rw (drop_role-add_role ms) refl

drop_key-add_key : (ms : List RoleMessage) → map drop_key (map add_key ms) ≡ ms
drop_key-add_key [] = refl
drop_key-add_key (m ∷ ms) = ap (m ∷◌) (drop_key-add_key ms)

-- The participants come from the conversations, so nothing that was there is lost with them.
downgrade-add_participants :
    (t : Tables MessageRow) (db : Database)
    → add_conversation_participants t ≡ ok db
    → drop_conversation_participants db ≡ t
unfolding add_conversation_participants drop_conversation_participants
downgrade-add_participants t db h = elim (Result-cases (backfilled t.conversations)) [
  | inl (e, refused) ↦ absurd (cc (h, refused))
  | inr (ps, filled) ↦ ground (arith, h, filled)
]

abbrev reached : Schema → Option (Attempt Schema)
reached s = some (ok s)

-- What goes down from a revision goes down from the one that an upgrade gave.
back :
    {s₁ s' : Schema} {there : Option (Attempt Schema)}
    → downgrade s₁ ≡ there
    → reached s₁ ≡ some (ok s')
    → downgrade s' ≡ there
back {s₁} {s'} {there} down h =
    let same : s₁ ≡ s' = ground (arith, h) in subst (λ s. downgrade s ≡ there) same down

-- Every revision can be taken back: where an upgrade by one revision succeeds, the downgrade that
-- follows gives the tables that were there before, for each of the five revisions.
pub downgrade-upgrade : (s s' : Schema) → upgrade s ≡ some (ok s') → downgrade s' ≡ some (ok s)
unfolding upgrade downgrade add_message_role drop_message_role add_client_message_id
    drop_client_message_id
downgrade-upgrade at_base s' h = back refl h
downgrade-upgrade (at_identity users tokens) s' h = back refl h
downgrade-upgrade (at_conversations t) s' h = back (rw (drop_role-add_role t.messages) refl) h
downgrade-upgrade (at_message_role t) s' h = back (rw (drop_key-add_key t.messages) refl) h
downgrade-upgrade (at_client_message_id t) s' h =
    elim (Result-cases (add_conversation_participants t)) [
      | inl (e, refused) ↦ absurd (cc (h, refused))
      | inr (db, added) ↦
          let lost = downgrade-add_participants t db added in
          back {s₁ = at_conversation_participants db} (rw lost refl) (ground (arith, h, added))
    ]
downgrade-upgrade (at_conversation_participants db) s' h = absurd (cc h)
