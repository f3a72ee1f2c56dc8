-- ===== src/Messaging/Services/Directory/View.antt =====
-- The directory that the tables hold, and how each write changes it.
use dizzchat.Prelude.{
  ◌≡◌, refl, ap, subst, true, false, ◌&&◌, not, Option, none, some, List, [], ◌∷◌, map, arith, ◌==◌,
  ==_iff, any, filter, find?, is_some, if◌then◌else◌, Bool-cases, inl, inr,
}
use mathlib.Core.Path.{ap₂, fun_ext}
use mathlib.Core.Option
use dizzchat.Text.{Text}
use dizzchat.Messaging.Conversation.{Uuid, Time, ConversationId}
use dizzchat.Storage.Rows.{ConversationRow, ParticipantRow, Database}
use dizzchat.Storage.Conversations.{is_row, is_active_row, is_member_row, updated_row}
use dizzchat.Storage.Conversations.Consistency.{IdsUnique}
use dizzchat.Messaging.Services.Directory.{Entry, Directory, with_member}

abbrev pub entry_of : ConversationRow → Entry
entry_of row = record {
  owner = row.owner_id;
  title = row.title;
  is_deleted = is_some row.deleted_at;
}

abbrev pub entry_at : ConversationId → List ConversationRow → Option Entry
entry_at c rows = Option.map entry_of (find? (is_row c) rows)

abbrev pub view : Database → Directory
view db = record {
  entry = λ c. entry_at c db.conversations;
  takes_part = λ c u. any (is_member_row c u) db.participants;
}

-- Directories that say the same are equal.
pub same_directory :
    (d d' : Directory)
    → ((c : ConversationId) → d.entry c ≡ d'.entry c)
    → ((c : ConversationId) (u : Uuid) → d.takes_part c u ≡ d'.takes_part c u)
    → d ≡ d'
same_directory d d' entries members =
    ap₂ (λ e t. record { entry = e; takes_part = t }) (fun_ext entries)
      (fun_ext λ c. fun_ext (members c))

entry_at-other :
    (c k : ConversationId) (title : Text) (now : Time) (deleted : Option Time)
    (rows : List ConversationRow)
    → (k == c) ≡ false
    → entry_at k (map (updated_row c title now deleted) rows) ≡ entry_at k rows
entry_at-other c k title now deleted [] h = refl
entry_at-other c k title now deleted (r ∷ rows) h = elim (Bool-cases (r.id == c)) [
  | inl e ↦
      let other : (r.id == k) ≡ false =
        ground (arith, h, e, ==_iff r.id c, ==_iff k c, ==_iff r.id k) in
      rw e (rw other (entry_at-other c k title now deleted rows h))
  | inr e ↦ rw e (elim (Bool-cases (r.id == k)) [
    | inl here ↦ rw here refl
    | inr elsewhere ↦ rw elsewhere (entry_at-other c k title now deleted rows h)
  ])
]

pub entry_at-updated :
    (c k : ConversationId) (title : Text) (now : Time) (deleted : Option Time)
    (rows : List ConversationRow) (row : ConversationRow)
    → find? (is_row c) rows ≡ some row
    → entry_at k (map (updated_row c title now deleted) rows) ≡ (
        if k == c
        then some record { owner = row.owner_id; title = title; is_deleted = is_some deleted }
        else entry_at k rows)
entry_at-updated c k title now deleted [] row h = absurd (cc h)
entry_at-updated c k title now deleted (r ∷ rows) row h = elim (Bool-cases (k == c)) [
  | inr other ↦ rw other (entry_at-other c k title now deleted (r ∷ rows) other)
  | inl same ↦ elim (Bool-cases (r.id == c)) [
    | inl e ↦
        let here : (r.id == k) ≡ true =
          ground (arith, same, e, ==_iff r.id c, ==_iff k c, ==_iff r.id k) in
        let is : r ≡ row = ground (arith, h, e) in
        rw same (
          rw e (
            rw here (
              ap some (
                ap
                  (λ (x : ConversationRow). record {
                    owner = x.owner_id;
                    title = title;
                    is_deleted = is_some deleted;
                  })
                  is))))
    | inr e ↦
        let elsewhere : (r.id == k) ≡ false =
          ground (arith, same, e, ==_iff r.id c, ==_iff k c, ==_iff r.id k) in
        rw e (rw elsewhere (entry_at-updated c k title now deleted rows row (ground (arith, h, e))))
  ]
]

pub any-filter_member :
    (c k : ConversationId) (u v : Uuid) (ps : List ParticipantRow)
    → any (is_member_row k v) (filter (λ p. not (is_member_row c u p)) ps)
      ≡ (any (is_member_row k v) ps && not (k == c && v == u))
any-filter_member c k u v [] = refl
any-filter_member c k u v (p ∷ ps) = ground (
  arith,
  ==_iff p.conversation_id k,
  ==_iff p.conversation_id c,
  ==_iff k c,
  ==_iff p.user_id v,
  ==_iff p.user_id u,
  ==_iff v u,
  any-filter_member c k u v ps,
)

no_active :
    (c : ConversationId) (rows : List ConversationRow)
    → any (is_row c) rows ≡ false
    → find? (is_active_row c) rows ≡ none
no_active c [] h = refl
no_active c (r ∷ rows) h = ground (arith, no_active c rows)

-- Where keys are unique, the active conversation is the only one with its key.
pub find-active :
    (c : ConversationId) (rows : List ConversationRow) (row : ConversationRow)
    → IdsUnique rows
    → find? (is_row c) rows ≡ some row
    → find? (is_active_row c) rows ≡ (if is_some row.deleted_at then none else some row)
find-active c [] row unique h = absurd (cc h)
find-active c (r ∷ rows) row (alone, unique) h = elim (Bool-cases (r.id == c)) [
  | inl e ↦
      let is : r ≡ row = ground (arith, h, e) in
      let rest =
        no_active c rows (subst (λ k. any (is_row k) rows ≡ false) ((==_iff r.id c).0 e) alone) in
      subst
        (λ x. find? (is_active_row c) (r ∷ rows) ≡ (if is_some x.deleted_at then none else some x))
        is
        (elim (Bool-cases (is_some r.deleted_at)) [
          | inl gone_ ↦ rw e (rw gone_ rest)
          | inr there ↦ rw e (rw there refl)
        ])
  | inr e ↦ rw e (find-active c rows row unique (ground (arith, h, e)))
]

pub find-none :
    (c : ConversationId) (rows : List ConversationRow)
    → find? (is_row c) rows ≡ none
    → find? (is_active_row c) rows ≡ none
find-none c [] h = refl
find-none c (r ∷ rows) h = ground (arith, find-none c rows)

pub find-id :
    (c : ConversationId) (rows : List ConversationRow) (row : ConversationRow)
    → find? (is_row c) rows ≡ some row
    → row.id ≡ c
find-id c [] row h = absurd (cc h)
find-id c (r ∷ rows) row h = elim (Bool-cases (is_row c r)) [
  | inl e ↦ ground (arith, h, e, ==_iff r.id c)
  | inr e ↦ find-id c rows row (ground (arith, h, e))
]

pub find-any :
    (c : ConversationId) (rows : List ConversationRow) (row : ConversationRow)
    → find? (is_row c) rows ≡ some row
    → any (is_row c) rows ≡ true
find-any c [] row h = absurd (cc h)
find-any c (r ∷ rows) row h = ground (arith, find-any c rows row)

-- A membership that is there already, and one that is new.
pub with_member-known :
    (c : ConversationId) (u : Uuid) (db : Database)
    → any (is_member_row c u) db.participants ≡ true
    → view db ≡ with_member c u (view db)
with_member-known c u db known =
    same_directory _ _ (λ k. refl)
      (λ k v. elim (Bool-cases (k == c && v == u)) [
        | inr other ↦ rw other refl
        | inl same ↦
            let k_c : k ≡ c = ground (arith, same, ==_iff k c) in
            let v_u : v ≡ u = ground (arith, same, ==_iff v u) in rw same (rw k_c (rw v_u known))
      ])

pub with_member-new :
    (c : ConversationId) (u : Uuid) (now : Time) (db : Database)
    → view (record db {
      participants = record { conversation_id = c; user_id = u; joined_at = now } ∷ db.participants;
    })
      ≡ with_member c u (view db)
with_member-new c u now db =
    same_directory _ _ (λ k. refl)
      (λ k v. ground (arith, ==_iff k c, ==_iff c k, ==_iff v u, ==_iff u v))
