-- ===== src/Storage/Messages/Log.antt =====
-- The table of messages as a log: what it holds, and that the repository's reads show it.
use mathlib.Core.List.{reverse}
use dizzchat.Prelude.{
  ℕ, ◌≡◌, ◌<◌, refl, ap, sym, ◌∙◌, Bool, false, Option, none, some, List, [], ◌∷◌, map, ◌==◌, ltb,
  filter, take, beyond, sort_asc, sort_desc, sort_asc-map, sort_desc-map, sort_asc-Descending,
  sort_desc-Descending, All, All-filter, All-take, All-reverse, filter-map, filter-reverse,
  take-map, Ordered, Ordered-filter, ok, ◌>>=◌, traverse,
}
use dizzchat.Messaging.Conversation.{ConversationId}
use dizzchat.Messaging.Message.{
  Message, MessageId, MessageRole, user, assistant, role_value, message_role, message_content,
}
use dizzchat.Messaging.Ports.{IsLog, NewestFirst, before_cursor, after_cursor, older, newer}
use dizzchat.Storage.Rows.{MessageRow, Database}
use dizzchat.Storage.Messages.{
  to_domain, key_taken, of_conversation, list_history, list_since, sqlalchemy_message_repository,
}

-- The row of a message.
abbrev pub to_row : Message → MessageRow
to_row m = record {
  id = m.id;
  conversation_id = m.conversation_id;
  sender_id = m.sender_id;
  role = role_value m.role;
  content = m.content;
  created_at = m.created_at;
  client_message_id = m.client_message_id;
}

-- A message's content was accepted, so it is when it is read back.
abbrev pub IsStorable : Message → Type 0
IsStorable m = message_content m.content ≡ ok m.content

-- No client id stands under a conversation twice.
abbrev pub KeysUnique : List Message → Type 0
KeysUnique [] = Unit
KeysUnique (m ∷ ms) =
    (key_taken m.conversation_id m.client_message_id (map to_row ms) ≡ false) × KeysUnique ms

-- The table holds the messages `ms`, the newest first, below the next number of the sequence.
pub record Holds (db : Database) (ms : List Message) : Type 0 where
  pub rows : db.messages ≡ map to_row ms
  pub storable : All IsStorable ms
  pub in_order : NewestFirst ms
  pub numbered : All (λ m. m.id < db.next_message_id) ms
  pub keys_unique : KeysUnique ms

-- The messages of one conversation.
abbrev pub channel : List Message → ConversationId → List Message
channel ms c = filter (λ m. m.conversation_id == c) ms

message_role-role_value : (role : MessageRole) → message_role (role_value role) ≡ ok role
unfolding message_role
message_role-role_value user = refl
message_role-role_value assistant = refl

pub to_domain-to_row : (m : Message) → IsStorable m → to_domain (to_row m) ≡ ok m
unfolding to_domain
to_domain-to_row m h = rw (message_role-role_value m.role, ◌>>=◌) (rw (h, ◌>>=◌))

pub traverse-to_row :
    (ms : List Message) → All IsStorable ms → traverse to_domain (map to_row ms) ≡ ok ms
traverse-to_row [] h = refl
traverse-to_row (m ∷ ms) h = rw (to_domain-to_row m h.0, ◌>>=◌) (rw (traverse-to_row ms h.1, ◌>>=◌))

All-beyond {ℓ} :
    {A : Type ℓ} (P : A → Type 0) (behind : ℕ → A → Bool) (cursor : Option ℕ) (xs : List A)
    → All P xs
    → All P (beyond behind cursor xs)
All-beyond P behind none xs h = h
All-beyond P behind (some a) xs h = All-filter P (behind a) xs h

Ordered-beyond {ℓ} :
    {A : Type ℓ} (precedes : A → A → Bool) (behind : ℕ → A → Bool) (cursor : Option ℕ) (xs : List A)
    → Ordered precedes xs
    → Ordered precedes (beyond behind cursor xs)
Ordered-beyond precedes behind none xs h = h
Ordered-beyond precedes behind (some a) xs h = Ordered-filter precedes (behind a) xs h

beyond-to_row :
    (behind : ℕ → MessageRow → Bool) (cursor : Option ℕ) (ms : List Message)
    → beyond behind cursor (map to_row ms)
      ≡ map to_row (beyond (λ a m. behind a (to_row m)) cursor ms)
beyond-to_row behind none ms = refl
beyond-to_row behind (some a) ms = filter-map (behind a) to_row ms

beyond-reverse :
    (behind : ℕ → Message → Bool) (cursor : Option ℕ) (ms : List Message)
    → reverse (beyond behind cursor ms) ≡ beyond behind cursor (reverse ms)
beyond-reverse behind none ms = refl
beyond-reverse behind (some a) ms = sym (filter-reverse (behind a) ms)

module _ (ms : List Message) (storable : All IsStorable ms) (in_order : NewestFirst ms)
    (c : ConversationId) (n : ℕ) where
  since_page :
      (after : Option MessageId)
      → traverse to_domain (
          take n (
            sort_asc
              (λ (row : MessageRow). row.id)
              (beyond
                (λ a (row : MessageRow). ltb a row.id)
                after
                (of_conversation c (map to_row ms)))))
        ≡ ok (take n (newer after (reverse (channel ms c))))
  since_page after =
      rw
        (
          filter-map (λ (row : MessageRow). row.conversation_id == c) to_row ms,
          beyond-to_row (λ a row. ltb a row.id) after (channel ms c),
          sort_asc-map to_row (λ (row : MessageRow). row.id) (newer after (channel ms c)),
          sort_asc-Descending (λ (m : Message). m.id) (newer after (channel ms c))
              (Ordered-beyond _ after_cursor after (channel ms c) (Ordered-filter _ _ ms in_order)),
          beyond-reverse after_cursor after (channel ms c),
          take-map n to_row (newer after (reverse (channel ms c))),
        )
        (traverse-to_row (take n (newer after (reverse (channel ms c)))) (
          All-take IsStorable n (newer after (reverse (channel ms c))) (
            All-beyond IsStorable after_cursor after (reverse (channel ms c))
              (All-reverse IsStorable (channel ms c) (All-filter IsStorable _ ms storable)))))

  history_page :
      (before : Option MessageId)
      → traverse to_domain (
          take n (
            sort_desc
              (λ (row : MessageRow). row.id)
              (beyond
                (λ b (row : MessageRow). ltb row.id b)
                before
                (of_conversation c (map to_row ms)))))
        ≡ ok (take n (older before (channel ms c)))
  history_page before =
      rw
        (
          filter-map (λ (row : MessageRow). row.conversation_id == c) to_row ms,
          beyond-to_row (λ b row. ltb row.id b) before (channel ms c),
          sort_desc-map to_row (λ (row : MessageRow). row.id) (older before (channel ms c)),
          sort_desc-Descending (λ (m : Message). m.id) (older before (channel ms c))
              (Ordered-beyond _ before_cursor before (channel ms c)
                (Ordered-filter _ _ ms in_order)),
          take-map n to_row (older before (channel ms c)),
        )
        (traverse-to_row (take n (older before (channel ms c))) (
          All-take IsStorable n (older before (channel ms c)) (
            All-beyond IsStorable before_cursor before (channel ms c)
              (All-filter IsStorable _ ms storable))))

module _ (db : Database) (ms : List Message) (h : Holds db ms) where
  list_since-channel :
      (c : ConversationId) (after : Option MessageId) (n : ℕ)
      → list_since c after n db ≡ (ok (take n (newer after (reverse (channel ms c)))), db)
  unfolding list_since
  list_since-channel c after n =
      ap (λ r. (r, db))
        (ap
            (λ rows. traverse to_domain (
              take n (
                sort_asc (λ (row : MessageRow). row.id)
                  (beyond (λ a (row : MessageRow). ltb a row.id) after (of_conversation c rows)))))
            h.rows
          ∙ since_page ms h.storable h.in_order c n after)

  list_history-channel :
      (c : ConversationId) (before : Option MessageId) (n : ℕ)
      → list_history c before n db ≡ (ok (take n (older before (channel ms c))), db)
  unfolding list_history
  list_history-channel c before n =
      ap (λ r. (r, db))
        (ap
            (λ rows. traverse to_domain (
              take n (
                sort_desc (λ (row : MessageRow). row.id)
                  (beyond (λ b (row : MessageRow). ltb row.id b) before (of_conversation c rows)))))
            h.rows
          ∙ history_page ms h.storable h.in_order c n before)

  -- A table that holds messages is a log of each conversation's messages: both reads return them in
  -- order, up to the limit, from the cursor on, and change nothing.
  pub Holds-IsLog : IsLog sqlalchemy_message_repository db (channel ms)
  Holds-IsLog = record {
    newest_comes_first = λ c. Ordered-filter _ _ ms h.in_order;
    list_history_lem = list_history-channel;
    list_since_lem = list_since-channel;
  }
