-- ===== src/Realtime/MessageCodec.antt =====
-- src/dizzchat/contexts/messaging/infrastructure/outbound/redis/message_codec.py and
-- redis_message_broadcaster.py. The text forms of a UUID and of a time, and JSON itself, are the
-- standard library's and arguments here.
use dizzchat.Prelude.{ℕ, ◌≡◌, refl, ◌++◌, Option, none, some, ok, ◌>>=◌, traverse_option}
use mathlib.Core.Option
use dizzchat.Text.{Text, codes, text_eq}
use dizzchat.Errors.{Attempt}
use dizzchat.Storage.Session.{Action}
use dizzchat.Messaging.Conversation.{Uuid, Time, ConversationId}
use dizzchat.Messaging.Message.{
  Message, MessageRole, user, assistant, role_value, message_role, message_content,
}

-- The JSON object that is published.
pub record Payload : Type 0 where
  pub id : ℕ
  pub conversation_id : Text
  pub sender_id : Option Text
  pub role : Text
  pub content : Text
  pub created_at : Text
  pub client_message_id : Option Text

-- `str(uuid)`, `UUID(text)`, `isoformat`, `fromisoformat`, and JSON's bytes.
pub record Formats (Bytes : Type 0) : Type 0 where
  pub uuid_str : Uuid → Text
  pub uuid_parse : Text → Attempt Uuid
  pub isoformat : Time → Text
  pub fromisoformat : Text → Attempt Time
  pub dumps : Payload → Bytes
  pub loads : Bytes → Attempt Payload

module _ {Bytes : Type 0} (formats : Formats Bytes) where
  pub encode : Message → Bytes
  encode message = formats.dumps record {
    id = message.id;
    conversation_id = formats.uuid_str message.conversation_id;
    sender_id = Option.map formats.uuid_str message.sender_id;
    role = role_value message.role;
    content = message.content;
    created_at = formats.isoformat message.created_at;
    client_message_id = Option.map formats.uuid_str message.client_message_id;
  }

  pub decode : Bytes → Attempt Message
  decode bytes = do
    raw ← formats.loads bytes
    conversation_id ← formats.uuid_parse raw.conversation_id
    sender_id ← traverse_option formats.uuid_parse raw.sender_id
    role ← message_role raw.role
    content ← message_content raw.content
    created_at ← formats.fromisoformat raw.created_at
    client_message_id ← traverse_option formats.uuid_parse raw.client_message_id
    ok (record {
      id = raw.id;
      conversation_id = conversation_id;
      sender_id = sender_id;
      role = role;
      content = content;
      created_at = created_at;
      client_message_id = client_message_id;
    })

  -- The channel's name, `f"conv:{conversation_id.value}"`.
  unfoldable pub conversation_channel : ConversationId → Text
  conversation_channel conversation_id = codes "conv:" ++ formats.uuid_str conversation_id

  -- `RedisMessageBroadcaster.broadcast`, `publish` being Redis's.
  unfoldable pub broadcast :
      {R : Type 0}
      → (Text → Bytes → Action R (Unit {0}))
      → ConversationId
      → Message
      → Action R (Unit {0})
  broadcast publish conversation_id message =
      publish (conversation_channel conversation_id) (encode message)

  -- Each text form is read back.
  pub record IsFaithful : Type 0 where
    pub uuid_parse_str : (id : Uuid) → formats.uuid_parse (formats.uuid_str id) ≡ ok id
    pub fromisoformat_isoformat : (t : Time) → formats.fromisoformat (formats.isoformat t) ≡ ok t
    pub loads_dumps : (payload : Payload) → formats.loads (formats.dumps payload) ≡ ok payload

  parse_option :
      (laws : IsFaithful) (id : Option Uuid)
      → traverse_option formats.uuid_parse (Option.map formats.uuid_str id) ≡ ok id
  parse_option laws none = refl
  parse_option laws (some id) = rw (laws.uuid_parse_str id) refl

  role_back : (role : MessageRole) → message_role (role_value role) ≡ ok role
  unfolding message_role text_eq
  role_back user = refl
  role_back assistant = refl

  -- Where the text forms of UUIDs and times, and JSON, are read back as they were written: a
  -- replica that receives a published message has the message itself, a user's or the assistant's,
  -- with its optional ids or without, if its content is one that `MessageContent` accepts.
  pub decode-encode :
      (m : Message)
      → IsFaithful
      → message_content m.content ≡ ok m.content
      → decode (encode m) ≡ ok m
  unfolding decode encode
  decode-encode m laws valid =
      rw (laws.loads_dumps _, decode)
        (rw (laws.uuid_parse_str m.conversation_id) (
          rw (parse_option laws m.sender_id) (
            rw (role_back m.role) (
              rw valid (
                rw (laws.fromisoformat_isoformat m.created_at)
                  (rw (parse_option laws m.client_message_id) refl))))))
