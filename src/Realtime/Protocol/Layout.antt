-- ===== src/Realtime/Protocol/Layout.antt =====
-- What a client can tell from the JSON of a frame.
use dizzchat.Prelude.{◌≡◌, refl, ap, Option, none, some, [], false, arith}
use dizzchat.Text.{Text, text_eq, text_eq_iff}
use dizzchat.Messaging.Conversation.{Uuid, Time}
use dizzchat.Messaging.Message.{Message, MessageRole, user, assistant, role_value}
use dizzchat.Realtime.MessageCodec.{Formats, IsFaithful}
use dizzchat.Realtime.Websocket.{Frame, auth_ok, message_new, message_ack, error}
use dizzchat.Realtime.Protocol.{
  Json, string, object, field, optional_uuid, message_payload, to_json,
}

-- What a frame says: all of a new message, and of an acknowledged one its ids and its time.
abbrev pub SaysTheSame : Frame → Frame → Type 0
SaysTheSame auth_ok auth_ok = Unit
SaysTheSame (message_new m) (message_new n) = m ≡ n
SaysTheSame (message_ack m) (message_ack n) =
    (m.id ≡ n.id) × (m.client_message_id ≡ n.client_message_id) × (m.created_at ≡ n.created_at)
SaysTheSame (error s) (error t) = s ≡ t
SaysTheSame _ _ = ⊥

-- `frame["type"]`, which comes first.
abbrev type_of : Json → Text
type_of (object (field _ (string name) _)) = name
type_of _ = []

role_value-injective : (r q : MessageRole) → role_value r ≡ role_value q → r ≡ q
role_value-injective user user e = refl
role_value-injective user assistant e = cc
role_value-injective assistant user e = cc
role_value-injective assistant assistant e = refl

module _ {Bytes : Type 0} (formats : Formats Bytes) (laws : IsFaithful formats) where
  uuid_str-injective : (a b : Uuid) → formats.uuid_str a ≡ formats.uuid_str b → a ≡ b
  uuid_str-injective a b e =
      cc (laws.uuid_parse_str a, laws.uuid_parse_str b, ap formats.uuid_parse e)

  isoformat-injective : (s t : Time) → formats.isoformat s ≡ formats.isoformat t → s ≡ t
  isoformat-injective s t e =
      cc
        (laws.fromisoformat_isoformat s, laws.fromisoformat_isoformat t, ap formats.fromisoformat e)

  optional_uuid-injective :
      (a b : Option Uuid) → optional_uuid formats a ≡ optional_uuid formats b → a ≡ b
  optional_uuid-injective none none e = refl
  optional_uuid-injective none (some b) e = cc
  optional_uuid-injective (some a) none e = cc
  optional_uuid-injective (some a) (some b) e = ap some (uuid_str-injective a b (cc))

  message_payload-injective :
      (m n : Message) → message_payload formats m ≡ message_payload formats n → m ≡ n
  unfolding message_payload
  message_payload-injective m n e =
      let conversation = uuid_str-injective m.conversation_id n.conversation_id (cc) in
      let sender = optional_uuid-injective m.sender_id n.sender_id (cc) in
      let role = role_value-injective m.role n.role (cc) in
      let time = isoformat-injective m.created_at n.created_at (cc) in
      let key = optional_uuid-injective m.client_message_id n.client_message_id (cc) in ground arith

  unlike :
      (f g : Frame)
      → text_eq (type_of (to_json formats f)) (type_of (to_json formats g)) ≡ false
      → ¬ (to_json formats f ≡ to_json formats g)
  unlike f g apart e = cc (apart, (text_eq_iff _ _).1 (ap type_of e))

  -- Where the text forms of UUIDs and times can be read back: two frames with the same JSON are of
  -- one kind and say the same, so that from a new message's frame a client knows the whole message,
  -- and from an acknowledgement the message's id, its client id and its time.
  pub to_json-SaysTheSame : (f g : Frame) → to_json formats f ≡ to_json formats g → SaysTheSame f g
  unfolding to_json text_eq
  to_json-SaysTheSame auth_ok auth_ok e = tt
  to_json-SaysTheSame (message_new m) (message_new n) e = message_payload-injective m n (cc)
  to_json-SaysTheSame (message_ack m) (message_ack n) e = (
    cc,
    optional_uuid-injective m.client_message_id n.client_message_id (cc),
    isoformat-injective m.created_at n.created_at (cc),
  )
  to_json-SaysTheSame (error s) (error t) e = cc
  to_json-SaysTheSame f g e = absurd (unlike f g refl e)
