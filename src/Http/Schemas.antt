-- ===== src/Http/Schemas.antt =====
-- The schemas of the bodies of requests and responses: the `inbound/api/schemas` of both contexts. A
-- field of a request is nothing if it is missing or no text.
use dizzchat.Prelude.{
  ℕ, Bool, ◌&&◌, Option, none, some, List, map, ok, err, ◌>>=◌, leb, length, if◌then◌else◌,
}
use dizzchat.Text.{Text, codes}
use dizzchat.Errors.{Attempt, request_validation_error}
use dizzchat.Messaging.Conversation.{Uuid, Time, Conversation, Participant}
use dizzchat.Messaging.Message.{Message, role_value}
use dizzchat.Messaging.Services.GetConversationHistory.{MessagePage}
use dizzchat.Identity.User.{User}
use dizzchat.Identity.RefreshAccessToken.{TokenPair}

-- `Field(min_length=shortest, max_length=longest)` of a text.
abbrev pub field : ℕ → ℕ → Option Text → Attempt Text
field shortest longest none = err request_validation_error
field shortest longest (some text) =
    if leb shortest (length text) && leb (length text) longest
    then ok text
    else err request_validation_error

-- `Field(min_length=shortest)`
abbrev pub unbounded_field : ℕ → Option Text → Attempt Text
unbounded_field shortest none = err request_validation_error
unbounded_field shortest (some text) =
    if leb shortest (length text) then ok text else err request_validation_error

pub record SignupRequest : Type 0 where
  pub email : Text
  pub password : Text

unfoldable pub signup_request : Option Text → Option Text → Attempt SignupRequest
signup_request email password = do
  email' ← field 1 320 email
  password' ← field 1 1024 password
  ok (record { email = email'; password = password' })

pub record LoginRequest : Type 0 where
  pub email : Text
  pub password : Text

unfoldable pub login_request : Option Text → Option Text → Attempt LoginRequest
login_request email password = do
  email' ← field 1 320 email
  password' ← field 1 1024 password
  ok (record { email = email'; password = password' })

unfoldable pub refresh_request : Option Text → Attempt Text
refresh_request refresh_token = unbounded_field 1 refresh_token

unfoldable pub create_conversation_request : Option Text → Attempt Text
create_conversation_request title = field 1 200 title

unfoldable pub rename_conversation_request : Option Text → Attempt Text
rename_conversation_request title = field 1 200 title

unfoldable pub add_participant_request : Option Text → Attempt Text
add_participant_request email = field 3 320 email

-- `before: Query(ge=1) = None` and `limit: Query(ge=1, le=100) = 50`
unfoldable pub before_query : Option ℕ → Attempt (Option ℕ)
before_query none = ok none
before_query (some before) = if leb 1 before then ok (some before) else err request_validation_error

unfoldable pub limit_query : Option ℕ → Attempt ℕ
limit_query none = ok 50
limit_query (some limit) =
    if leb 1 limit && leb limit 100 then ok limit else err request_validation_error

pub record UserResponse : Type 0 where
  pub id : Uuid
  pub email : Text
  pub created_at : Time

pub record TokenResponse : Type 0 where
  pub access_token : Text
  pub refresh_token : Text
  pub token_type : Text

pub record CurrentUserResponse : Type 0 where
  pub user_id : Uuid

pub record ConversationResponse : Type 0 where
  pub id : Uuid
  pub owner_id : Uuid
  pub title : Text
  pub created_at : Time
  pub updated_at : Time

pub record ParticipantResponse : Type 0 where
  pub user_id : Uuid
  pub joined_at : Time

pub record MessageResponse : Type 0 where
  pub id : ℕ
  pub conversation_id : Uuid
  pub sender_id : Option Uuid
  pub role : Text
  pub content : Text
  pub created_at : Time

pub record MessagePageResponse : Type 0 where
  pub items : List MessageResponse
  pub next_cursor : Option ℕ
  pub has_more : Bool

-- `TokenResponse(access_token=..., refresh_token=...)`, with its default.
abbrev pub token_response : TokenPair → TokenResponse
token_response pair = record {
  access_token = pair.access_token;
  refresh_token = pair.refresh_token;
  token_type = codes "bearer";
}

abbrev pub user_response : User → UserResponse
user_response user = record { id = user.id; email = user.email; created_at = user.created_at }

-- The methods `from_domain`.
abbrev pub conversation_response : Conversation → ConversationResponse
conversation_response conversation = record {
  id = conversation.id;
  owner_id = conversation.owner_id;
  title = conversation.title;
  created_at = conversation.created_at;
  updated_at = conversation.updated_at;
}

abbrev pub participant_response : Participant → ParticipantResponse
participant_response participant = record {
  user_id = participant.id;
  joined_at = participant.joined_at;
}

abbrev pub message_response : Message → MessageResponse
message_response message = record {
  id = message.id;
  conversation_id = message.conversation_id;
  sender_id = message.sender_id;
  role = role_value message.role;
  content = message.content;
  created_at = message.created_at;
}

abbrev pub message_page_response : MessagePage → MessagePageResponse
message_page_response page = record {
  items = map message_response page.items;
  next_cursor = page.next_cursor;
  has_more = page.has_more;
}
