-- ===== src/Errors.antt =====
-- The exceptions that the program raises: src/dizzchat/contexts/messaging/domain/*/errors.py and
-- src/dizzchat/contexts/identity/domain/*/errors.py, each with the value that its message shows.
use dizzchat.Prelude.{ℕ, Result}
use dizzchat.Text.{Text}

pub data ConversationError : Type 0 where
  invalid_conversation_title : Text → ConversationError
  conversation_not_found : ℕ → ConversationError
  not_conversation_owner : ConversationError
  not_conversation_participant : ConversationError
  participant_user_not_found : Text → ConversationError
  cannot_remove_conversation_owner : ConversationError

pub data MessageError : Type 0 where
  invalid_message_content : MessageError

-- `MessagingError`, the base class of both families.
pub data MessagingError : Type 0 where
  in_conversation : ConversationError → MessagingError
  in_message : MessageError → MessagingError

pub data UserError : Type 0 where
  invalid_email : Text → UserError
  email_already_registered : Text → UserError
  invalid_credentials : UserError

pub data RefreshTokenError : Type 0 where
  invalid_refresh_token : RefreshTokenError

pub data AccessTokenError : Type 0 where
  invalid_access_token : AccessTokenError

-- `IdentityError`, the base class of the three families.
pub data IdentityError : Type 0 where
  in_user : UserError → IdentityError
  in_refresh_token : RefreshTokenError → IdentityError
  in_access_token : AccessTokenError → IdentityError

-- Every exception. `value_error` is Python's, `integrity_error` the database's
-- refusal of a row, `redis_error` a failure of the connection to Redis,
-- `zero_division_error` and `key_error` Python's, and the others the web framework's: `WebSocketDisconnect`,
-- `HTTPException` with its status, and `RequestValidationError`.
pub data Error : Type 0 where
  messaging : MessagingError → Error
  identity : IdentityError → Error
  value_error : Error
  integrity_error : Error
  redis_error : Error
  zero_division_error : Error
  key_error : Error
  disconnected : Error
  http_exception : ℕ → Error
  request_validation_error : Error

abbrev pub Attempt {ℓ} : Type ℓ → Type ℓ
Attempt A = Result Error A

-- `raise` of an error of one family.
abbrev pub conversation_error : ConversationError → Error
conversation_error e = messaging (in_conversation e)

abbrev pub message_error : MessageError → Error
message_error e = messaging (in_message e)

abbrev pub user_error : UserError → Error
user_error e = identity (in_user e)

abbrev pub refresh_token_error : Error
refresh_token_error = identity (in_refresh_token invalid_refresh_token)

abbrev pub access_token_error : Error
access_token_error = identity (in_access_token invalid_access_token)
