-- ===== src/Http/Responses.antt =====
-- Responses, and the error handlers of the `inbound/api/errors.py` of both contexts. `detail` is the
-- error whose text is sent.
use dizzchat.Prelude.{ℕ, Bool, false, ◌==◌}
use dizzchat.Errors.{
  MessagingError, in_conversation, in_message, conversation_not_found, participant_user_not_found,
  not_conversation_owner, not_conversation_participant, cannot_remove_conversation_owner,
  invalid_conversation_title, invalid_message_content, IdentityError, in_user, in_refresh_token,
  in_access_token, email_already_registered, invalid_email, invalid_credentials,
  invalid_refresh_token, invalid_access_token, Error, messaging, identity, http_exception,
  request_validation_error,
}

pub data Content (A : Type 0) : Type 0 where
  value : A → Content A
  detail : Error → Content A

-- `www_authenticate` is whether the header `WWW-Authenticate: Bearer` is there.
pub record Response (A : Type 0) : Type 0 where
  pub status_code : ℕ
  pub content : Content A
  pub www_authenticate : Bool

-- `_STATUS_BY_ERROR` of the identity context
abbrev pub identity_status : IdentityError → ℕ
identity_status (in_user (email_already_registered email)) = 409
identity_status (in_user (invalid_email email)) = 422
identity_status (in_user invalid_credentials) = 401
identity_status (in_refresh_token invalid_refresh_token) = 401
identity_status (in_access_token invalid_access_token) = 401

-- `_STATUS_BY_ERROR` of the messaging context
abbrev pub messaging_status : MessagingError → ℕ
messaging_status (in_conversation (conversation_not_found c)) = 404
messaging_status (in_conversation (participant_user_not_found email)) = 404
messaging_status (in_conversation not_conversation_owner) = 403
messaging_status (in_conversation not_conversation_participant) = 403
messaging_status (in_conversation cannot_remove_conversation_owner) = 409
messaging_status (in_conversation (invalid_conversation_title title)) = 422
messaging_status (in_message invalid_message_content) = 422

-- The status for an error: of the two handlers, then what the framework does on its own exceptions
-- and on one without a handler.
abbrev pub error_status : Error → ℕ
error_status (messaging e) = messaging_status e
error_status (identity e) = identity_status e
error_status (http_exception status) = status
error_status request_validation_error = 422
error_status _ = 500

-- The exceptions of `get_current_user` carry the header too.
abbrev pub authenticate_header : Error → Bool
authenticate_header (identity e) = identity_status e == 401
authenticate_header (http_exception status) = status == 401
authenticate_header _ = false

-- The response to an exception.
unfoldable pub error_response : {A : Type 0} → Error → Response A
error_response e = record {
  status_code = error_status e;
  content = detail e;
  www_authenticate = authenticate_header e;
}
