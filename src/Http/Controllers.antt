-- ===== src/Http/Controllers.antt =====
-- The controllers of both contexts, on the use cases that the `provide_*` functions of the
-- `dependencies.py` build for the session of the request.
use dizzchat.Storage.Users.{sqlalchemy_user_repository}
use dizzchat.Storage.RefreshTokens.{sqlalchemy_refresh_token_repository}
use dizzchat.Prelude.{ℕ, Option, List, map}
use dizzchat.Text.{Text}
use dizzchat.Storage.Rows.{Database}
use dizzchat.Storage.Session.{Action, ◌>>=◌, pure}
use dizzchat.Storage.Conversations.{sqlalchemy_conversation_repository}
use dizzchat.Storage.Messages.{sqlalchemy_message_repository}
use dizzchat.Messaging.Conversation.{ConversationId, ParticipantId}
use dizzchat.Messaging.Message.{MessageId}
use dizzchat.Messaging.Services.CreateConversation
use dizzchat.Messaging.Services.RenameConversation
use dizzchat.Messaging.Services.DeleteConversation
use dizzchat.Messaging.Services.RestoreConversation
use dizzchat.Messaging.Services.ListConversations
use dizzchat.Messaging.Services.ListParticipants
use dizzchat.Messaging.Services.GetConversationHistory
use dizzchat.Messaging.Services.AddParticipant
use dizzchat.Messaging.Services.RemoveParticipant
use dizzchat.Identity.Services.{register_user, authenticate_user, identity_user_directory}
use dizzchat.Identity.RefreshAccessToken
use dizzchat.Http.Environment.{Settings, Libraries, Draws, AuthenticatedUser, issue_token, seconds}
use dizzchat.Http.Schemas.{
  SignupRequest, LoginRequest, UserResponse, TokenResponse, CurrentUserResponse,
  ConversationResponse, ParticipantResponse, MessagePageResponse, token_response, user_response,
  conversation_response, participant_response, message_page_response,
}

module _ (settings : Settings) (libraries : Libraries) (draws : Draws) where
  unfoldable pub signup : SignupRequest → Action Database UserResponse
  signup body = do
    user ←
        register_user (sqlalchemy_user_repository libraries.lower) libraries.lower
          libraries.hash_password libraries.verify body.email body.password draws.salt draws.uuid
          draws.now
    pure (user_response user)

  unfoldable pub login : LoginRequest → Action Database TokenResponse
  login body = do
    pair ←
        authenticate_user (sqlalchemy_user_repository libraries.lower) libraries.lower
          libraries.hash_password libraries.verify sqlalchemy_refresh_token_repository
          libraries.sha256 (issue_token settings libraries draws.now)
          (seconds settings.refresh_token_ttl_seconds) body.email body.password draws.now draws.jti
          draws.secret
    pure (token_response pair)

  unfoldable pub refresh : Text → Action Database TokenResponse
  refresh refresh_token = do
    pair ←
        RefreshAccessToken.execute sqlalchemy_refresh_token_repository libraries.sha256
          (issue_token settings libraries draws.now) (seconds settings.refresh_token_ttl_seconds)
          refresh_token draws.now draws.jti draws.secret
    pure (token_response pair)

  unfoldable pub create_conversation :
      Text → AuthenticatedUser → Action Database ConversationResponse
  create_conversation title caller = do
    conversation ←
        CreateConversation.execute sqlalchemy_conversation_repository caller.user_id title
          draws.uuid draws.now
    pure (conversation_response conversation)

  unfoldable pub rename_conversation :
      ConversationId → Text → AuthenticatedUser → Action Database ConversationResponse
  rename_conversation conversation_id title caller = do
    conversation ←
        RenameConversation.execute sqlalchemy_conversation_repository conversation_id caller.user_id
          title draws.now
    pure (conversation_response conversation)

  unfoldable pub delete_conversation :
      ConversationId → AuthenticatedUser → Action Database (Unit {0})
  delete_conversation conversation_id caller =
      DeleteConversation.execute sqlalchemy_conversation_repository conversation_id caller.user_id
        draws.now

  unfoldable pub restore_conversation :
      ConversationId → AuthenticatedUser → Action Database ConversationResponse
  restore_conversation conversation_id caller = do
    conversation ←
        RestoreConversation.execute sqlalchemy_conversation_repository conversation_id
          caller.user_id draws.now
    pure (conversation_response conversation)

  unfoldable pub add_participant :
      ConversationId → Text → AuthenticatedUser → Action Database (Unit {0})
  add_participant conversation_id email caller = do
    _ ←
        AddParticipant.execute sqlalchemy_conversation_repository
          (identity_user_directory (sqlalchemy_user_repository libraries.lower) libraries.lower)
          conversation_id caller.user_id email draws.now
    pure tt

-- `current_user`
abbrev pub current_user : AuthenticatedUser → CurrentUserResponse
current_user caller = record { user_id = caller.user_id }

unfoldable pub list_conversations : AuthenticatedUser → Action Database (List ConversationResponse)
list_conversations caller = do
  conversations ← ListConversations.execute sqlalchemy_conversation_repository caller.user_id
  pure (map conversation_response conversations)

unfoldable pub list_participants :
    ConversationId → AuthenticatedUser → Action Database (List ParticipantResponse)
list_participants conversation_id caller = do
  participants ←
      ListParticipants.execute sqlalchemy_conversation_repository conversation_id caller.user_id
  pure (map participant_response participants)

unfoldable pub remove_participant :
    ConversationId → ParticipantId → AuthenticatedUser → Action Database (Unit {0})
remove_participant conversation_id user_id caller =
    RemoveParticipant.execute sqlalchemy_conversation_repository conversation_id caller.user_id
      user_id

unfoldable pub get_conversation_history :
    ConversationId → AuthenticatedUser → Option MessageId → ℕ → Action Database MessagePageResponse
get_conversation_history conversation_id caller before limit = do
  page ←
      GetConversationHistory.execute sqlalchemy_conversation_repository
        sqlalchemy_message_repository conversation_id caller.user_id before limit
  pure (message_page_response page)
