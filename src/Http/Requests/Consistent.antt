-- ===== src/Http/Requests/Consistent.antt =====
-- What the tables hold after any requests to the application.
use dizzchat.Storage.Users.{sqlalchemy_user_repository}
use dizzchat.Prelude.{
  suc, require, ℕ, ◌≡◌, refl, Option, List, [], ◌∷◌, Result, ok, err, if◌then◌else◌,
}
use dizzchat.Text.{Text}
use dizzchat.Errors.{Attempt, Error, conversation_error, conversation_not_found}
use dizzchat.Messaging.Conversation.{Uuid, Time, Conversation, ConversationId, ensure_participant}
use dizzchat.Messaging.Conversation.Membership.{IsWellFormed}
use dizzchat.Messaging.Services.Kept.{
  Keeps, create-Keeps, rename-Keeps, delete-Keeps, restore-Keeps, remove_participant-Keeps,
  add_participant-Keeps,
}
use dizzchat.Storage.Rows.{Database, empty_database}
use dizzchat.Storage.Session.{Action, ◌>>=◌, pure, lift, query, settle, transaction}
use dizzchat.Storage.Conversations.{
  sqlalchemy_conversation_repository, read_any, read_active, get, list_participants,
  list_for_participant,
}
use dizzchat.Storage.Messages.{sqlalchemy_message_repository, list_history}
use dizzchat.Storage.Conversations.Consistency.{IsConsistent}
use dizzchat.Storage.Conversations.Readable.{AllIn, readable, empty-IsConsistent}
use dizzchat.Identity.Services.{register_user, find_id_by_email, identity_user_directory}
use dizzchat.Messaging.Services.CreateConversation
use dizzchat.Messaging.Services.RenameConversation
use dizzchat.Messaging.Services.RestoreConversation
use dizzchat.Messaging.Services.ListConversations
use dizzchat.Messaging.Services.ListParticipants
use dizzchat.Messaging.Services.GetConversationHistory
use dizzchat.Messaging.Services.AddParticipant
use dizzchat.Http.Environment.{
  Settings, Libraries, Draws, AuthenticatedUser, get_current_user, issue_token, seconds,
}
use dizzchat.Http.Schemas.{
  create_conversation_request, rename_conversation_request, add_participant_request, before_query,
  limit_query, signup_request, login_request, refresh_request,
}
use dizzchat.Http.Controllers
use dizzchat.Http.Routes.{depends_on_session}
use dizzchat.Http.Responses.{Response}
use dizzchat.Http.Transactions.{Server}
use dizzchat.Http.Transactions.Durable.{idle, committed_work, response_to}
use dizzchat.Http.Requests.Gate.{serve-transaction}
use dizzchat.Http.Requests.Keeping.{
  Keeping, Keeping-bind, other_tables, register_user-Keeping, authenticate_user-Keeping,
  refresh-Keeping, directory_reads,
}
use dizzchat.Http.Requests.{
  HttpRequest, Authorized, Answer, get_health, post_signup, post_login, post_refresh,
  with_authorization, get_me, post_conversations, get_conversations, patch_conversation,
  delete_conversation, post_restore, get_messages, post_participants, get_participants,
  delete_participant, route_of, authorized_handler, handler, serve,
}

module _ (settings : Settings) (libraries : Libraries) where
  add_participant-Keeping :
      (c : ConversationId) (o : Uuid) (email : Text) (now : Time)
      → Keeping (
          AddParticipant.execute sqlalchemy_conversation_repository
            (identity_user_directory (sqlalchemy_user_repository libraries.lower) libraries.lower)
            c
            o
            email
            now)
  add_participant-Keeping c o email now db h = rw (directory_reads libraries.lower) (
      add_participant-Keeps db h
        (λ e d.
          (find_id_by_email (sqlalchemy_user_repository libraries.lower) libraries.lower e d).0)
        c o email now)

  list_participants-Keeping :
      (c : ConversationId) (p : Uuid)
      → Keeping (ListParticipants.execute sqlalchemy_conversation_repository c p)
  unfolding ListParticipants.execute get list_participants
  list_participants-Keeping c p =
      Keeping-bind (query (read_active c)) _ (λ db h. h)
        λ found.
          Keeping-bind (lift (require found (conversation_error (conversation_not_found c)))) _
            (λ db h. h)
            λ conversation.
              Keeping-bind (lift (ensure_participant p conversation)) _ (λ db h. h) (λ _ db h. h)

  history-Keeping :
      (c : ConversationId) (p : Uuid) (before : Option ℕ) (limit : ℕ)
      → Keeping (
          GetConversationHistory.execute sqlalchemy_conversation_repository
            sqlalchemy_message_repository c p before limit)
  unfolding GetConversationHistory.execute get list_history
  history-Keeping c p before limit =
      Keeping-bind (query (read_active c)) _ (λ db h. h)
        λ found.
          Keeping-bind (lift (require found (conversation_error (conversation_not_found c)))) _
            (λ db h. h)
            λ conversation.
              Keeping-bind (lift (ensure_participant p conversation)) _ (λ db h. h)
                λ _.
                  Keeping-bind (sqlalchemy_message_repository.list_history c before (suc limit)) _
                    (λ db h. h) (λ _ db h. h)

  -- A call followed by something that only makes a value of its result.
  Keeping-map :
      {A B : Type 0} (m : Action Database A) (f : A → B)
      → Keeping m
      → Keeping (m >>= λ a. pure (f a))
  Keeping-map m f first = Keeping-bind m (λ a. pure (f a)) first (λ _ db h. h)

  authorized-Keeping :
      (draws : Draws) (request : Authorized) (caller : AuthenticatedUser)
      → Keeping (authorized_handler settings libraries draws request caller)
  unfolding authorized_handler Controllers.create_conversation Controllers.rename_conversation
      Controllers.delete_conversation Controllers.restore_conversation Controllers.add_participant
      Controllers.list_conversations Controllers.list_participants Controllers.remove_participant
      Controllers.get_conversation_history ListConversations.execute list_for_participant
  authorized-Keeping draws get_me caller = λ db h. h
  authorized-Keeping draws (post_conversations title) caller =
      Keeping-bind (lift (create_conversation_request title)) _ (λ db h. h)
        λ body.
          Keeping-map (Controllers.create_conversation settings libraries draws body caller) _ (
            Keeping-map
              (CreateConversation.execute sqlalchemy_conversation_repository caller.user_id body
                draws.uuid draws.now)
              _ (λ db h. create-Keeps db h caller.user_id body draws.uuid draws.now))
  authorized-Keeping draws get_conversations caller =
      Keeping-map (Controllers.list_conversations caller) _ (
        Keeping-map (sqlalchemy_conversation_repository.list_for_participant caller.user_id) _
          (λ db h. h))
  authorized-Keeping draws (patch_conversation c title) caller =
      Keeping-bind (lift (rename_conversation_request title)) _ (λ db h. h)
        λ body.
          Keeping-map (Controllers.rename_conversation settings libraries draws c body caller) _ (
            Keeping-map
              (RenameConversation.execute sqlalchemy_conversation_repository c caller.user_id body
                draws.now)
              _ (λ db h. rename-Keeps db h c caller.user_id body draws.now))
  authorized-Keeping draws (delete_conversation c) caller =
      Keeping-map (Controllers.delete_conversation settings libraries draws c caller) _
        (λ db h. delete-Keeps db h c caller.user_id draws.now)
  authorized-Keeping draws (post_restore c) caller =
      Keeping-map (Controllers.restore_conversation settings libraries draws c caller) _ (
        Keeping-map
          (RestoreConversation.execute sqlalchemy_conversation_repository c caller.user_id
            draws.now)
          _ (λ db h. restore-Keeps db h c caller.user_id draws.now))
  authorized-Keeping draws (get_messages c before limit) caller =
      Keeping-bind (lift (before_query before)) _ (λ db h. h)
        λ before'.
          Keeping-bind (lift (limit_query limit)) _ (λ db h. h)
            λ limit'. Keeping-map (Controllers.get_conversation_history c caller before' limit') _ (
              Keeping-map
                (GetConversationHistory.execute sqlalchemy_conversation_repository
                  sqlalchemy_message_repository c caller.user_id before' limit')
                _ (history-Keeping c caller.user_id before' limit'))
  authorized-Keeping draws (post_participants c email) caller =
      Keeping-bind (lift (add_participant_request email)) _ (λ db h. h)
        λ body. Keeping-map (Controllers.add_participant settings libraries draws c body caller) _ (
          Keeping-map
            (AddParticipant.execute sqlalchemy_conversation_repository
              (identity_user_directory (sqlalchemy_user_repository libraries.lower) libraries.lower)
              c caller.user_id body draws.now)
            _ (add_participant-Keeping c caller.user_id body draws.now))
  authorized-Keeping draws (get_participants c) caller =
      Keeping-map (Controllers.list_participants c caller) _ (
        Keeping-map (ListParticipants.execute sqlalchemy_conversation_repository c caller.user_id) _
          (list_participants-Keeping c caller.user_id))
  authorized-Keeping draws (delete_participant c p) caller =
      Keeping-map (Controllers.remove_participant c p caller) _
        (λ db h. remove_participant-Keeps db h c caller.user_id p)

  handler-Keeping :
      (draws : Draws) (request : HttpRequest) → Keeping (handler settings libraries draws request)
  unfolding handler Controllers.signup Controllers.login Controllers.refresh
  handler-Keeping draws get_health = λ db h. h
  handler-Keeping draws (post_signup email password) =
      Keeping-bind (lift (signup_request email password)) _ (λ db h. h)
        λ body. Keeping-map (Controllers.signup settings libraries draws body) _ (
          Keeping-map
            (register_user (sqlalchemy_user_repository libraries.lower) libraries.lower
              libraries.hash_password libraries.verify body.email body.password draws.salt
              draws.uuid draws.now)
            _
            (register_user-Keeping libraries.lower libraries.hash_password libraries.verify
              body.email body.password draws.salt draws.uuid draws.now))
  handler-Keeping draws (post_login email password) =
      Keeping-bind (lift (login_request email password)) _ (λ db h. h)
        λ body. Keeping-map (Controllers.login settings libraries draws body) _ (
          Keeping-map _ _ (
            authenticate_user-Keeping libraries.lower libraries.hash_password libraries.verify
              libraries.sha256 (issue_token settings libraries draws.now)
              (seconds settings.refresh_token_ttl_seconds) body.email body.password draws.now
              draws.jti draws.secret))
  handler-Keeping draws (post_refresh refresh_token) =
      Keeping-bind (lift (refresh_request refresh_token)) _ (λ db h. h)
        λ body. Keeping-map (Controllers.refresh settings libraries draws body) _ (
          Keeping-map _ _ (
            refresh-Keeping libraries.sha256 (issue_token settings libraries draws.now)
              (seconds settings.refresh_token_ttl_seconds) body draws.now draws.jti draws.secret))
  handler-Keeping draws (with_authorization authorization request) =
      Keeping-bind (lift (get_current_user settings libraries authorization draws.now)) _
        (λ db h. h) λ caller. authorized-Keeping draws request caller

  settled_work-Keeping :
      (answer : Attempt (Unit {0})) (draws : Draws) (request : HttpRequest)
      → Keeping (transaction (committed_work answer (handler settings libraries draws request)))
  unfolding transaction settle
  settled_work-Keeping answer draws request db h =
      go (committed_work answer (handler settings libraries draws request) db) (
        Keeping-bind (handler settings libraries draws request) _ (handler-Keeping draws request)
          (λ a. Keeping-bind (lift answer) _ (λ db h. h) (λ _ db h. h)) db h)
    where
      go : {A : Type 0} (r : Result Error A × Database) → Keeps r → Keeps (settle db r)
      go (ok a, db') k = k
      go (err e, db') k = other_tables db _ refl refl h

  -- The server after each of some requests, one after the other, each with what the database answers
  -- to its commit and with what the process draws for it.
  unfoldable pub serve_all :
      List (Attempt (Unit {0}) × Draws × HttpRequest) → Server Answer → Server Answer
  serve_all [] s = s
  serve_all ((commits, draws, request) ∷ traffic) s =
      serve_all traffic (serve settings libraries draws commits request s)

  serve_all-idle :
      (traffic : List (Attempt (Unit {0}) × Draws × HttpRequest)) (db : Database)
      (sent : List (Response Answer × Database))
      → IsConsistent db
      → (db' : Database) × (sent' : List (Response Answer × Database)) × (serve_all traffic
            (idle db sent)
          ≡ idle db' sent')
        × IsConsistent db'
  unfolding serve_all
  serve_all-idle [] db sent h = (db, sent, refl, h)
  serve_all-idle ((commits, draws, request) ∷ traffic) db sent h =
      let (r, status) = route_of request in
      let asked = if depends_on_session r.dependant then commits else ok tt in
      let work = committed_work asked (handler settings libraries draws request) in
      let (result, db') = transaction work db in
      let one = serve-transaction settings libraries draws commits request db sent in
      rw one (
        serve_all-idle traffic db' ((response_to status result, db') ∷ sent)
          (settled_work-Keeping asked draws request db h))

  -- Whatever requests the application served since the database was empty, one after the other, with
  -- whatever the process drew and the database answered to the commits: a read of a conversation,
  -- deleted or not, raises nothing; and what it returns, if anything, has its owner among its
  -- participants and no user twice.
  pub serve_all-readable :
      (traffic : List (Attempt (Unit {0}) × Draws × HttpRequest)) (c : ConversationId)
      → let s = serve_all traffic (idle empty_database []) in
        (found : Option Conversation) × (read_any c s.committed ≡ ok found)
        × AllIn IsWellFormed found
  serve_all-readable traffic c =
      let (db, sent, is, h) = serve_all-idle traffic empty_database [] empty-IsConsistent in
      rw is (readable c db h)
