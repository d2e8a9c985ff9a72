-- ===== src/Auth/Sessions.antt =====
-- `create_server_session`, `resolve_server_session`, `revoke_session` and `revoke_user_sessions`. An
-- instant counts microseconds since the year 1.
use monitoring_maxval.Base.{
  ℕ, ◌+◌, ◌*◌, Bool, ◌||◌, not, Option, none, some, List, [], ◌∷◌, ◌==◌, leb, keep, take,
  if◌then◌else◌,
}
use monitoring_maxval.Base.Rows.{find, insert, update}
use monitoring_maxval.UnstableLink.{minute_us}
use monitoring_maxval.Base.Text.{Text, same_text}
use monitoring_maxval.Auth.Database.{User, UserSession, AuthStore, Settings}

abbrev pub hour_us : ℕ
hour_us = 3600000000

pub record AuthContext : Type 0 where
  pub user : User
  pub user_session : UserSession

unfoldable pub create_server_session :
    (Text → Text)
    → Settings
    → ℕ
    → Text
    → Text
    → User
    → Text
    → Text
    → AuthStore
    → UserSession × AuthStore
create_server_session token_hash settings now raw_token csrf_token user ip_address user_agent db =
    let stored : UserSession = record {
      id = db.next_session;
      user_id = user.id;
      token_hash = token_hash raw_token;
      csrf_token = csrf_token;
      ip_address = ip_address;
      user_agent = take 300 user_agent;
      created_at = now;
      last_seen_at = now;
      expires_at = now + settings.session_max_hours * hour_us;
    } in
    (stored, record db { sessions = insert stored db.sessions; next_session = db.next_session + 1 })

-- The row of `UserSession` with this hash, joined with its user.
unfoldable pub find_session : Text → AuthStore → List UserSession → Option AuthContext
find_session hash db [] = none
find_session hash db (s ∷ rest) =
    let later = find_session hash db rest in
    if same_text s.token_hash hash
    then elim (find User.id s.user_id db.users) [
      | none ↦ later
      | some user ↦ some (record { user = user; user_session = s })
    ]
    else later

-- The session has expired, has been left idle, or its user may not sign in any more.
unfoldable pub is_over : Settings → ℕ → AuthContext → Bool
is_over settings now context =
    leb context.user_session.expires_at now
    || leb (context.user_session.last_seen_at + settings.session_idle_hours * hour_us) now
    || not context.user.active

unfoldable pub delete_session : ℕ → AuthStore → AuthStore
delete_session id db = record db { sessions = keep (λ s. not (UserSession.id s == id)) db.sessions }

-- The time of the last request is written at most once in five minutes.
unfoldable pub touch : ℕ → AuthContext → AuthStore → Option AuthContext × AuthStore
touch now context db =
    if leb (context.user_session.last_seen_at + 5 * minute_us) now
    then (
      some (record context { user_session = record (context.user_session) { last_seen_at = now } }),
      record db {
        sessions =
            update UserSession.id context.user_session.id (λ s. record s { last_seen_at = now })
              db.sessions;
      },
    )
    else (some context, db)

abbrev pub resolve_context :
    Settings → ℕ → Option AuthContext → AuthStore → Option AuthContext × AuthStore
resolve_context settings now none db = (none, db)
resolve_context settings now (some context) db =
    if is_over settings now context
    then (none, delete_session context.user_session.id db)
    else touch now context db

unfoldable pub resolve_server_session :
    (Text → Text) → Settings → ℕ → Option Text → AuthStore → Option AuthContext × AuthStore
unfolding find_session is_over delete_session touch
resolve_server_session token_hash settings now none db = (none, db)
resolve_server_session token_hash settings now (some []) db = (none, db)
resolve_server_session token_hash settings now (some (c ∷ s)) db =
    resolve_context settings now (find_session (token_hash (c ∷ s)) db db.sessions) db

unfoldable pub revoke_session : (Text → Text) → Option Text → AuthStore → AuthStore
revoke_session token_hash none db = db
revoke_session token_hash (some []) db = db
revoke_session token_hash (some (c ∷ s)) db = record db {
  sessions =
      keep (λ r. not (same_text (UserSession.token_hash r) (token_hash (c ∷ s)))) db.sessions;
}

unfoldable pub revoke_user_sessions : ℕ → AuthStore → AuthStore
revoke_user_sessions user_id db = record db {
  sessions = keep (λ s. not (UserSession.user_id s == user_id)) db.sessions;
}
