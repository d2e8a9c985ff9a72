-- ===== src/Auth/Liveness.antt =====
-- The sessions of services/auth.py: who a request is taken for, and what revoking a session does.
use monitoring_maxval.Base.{
  ℕ, ◌+◌, ◌*◌, ◌<◌, true, false, not, Option, none, some, List, [], ◌∷◌, leb, keep, ◌≡◌, refl,
  subst, arith, Option-cases, Bool-cases, inl, inr, ◌⊎◌,
}
use monitoring_maxval.Base.Rows.{In, find, find-key, find-In}
use monitoring_maxval.UnstableLink.{minute_us}
use monitoring_maxval.Base.Text.{Text, same_text, same_text-≡}
use monitoring_maxval.Auth.Database.{User, UserSession, AuthStore, Settings}
use monitoring_maxval.Auth.Sessions.{
  AuthContext, find_session, is_over, touch, resolve_context, resolve_server_session,
  revoke_session, hour_us,
}

-- The context is one of a stored session with the hash of the token: that session has neither expired
-- at this instant nor been idle for too long since it was last seen, its user is stored and may sign
-- in, and the context has the session as it was stored, or as last seen at this instant.
pub record IsLive (token_hash : Text → Text) (settings : Settings) (now : ℕ) (raw_token : Text)
    (db : AuthStore) (context : AuthContext) : Type 0 where
  pub stored : UserSession
  pub is_stored : In stored db.sessions
  pub token : stored.token_hash ≡ token_hash raw_token
  pub current : now < stored.expires_at
  pub awake : now < stored.last_seen_at + settings.session_idle_hours * hour_us
  pub is_user : In context.user db.users
  pub owner : context.user.id ≡ stored.user_id
  pub active : context.user.active ≡ true
  pub session :
      (context.user_session ≡ stored)
      ⊎ (context.user_session ≡ record stored { last_seen_at = now })

-- What the join of the two tables gives for a hash.
Joins : Text → AuthStore → List UserSession → Option AuthContext → Type 0
Joins hash db rows none = Unit
Joins hash db rows (some c) =
    In c.user_session rows
    × (c.user_session.token_hash ≡ hash)
    × In c.user db.users
    × (c.user.id ≡ c.user_session.user_id)

further :
    (hash : Text) (db : AuthStore) (s : UserSession) (rows : List UserSession)
    (o : Option AuthContext)
    → Joins hash db rows o
    → Joins hash db (s ∷ rows) o
unfolding Joins
further hash db s rows none j = tt
further hash db s rows (some c) (i, t, u, o) = (inr i, t, u, o)

find_session-Joins :
    (hash : Text) (db : AuthStore) (rows : List UserSession)
    → Joins hash db rows (find_session hash db rows)
unfolding find_session Joins
find_session-Joins hash db [] = tt
find_session-Joins hash db (s ∷ rest) =
    let later =
      further hash db s rest (find_session hash db rest) (find_session-Joins hash db rest) in
    elim (Bool-cases (same_text s.token_hash hash)) [
      | inr q ↦ rw q later
      | inl q ↦ elim (Option-cases (find User.id s.user_id db.users)) [
        | inl n ↦ rw q (rw n later)
        | inr (u, f) ↦ rw q (
            rw f (
              inl refl,
              same_text-≡ s.token_hash hash q,
              find-In User.id s.user_id db.users f,
              find-key User.id s.user_id db.users f,
            ))
      ]
    ]

LiveOrNone : (Text → Text) → Settings → ℕ → Text → AuthStore → Option AuthContext → Type 0
LiveOrNone token_hash settings now raw db none = Unit
LiveOrNone token_hash settings now raw db (some c) = IsLive token_hash settings now raw db c

touch-LiveOrNone :
    (token_hash : Text → Text) (settings : Settings) (now : ℕ) (raw : Text) (db : AuthStore)
    (c : AuthContext)
    → Joins (token_hash raw) db db.sessions (some c)
    → is_over settings now c ≡ false
    → LiveOrNone token_hash settings now raw db ((touch now c db).0)
unfolding touch is_over LiveOrNone Joins
touch-LiveOrNone token_hash settings now raw db c (i, t, u, o) h =
    elim (Bool-cases (leb (c.user_session.last_seen_at + 5 * minute_us) now)) [
      | inl q ↦ rw q (record {
        stored = c.user_session;
        is_stored = i;
        token = t;
        current = ground arith;
        awake = ground arith;
        is_user = u;
        owner = o;
        active = ground arith;
        session = inr refl;
      })
      | inr q ↦ rw q (record {
        stored = c.user_session;
        is_stored = i;
        token = t;
        current = ground arith;
        awake = ground arith;
        is_user = u;
        owner = o;
        active = ground arith;
        session = inl refl;
      })
    ]

resolve_context-LiveOrNone :
    (token_hash : Text → Text) (settings : Settings) (now : ℕ) (raw : Text) (db : AuthStore)
    (o : Option AuthContext)
    → Joins (token_hash raw) db db.sessions o
    → LiveOrNone token_hash settings now raw db ((resolve_context settings now o db).0)
unfolding LiveOrNone
resolve_context-LiveOrNone token_hash settings now raw db none j = tt
resolve_context-LiveOrNone token_hash settings now raw db (some c) j =
    elim (Bool-cases (is_over settings now c)) [
      | inl q ↦ rw q tt
      | inr q ↦ rw q (touch-LiveOrNone token_hash settings now raw db c j q)
    ]

resolve-LiveOrNone :
    (token_hash : Text → Text) (settings : Settings) (now : ℕ) (raw : Text) (db : AuthStore)
    → LiveOrNone token_hash settings now raw db
        ((resolve_server_session token_hash settings now (some raw) db).0)
unfolding resolve_server_session LiveOrNone
resolve-LiveOrNone token_hash settings now [] db = tt
resolve-LiveOrNone token_hash settings now (c ∷ s) db =
    resolve_context-LiveOrNone token_hash settings now (c ∷ s) db _
      (find_session-Joins (token_hash (c ∷ s)) db db.sessions)

-- A context that `resolve_server_session` returns for a token comes from a stored session with the hash
-- of that token and from the stored user of that session, who is active. At this instant the session
-- had not expired, and less than `session_idle_hours` had passed since it was last seen as the table
-- had it before. The context has that session, its last sight unchanged or set to this instant.
pub resolve_server_session-IsLive :
    (token_hash : Text → Text) (settings : Settings) (now : ℕ) (raw_token : Text) (db : AuthStore)
    {context : AuthContext}
    → (resolve_server_session token_hash settings now (some raw_token) db).0 ≡ some context
    → IsLive token_hash settings now raw_token db context
unfolding LiveOrNone
resolve_server_session-IsLive token_hash settings now raw_token db e =
    subst (LiveOrNone token_hash settings now raw_token db) e
      (resolve-LiveOrNone token_hash settings now raw_token db)

no_session :
    (hash : Text) (db : AuthStore) (rows : List UserSession)
    → find_session hash db (keep (λ r. not (same_text (UserSession.token_hash r) hash)) rows) ≡ none
unfolding find_session
no_session hash db [] = refl
no_session hash db (s ∷ rest) = ground (arith, no_session hash db rest)

-- After `revoke_session` no context is returned for the token, whatever the instant, the settings and
-- the sessions stored.
pub revoke_session-resolve_server_session :
    (token_hash : Text → Text) (settings : Settings) (now : ℕ) (raw_token : Text) (db : AuthStore)
    → (resolve_server_session token_hash settings now
        (some raw_token)
        (revoke_session token_hash (some raw_token) db)).0
      ≡ none
unfolding resolve_server_session revoke_session
revoke_session-resolve_server_session token_hash settings now [] db = refl
revoke_session-resolve_server_session token_hash settings now (c ∷ s) db =
    rw (no_session (token_hash (c ∷ s)) _ db.sessions) refl
