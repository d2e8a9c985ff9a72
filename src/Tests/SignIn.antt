-- ===== src/Tests/SignIn.antt =====
-- Failed logins, blocks and sessions. The parameters are instantiated by simple functions.
use monitoring_maxval.Base.Text.{lower_codes, strip, Text}
use monitoring_maxval.Base.{
  ℕ, ◌+◌, ◌*◌, ◌≤◌, true, not, none, some, [], ◌∷◌, ◌≡◌, refl, arith, leb, is_some, take, length,
}
use monitoring_maxval.Base.Rows.{count, find}
use monitoring_maxval.UnstableLink.{minute_us}
use monitoring_maxval.Auth.Database.{
  User, UserRole, UserSession, FailedLoginAttempt, AuthStore, Settings,
}
use monitoring_maxval.Auth.Users.{normalize_username}
use monitoring_maxval.Auth.Sessions.{AuthContext, resolve_server_session, revoke_session}
use monitoring_maxval.Auth.Logins.{get_active_block, record_failed_login, complete_login, counts}
use monitoring_maxval.Auth.Counting.{Counted, nobody, counted, passed, IsRecentFailure}
use monitoring_maxval.Auth.Throttle.{
  record_failed_login-blocks, record_failed_login-is_some, complete_login-get_active_block,
}
use monitoring_maxval.Auth.Guessing.{
  LoginFailure, IsRecentGuess, fail_all, fail_all-get_active_block,
}
use monitoring_maxval.Auth.Liveness.{
  IsLive, resolve_server_session-IsLive, revoke_session-resolve_server_session,
}

abbrev limits : Settings
limits = record {
  session_idle_hours = 8;
  session_max_hours = 24;
  login_max_attempts = 3;
  login_block_minutes = 10;
}

-- "Ann", with a space behind it.
abbrev typed_name : Text
typed_name = 65 ∷ 110 ∷ 110 ∷ 32 ∷ []

abbrev ann : Text
ann = 97 ∷ 110 ∷ 110 ∷ []

abbrev address : Text
address = 49 ∷ []

abbrev ann_user : User
ann_user = record {
  id = 1;
  username = ann;
  password_hash = 1 ∷ [];
  role = UserRole.viewer;
  active = true;
  last_login_at = none;
  last_login_ip = none;
}

abbrev failed : ℕ → ℕ → FailedLoginAttempt
failed id at = record { id = id; username = ann; ip_address = address; occurred_at = at }

abbrev token : Text
token = 7 ∷ 7 ∷ []

abbrev identity : Text → Text
identity text = text

abbrev ann_session : UserSession
ann_session = record {
  id = 1;
  user_id = 1;
  token_hash = token;
  csrf_token = [];
  ip_address = address;
  user_agent = [];
  created_at = 0;
  last_seen_at = 0;
  expires_at = 24 * 3600000000;
}

-- Two failed logins, and one session.
abbrev accounts : AuthStore
accounts = record {
  settings = [];
  users = ann_user ∷ [];
  sessions = ann_session ∷ [];
  failures = failed 1 1000000 ∷ failed 2 2000000 ∷ [];
  blocks = [];
  audit = [];
  next_user = 2;
  next_session = 2;
  next_failure = 3;
  next_block = 1;
}

short_enough : length (normalize_username typed_name) ≤ 64
unfolding normalize_username lower_codes strip
short_enough = omega arith

two_before :
    3 ≤ count (counts limits 3000000 (normalize_username typed_name) address) accounts.failures + 1
unfolding count counts normalize_username lower_codes strip
two_before = omega arith

third_failure_blocks :
    is_some (
      (get_active_block 4000000 typed_name address
        (record_failed_login limits 3000000 typed_name address accounts).1).0)
    ≡ not (leb (3000000 + 10 * minute_us) 4000000)
third_failure_blocks =
    record_failed_login-blocks limits 3000000 4000000 typed_name address accounts short_enough
      two_before

two-Counted :
    Counted
      (IsRecentFailure limits 3000000 (take 64 (normalize_username typed_name)) address)
      2
      accounts.failures
unfolding normalize_username lower_codes strip
two-Counted =
    counted (record { name = refl; address = refl; recent = omega arith })
      (counted (record { name = refl; address = refl; recent = omega arith }) nobody)

third_failure_counts :
    is_some ((record_failed_login limits 3000000 typed_name address accounts).0) ≡ leb 3 (2 + 1)
third_failure_counts =
    record_failed_login-is_some limits 3000000 2 typed_name address accounts two-Counted

login_lifts_block :
    (get_active_block 5000000 typed_name address
      (complete_login 4000000 ann_user address typed_name accounts)).0
    ≡ none
login_lifts_block =
    complete_login-get_active_block 4000000 5000000 ann_user address typed_name accounts

abbrev one_minute : ℕ
one_minute = 60000000

abbrev ann_context : AuthContext
ann_context = record { user = ann_user; user_session = ann_session }

resolves :
    (resolve_server_session identity limits one_minute (some token) accounts).0 ≡ some ann_context
unfolding resolve_server_session find
resolves = refl

ann-IsLive : IsLive identity limits one_minute token accounts ann_context
ann-IsLive = resolve_server_session-IsLive identity limits one_minute token accounts resolves

logged_out :
    (resolve_server_session identity limits one_minute
      (some token)
      (revoke_session identity (some token) accounts)).0
    ≡ none
logged_out = revoke_session-resolve_server_session identity limits one_minute token accounts

ids_are_fresh :
    count (λ f. leb accounts.next_failure (FailedLoginAttempt.id f)) accounts.failures ≡ 0
unfolding count
ids_are_fresh = refl

abbrev guess : ℕ → LoginFailure
guess at = record { username = typed_name; ip_address = address; at = at }

abbrev stranger : LoginFailure
stranger = record { username = 98 ∷ []; ip_address = address; at = 3750000000 }

stranger_is_other :
    IsRecentGuess limits 3900000000 (normalize_username typed_name) address stranger → ⊥
unfolding normalize_username lower_codes strip
stranger_is_other h = ground (arith, h.same_name)

guesses :
    Counted
      (IsRecentGuess limits 3900000000 (normalize_username typed_name) address)
      2
      (guess 3700000000 ∷ stranger ∷ guess 3800000000 ∷ [])
guesses =
    counted (record { same_name = refl; same_address = refl; recent = omega arith })
      (passed stranger_is_other
        (counted (record { same_name = refl; same_address = refl; recent = omega arith }) nobody))

-- Three in five minutes and one of another name, from a store with two failed logins of an hour before.
guessing_blocks :
    is_some (
      (get_active_block 4000000000 typed_name address
        (record_failed_login limits 3900000000 typed_name address
          (fail_all limits (guess 3700000000 ∷ stranger ∷ guess 3800000000 ∷ []) accounts)).1).0)
    ≡ not (leb (3900000000 + 10 * minute_us) 4000000000)
guessing_blocks =
    fail_all-get_active_block limits 3900000000 4000000000 2 typed_name address
      (guess 3700000000 ∷ stranger ∷ guess 3800000000 ∷ []) accounts ids_are_fresh short_enough
      guesses (omega arith) (omega arith)
