-- ===== src/Auth/Logins.antt =====
-- `get_active_block`, `record_failed_login` and `complete_login`.
use monitoring_maxval.Base.{
  ℕ, ◌+◌, ◌*◌, Bool, ◌&&◌, not, Option, none, some, List, [], ◌∷◌, ◌==◌, leb, ltb, keep, take,
  if◌then◌else◌,
}
use monitoring_maxval.Base.Rows.{count, insert, update}
use monitoring_maxval.UnstableLink.{minute_us}
use monitoring_maxval.Base.Text.{Text, same_text}
use monitoring_maxval.Auth.Database.{User, FailedLoginAttempt, LoginBlock, AuthStore, Settings}
use monitoring_maxval.Auth.Users.{normalize_username}

-- The row of `LoginBlock` of a name and an address, which is the only one.
unfoldable pub find_block : Text → Text → List LoginBlock → Option LoginBlock
find_block username ip_address [] = none
find_block username ip_address (b ∷ bs) =
    if same_text b.username username && same_text b.ip_address ip_address
    then some b
    else find_block username ip_address bs

unfoldable pub delete_block : ℕ → AuthStore → AuthStore
delete_block id db = record db { blocks = keep (λ b. not (LoginBlock.id b == id)) db.blocks }

abbrev pub live_block : ℕ → Option LoginBlock → AuthStore → Option LoginBlock × AuthStore
live_block now none db = (none, db)
live_block now (some block) db =
    if leb block.blocked_until now then (none, delete_block block.id db) else (some block, db)

unfoldable pub get_active_block : ℕ → Text → Text → AuthStore → Option LoginBlock × AuthStore
unfolding find_block delete_block
get_active_block now username ip_address db =
    live_block now (find_block (normalize_username username) ip_address db.blocks) db

-- A failed login of this name from this address, at `now - minutes` or later.
unfoldable pub counts : Settings → ℕ → Text → Text → FailedLoginAttempt → Bool
counts settings now username ip_address f =
    same_text f.username username
    && same_text f.ip_address ip_address
    && leb now (f.occurred_at + settings.login_block_minutes * minute_us)

abbrev pub new_failure : ℕ → Text → Text → AuthStore → FailedLoginAttempt
new_failure now username ip_address db = record {
  id = db.next_failure;
  username = username;
  ip_address = ip_address;
  occurred_at = now;
}

unfoldable pub add_failure : ℕ → Text → Text → AuthStore → AuthStore
add_failure now username ip_address db = record db {
  failures = insert (new_failure now username ip_address db) db.failures;
  next_failure = db.next_failure + 1;
}

abbrev pub set_block :
    ℕ → Text → Text → Option LoginBlock → AuthStore → Option LoginBlock × AuthStore
set_block blocked_until username ip_address none db =
    let block : LoginBlock = record {
      id = db.next_block;
      username = username;
      ip_address = ip_address;
      blocked_until = blocked_until;
    } in
    (some block, record db { blocks = insert block db.blocks; next_block = db.next_block + 1 })
set_block blocked_until username ip_address (some block) db = (
  some (record block { blocked_until = blocked_until }),
  record db {
    blocks =
        update LoginBlock.id block.id (λ b. record b { blocked_until = blocked_until }) db.blocks;
  },
)

-- The block of the name and the address, if the failures in the window are too many.
unfoldable pub block_after : Settings → ℕ → Text → Text → AuthStore → Option LoginBlock × AuthStore
unfolding find_block
block_after settings now username ip_address db =
    if leb settings.login_max_attempts (count (counts settings now username ip_address) db.failures)
    then set_block (now + settings.login_block_minutes * minute_us) username ip_address
        (find_block username ip_address db.blocks) db
    else (none, db)

-- `id NOT IN (SELECT id ... ORDER BY id DESC LIMIT 100)` is deleted: fewer than a hundred rows have a
-- larger id than a row that stays.
unfoldable pub trim_failures : AuthStore → AuthStore
trim_failures db = record db {
  failures =
      keep
        (λ f.
          ltb (count (λ g. ltb (FailedLoginAttempt.id f) (FailedLoginAttempt.id g)) db.failures)
            100)
        db.failures;
}

abbrev trim_after : Option LoginBlock × AuthStore → Option LoginBlock × AuthStore
trim_after (block, db) = (block, trim_failures db)

unfoldable pub record_failed_login :
    Settings → ℕ → Text → Text → AuthStore → Option LoginBlock × AuthStore
unfolding add_failure block_after trim_failures
record_failed_login settings now username ip_address db =
    let normalized = take 64 (normalize_username username) in
    trim_after
      (block_after settings now normalized ip_address (add_failure now normalized ip_address db))

unfoldable pub complete_login : ℕ → User → Text → Text → AuthStore → AuthStore
complete_login now user ip_address username db =
    let normalized = normalize_username username in
    record db {
      users =
          update User.id user.id
            (λ u. record u { last_login_at = some now; last_login_ip = some ip_address }) db.users;
      failures =
          keep
            (λ f. not (
              same_text (FailedLoginAttempt.username f) normalized
              && same_text (FailedLoginAttempt.ip_address f) ip_address))
            db.failures;
      blocks =
          keep
            (λ b. not (
              same_text (LoginBlock.username b) normalized
              && same_text (LoginBlock.ip_address b) ip_address))
            db.blocks;
      audit =
          insert
            (record {
              action = "auth.login_success";
              user_id = some user.id;
              entity_type = "user";
              entity_id = user.id;
              entity_name = user.username;
              ip_address = ip_address;
            })
            db.audit;
    }
