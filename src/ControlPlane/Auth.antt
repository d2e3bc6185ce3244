-- ===== src/ControlPlane/Auth.antt =====
-- control_plane/repositories/auth.py and control_plane/auth/sessions.py: magic links and sessions.
-- `digest` is the token hasher's digest, `fresh` what `new_id()` returns, and `now` the resolved time
-- of the call. A token's encrypted email is left out.
pub mod Links
pub mod Sessions
use abrolia.Common.{
  ℕ, Bool, true, false, not, ◌&&◌, ◌||◌, Option, none, some, List, [], ◌∷◌, ◌++◌, ◌+◌, ◌-◌, ◌*◌,
  min, if◌then◌else◌, ltb, leb, ◌==◌, is_none, is_some, find, exists, update_where, count_where,
  Action, pure, raise, raise_if, gets, modify, or_raise, write, ◌>>=◌, ◌>>◌, Result, ok, err,
}
use abrolia.ControlPlane.Schema.{
  Text, Time, Token, Purpose, invite, login, reauth, Session, Db, Error, integrity,
  invalid_credential, permission_denied, has_account,
}

-- SESSION_IDLE_TTL_SECONDS, SESSION_ABSOLUTE_TTL_SECONDS, FRESH_REAUTH_SECONDS
abbrev pub session_idle_ttl_seconds : ℕ
session_idle_ttl_seconds = 24 * 60 * 60

abbrev pub session_absolute_ttl_seconds : ℕ
session_absolute_ttl_seconds = 30 * 24 * 60 * 60

abbrev pub fresh_reauth_seconds : ℕ
fresh_reauth_seconds = 10 * 60

abbrev pub same_purpose : Purpose → Purpose → Bool
same_purpose invite invite = true
same_purpose login login = true
same_purpose reauth reauth = true
same_purpose _ _ = false

-- `purpose is not None and row["purpose"] != purpose`
abbrev pub mismatched : Option Purpose → Purpose → Bool
mismatched none q = false
mismatched (some p) q = not (same_purpose p q)

abbrev pub refers_account : Db → Option Text → Bool
refers_account db none = true
refers_account db (some k) = has_account db k

abbrev pub used_row : Time → Token → Token
used_row now t = record t { used_at = some now; attempts = t.attempts + 1 }

abbrev pub get_session : Text → Db → Option Session
get_session session_id db = find (λ s. s.id == session_id) db.sessions

abbrev pub is_live_as : Text → Session → Bool
is_live_as session_id s = s.id == session_id && is_none s.revoked_at

abbrev pub revoked_row : Time → Session → Session
revoked_row now s = record s { revoked_at = some now }

unfoldable pub revoke_session : Text → Time → Action Error Db (Unit {0})
revoke_session session_id now = modify (λ db. record db {
  sessions = update_where (is_live_as session_id) (revoked_row now) db.sessions;
})

abbrev pub is_live_of : Text → Session → Bool
is_live_of account_id s = s.account_id == account_id && is_none s.revoked_at

unfoldable pub revoke_account_sessions : Text → Time → Action Error Db ℕ
revoke_account_sessions account_id now db =
    pure (count_where (is_live_of account_id) db.sessions)
      (record db { sessions = update_where (is_live_of account_id) (revoked_row now) db.sessions })

-- `require_fresh`: `now - reauthenticated_at > FRESH_REAUTH_SECONDS`.
unfoldable pub require_fresh : Session → Time → Result Error (Unit {0})
require_fresh s now =
    if ltb (s.reauthenticated_at + fresh_reauth_seconds) now then err permission_denied else ok tt

module _ (digest : Text → Text) where
  abbrev pub new_token : Text → Text → Purpose → Time → Option Text → Time → Token
  new_token fresh raw_token purpose expires_at account_id now = record {
    id = fresh;
    token_hash = digest raw_token;
    purpose = purpose;
    account_id = account_id;
    expires_at = expires_at;
    used_at = none;
    attempts = 0;
    created_at = now;
  }

  -- `issue_token`, with the keys of the INSERT.
  unfoldable pub issue_token :
      Text → Text → Purpose → Time → Option Text → Time → Action Error Db Text
  issue_token fresh raw_token purpose expires_at account_id now db =
      let t = new_token fresh raw_token purpose expires_at account_id now in
      if exists (λ r. r.id == t.id || r.token_hash == t.token_hash) db.auth_tokens
        || not (refers_account db account_id)
      then raise integrity db
      else pure fresh (record db { auth_tokens = db.auth_tokens ++ t ∷ [] })

  abbrev pub is_token : Text → Token → Bool
  is_token raw_token t = t.token_hash == digest raw_token

  -- `consume_token_in`, after the SELECT; the row is returned as it was read.
  unfoldable pub consume_row : Option Purpose → Time → Token → Action Error Db Token
  consume_row purpose now row = do
    raise_if (is_some row.used_at || leb row.expires_at now) invalid_credential
    raise_if (mismatched purpose row.purpose) invalid_credential
    modify (λ db. record db {
      auth_tokens = update_where (λ t. t.id == row.id) (used_row now) db.auth_tokens;
    })
    pure row

  unfoldable pub consume_token : Text → Option Purpose → Time → Action Error Db Token
  unfolding consume_row
  consume_token raw_token purpose now = write (do
    row ← gets (λ db. find (is_token raw_token) db.auth_tokens)
    row ← or_raise row invalid_credential
    consume_row purpose now row)

  abbrev pub new_session : Text → Text → Text → Text → Time → Time → Time → Text → Time → Session
  new_session fresh raw_token raw_csrf account_id idle absolute reauthenticated_at metadata now =
      record {
        id = fresh;
        token_hash = digest raw_token;
        account_id = account_id;
        csrf_hash = digest raw_csrf;
        idle_expires_at = idle;
        absolute_expires_at = absolute;
        reauthenticated_at = reauthenticated_at;
        last_seen_at = now;
        revoked_at = none;
        security_metadata = metadata;
        created_at = now;
      }

  -- `create_session`, with the keys and the CHECK of the table.
  unfoldable pub create_session :
      Text → Text → Text → Text → Time → Time → Time → Text → Time → Action Error Db Text
  create_session fresh raw_token raw_csrf account_id idle absolute reauthenticated_at metadata now
        db =
      let s =
        new_session fresh raw_token raw_csrf account_id idle absolute reauthenticated_at metadata
          now in
      if exists (λ r. r.id == s.id || r.token_hash == s.token_hash) db.sessions
        || (not (has_account db account_id) || ltb absolute idle)
      then raise integrity db
      else pure fresh (record db { sessions = db.sessions ++ s ∷ [] })

  -- `SessionService.issue`; the two tokens are what `secrets` returns.
  unfoldable pub issue : Text → Text → Text → Text → Text → Time → Action Error Db Text
  unfolding create_session
  issue fresh raw_token raw_csrf account_id metadata now =
      create_session fresh raw_token raw_csrf account_id (now + session_idle_ttl_seconds)
        (now + session_absolute_ttl_seconds) now metadata now

  abbrev pub is_active_account : Db → Text → Bool
  is_active_account db k = exists (λ a. a.id == k && a.is_active) db.accounts

  -- The SELECT of `authenticate_session`.
  abbrev pub is_session : Db → Text → Session → Bool
  is_session db raw_token s = s.token_hash == digest raw_token && is_active_account db s.account_id

  abbrev pub seen_row : Time → Time → Session → Session
  seen_row now idle_expires_at s = record s {
    last_seen_at = now;
    idle_expires_at = idle_expires_at;
  }

  abbrev pub is_over : Time → Session → Bool
  is_over now row =
      is_some row.revoked_at || (leb row.idle_expires_at now || leb row.absolute_expires_at now)

  abbrev pub renewed : Time → ℕ → Session → Time
  renewed now idle_ttl row = min (now + idle_ttl) row.absolute_expires_at

  -- The record that is returned is the row with its new idle time.
  unfoldable pub authenticate_session : Text → Time → ℕ → Action Error Db Session
  authenticate_session raw_token now idle_ttl = write (do
    row ← gets (λ db. find (is_session db raw_token) db.sessions)
    row ← or_raise row invalid_credential
    raise_if (is_over now row) invalid_credential
    modify (λ db. record db {
      sessions =
          update_where (λ s. s.id == row.id) (seen_row now (renewed now idle_ttl row)) db.sessions;
    })
    pure (record row { idle_expires_at = renewed now idle_ttl row }))

  abbrev pub csrf_matches : Option Session → Text → Bool
  csrf_matches none raw_csrf = false
  csrf_matches (some s) raw_csrf = s.csrf_hash == digest raw_csrf

  unfoldable pub verify_csrf : Text → Text → Db → Bool
  verify_csrf session_id raw_csrf db = csrf_matches (get_session session_id db) raw_csrf
