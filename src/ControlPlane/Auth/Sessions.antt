-- ===== src/ControlPlane/Auth/Sessions.antt =====
-- How long a session lasts.
use abrolia.Common.{
  ℕ, ◌≡◌, ◌<◌, ◌≤◌, ◌+◌, true, none, some, ◌==◌, arith, ok, find, Option-cases, inl, inr,
}
use abrolia.Common.Rows.{find-update_where, find-test}
use abrolia.ControlPlane.Schema.{Text, Time, Session, Db}
use abrolia.ControlPlane.Auth.{
  is_active_account, is_session, seen_row, renewed, authenticate_session,
}

module _ (digest : Text → Text) where
  -- A call of `authenticate_session` that returns found a session of the token's digest, of an active
  -- account, not revoked, whose idle and absolute times, as they were stored, are not over. It gives
  -- that session back with a new idle time, and stores it so, seen now; the new idle time lies at most
  -- `idle_ttl` ahead and never beyond the absolute time, which stays as it was.
  pub authenticate_session_bounds :
      (raw_token : Text) (now : Time) (idle_ttl : ℕ) (db : Db) (s : Session)
      → (authenticate_session digest raw_token now idle_ttl db).0 ≡ ok s
      → let db' = (authenticate_session digest raw_token now idle_ttl db).1 in
        (s.token_hash ≡ digest raw_token)
        × (is_active_account digest db s.account_id ≡ true)
        × (s.revoked_at ≡ none)
        × (now < s.absolute_expires_at)
        × (s.idle_expires_at ≤ s.absolute_expires_at)
        × (s.idle_expires_at ≤ now + idle_ttl)
        × (find (is_session digest db raw_token) db'.sessions
            ≡ some (record s { last_seen_at = now }))
        × ((row : Session) × (find (is_session digest db raw_token) db.sessions ≡ some row)
            × (now < row.idle_expires_at)
            × (now < row.absolute_expires_at)
            × (s ≡ record row { idle_expires_at = s.idle_expires_at }))
  unfolding authenticate_session
  authenticate_session_bounds raw_token now idle_ttl db s took =
      elim (Option-cases (find (is_session digest db raw_token) db.sessions)) [
        | inl missing ↦ absurd (ground (arith, missing, took))
        | inr (row, found) ↦
            let named = find-test (is_session digest db raw_token) db.sessions row found in
            let moved =
              find-update_where (is_session digest db raw_token) (λ (r : Session). r.id == row.id)
                (seen_row digest now (renewed digest now idle_ttl row)) db.sessions
                (λ r. ground arith) in
            (
              ground (arith, found, named, took),
              ground (arith, found, named, took),
              ground (arith, found, took),
              ground (arith, found, took),
              ground (arith, found, took),
              ground (arith, found, took),
              ground (arith, found, took, moved),
              (
                row,
                found,
                ground (arith, found, took),
                ground (arith, found, took),
                ground (arith, found, took),
              ),
            )
      ]
