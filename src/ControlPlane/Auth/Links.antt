-- ===== src/ControlPlane/Auth/Links.antt =====
-- A magic link is good once, for its purpose, until it expires.
use abrolia.Common.{
  ◌≡◌, ◌<◌, false, Option, none, ◌==◌, arith, ok, err, find, Option-cases, inl, inr,
}
use abrolia.Common.Rows.{find-update_where, find-test}
use abrolia.ControlPlane.Schema.{Text, Time, Token, Purpose, Db, invalid_credential}
use abrolia.ControlPlane.Auth.{mismatched, used_row, is_token, consume_row, consume_token}

module _ (digest : Text → Text) where
  -- A call of `consume_token` that returns had a stored link of that digest, unused, not expired and
  -- of the purpose asked for, which it returns; and after it every call with the same raw token
  -- raises InvalidCredential and changes nothing, at whatever time and for whatever purpose.
  pub consume_token-once :
      (raw_token : Text) (purpose again : Option Purpose) (now later : Time) (db : Db) (t : Token)
      → (consume_token digest raw_token purpose now db).0 ≡ ok t
      → let db' = (consume_token digest raw_token purpose now db).1 in
        (t.token_hash ≡ digest raw_token)
        × (t.used_at ≡ none)
        × (now < t.expires_at)
        × (mismatched purpose t.purpose ≡ false)
        × (consume_token digest raw_token again later db' ≡ (err invalid_credential, db'))
  unfolding consume_token consume_row
  consume_token-once raw_token purpose again now later db t took =
      elim (Option-cases (find (is_token digest raw_token) db.auth_tokens)) [
        | inl missing ↦ absurd (ground (arith, missing, took))
        | inr (row, found) ↦
            let named = find-test (is_token digest raw_token) db.auth_tokens row found in
            let moved =
              find-update_where (is_token digest raw_token) (λ (r : Token). r.id == row.id)
                (used_row now) db.auth_tokens (λ r. ground arith) in
            (
              ground (arith, found, named, took),
              ground (arith, found, took),
              ground (arith, found, took),
              ground (arith, found, took),
              ground (arith, found, took, moved),
            )
      ]
