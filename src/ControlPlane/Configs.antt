-- ===== src/ControlPlane/Configs.antt =====
-- control_plane/repositories/configs.py: the immutable configuration revisions of a household and the
-- tokens with which its runtime claims them. The calls run inside a transaction of their caller.
use abrolia.Common.{
  ℕ, Bool, true, false, not, ◌&&◌, ◌||◌, Option, none, some, List, [], ◌∷◌, ◌++◌, ◌+◌,
  if◌then◌else◌, ltb, ◌==◌, is_none, find, exists, update_where, Action, pure, raise, gets, modify,
  or_raise, ◌>>=◌, ◌>>◌,
}
use abrolia.ControlPlane.Rows.{Text, Time, RevisionStatus, ConfigRevision, BootstrapToken}
use abrolia.ControlPlane.Consent.{ConsentPurpose, ProviderKind}
use abrolia.ControlPlane.Schema.{Db, Error, integrity, value_error, key_error, has_household}

-- The parts of a manifest document that the modelled code reads: `config_revision`, 0 where it is
-- missing, `consent.required_purposes` and `email.provider_kind`.
pub record Manifest : Type 0 where
  pub config_revision : ℕ
  pub required_purposes : Option (List ConsentPurpose)
  pub provider_kind : Option ProviderKind

-- The cipher, the hashers and the digest of a manifest.
pub record Vault : Type 0 where
  pub key_version : Text
  pub seal : Text → Manifest → Text → Text
  pub unseal : Text → Text → Text → Manifest
  pub token_digest : Text → Text
  pub household_digest : Text → Text
  pub manifest_sha256 : Manifest → Text

abbrev pub is_revision : Text → ℕ → ConfigRevision → Bool
is_revision household_id revision r = r.household_id == household_id && r.revision == revision

-- COALESCE(MAX(revision), 0)
abbrev pub max_revision : Text → List ConfigRevision → ℕ
max_revision household_id [] = 0
max_revision household_id (r ∷ rows) =
    let rest = max_revision household_id rows in
    if r.household_id == household_id && ltb rest r.revision then r.revision else rest

abbrev pub new_revision : Vault → Text → Text → ℕ → ℕ → Manifest → Text → Time → ConfigRevision
new_revision w fresh household_id revision schema_version manifest manifest_sha256 now = record {
  id = fresh;
  household_id = household_id;
  revision = revision;
  schema_version = schema_version;
  manifest_ciphertext = w.seal fresh manifest w.key_version;
  encryption_key_version = w.key_version;
  manifest_sha256 = manifest_sha256;
  status = RevisionStatus.planned;
  created_at = now;
  issued_at = none;
  claimed_at = none;
  activated_at = none;
}

-- The primary key and the two UNIQUE constraints of `config_revisions`.
abbrev pub is_taken : ConfigRevision → ConfigRevision → Bool
is_taken new r =
    r.id == new.id
    || (r.household_id == new.household_id
        && (r.revision == new.revision || r.manifest_sha256 == new.manifest_sha256))

unfoldable pub insert_revision : ConfigRevision → Action Error Db ConfigRevision
insert_revision new db =
    if exists (is_taken new) db.config_revisions
      || (not (has_household db new.household_id) || new.schema_version == 0)
    then raise integrity db
    else pure new (record db { config_revisions = db.config_revisions ++ new ∷ [] })

unfoldable pub create_revision :
    Vault → Text → Text → ℕ → Manifest → Text → Time → Action Error Db ConfigRevision
unfolding insert_revision
create_revision w fresh household_id schema_version manifest manifest_sha256 now db =
    let revision = max_revision household_id db.config_revisions + 1 in
    if not (manifest.config_revision == revision)
    then raise value_error db
    else insert_revision
        (new_revision w fresh household_id revision schema_version manifest manifest_sha256 now) db

abbrev pub get : Text → ℕ → Db → Option ConfigRevision
get household_id revision db = find (is_revision household_id revision) db.config_revisions

abbrev pub manifest_in : Vault → ConfigRevision → Manifest
manifest_in w r = w.unseal r.id r.manifest_ciphertext r.encryption_key_version

-- `manifest`; the key of its KeyError is the pair, of which the household is kept.
unfoldable pub manifest : Vault → Text → ℕ → Action Error Db Manifest
manifest w household_id revision = do
  r ← gets (get household_id revision)
  r ← or_raise r (key_error household_id)
  pure (manifest_in w r)

-- The UPDATE of the open tokens of a revision.
abbrev pub is_open_token : Text → ℕ → BootstrapToken → Bool
is_open_token household_id revision t =
    t.household_id == household_id
    && (t.config_revision == revision && (is_none t.used_at && is_none t.revoked_at))

abbrev pub revoked_token : Time → BootstrapToken → BootstrapToken
revoked_token now t = record t { revoked_at = some now }

abbrev pub is_issuable_status : RevisionStatus → Bool
is_issuable_status RevisionStatus.planned = true
is_issuable_status RevisionStatus.issued = true
is_issuable_status RevisionStatus.claimed = true
is_issuable_status _ = false

abbrev pub is_issuable : Text → ℕ → ConfigRevision → Bool
is_issuable household_id revision r =
    is_revision household_id revision r && is_issuable_status r.status

abbrev pub issued_row : Time → ConfigRevision → ConfigRevision
issued_row now r = record r { status = RevisionStatus.issued; issued_at = some now }

abbrev pub new_token : Vault → Text → Text → Text → Text → ℕ → Text → Time → Time → BootstrapToken
new_token w fresh raw_token household_id runtime_ref revision manifest_sha256 expires_at now =
    record {
      id = fresh;
      token_hash = w.token_digest raw_token;
      household_id = household_id;
      runtime_ref = runtime_ref;
      config_revision = revision;
      manifest_sha256 = manifest_sha256;
      expires_at = expires_at;
      claimed_at = none;
      used_at = none;
      revoked_at = none;
      created_at = now;
    }

-- INSERT INTO bootstrap_tokens, with its keys and its foreign keys.
unfoldable pub insert_token : BootstrapToken → Action Error Db Text
insert_token t db =
    if exists (λ r. r.id == t.id || r.token_hash == t.token_hash) db.bootstrap_tokens
      || not (exists (is_revision t.household_id t.config_revision) db.config_revisions)
    then raise integrity db
    else pure t.id (record db { bootstrap_tokens = db.bootstrap_tokens ++ t ∷ [] })

abbrev pub reissue : Text → ℕ → Time → Db → Db
reissue household_id revision now db = record db {
  bootstrap_tokens =
      update_where (is_open_token household_id revision) (revoked_token now) db.bootstrap_tokens;
  config_revisions =
      update_where (is_issuable household_id revision) (issued_row now) db.config_revisions;
}

unfoldable pub issue_bootstrap :
    Vault → Text → Text → Text → Text → ℕ → Text → Time → Time → Action Error Db Text
unfolding insert_token
issue_bootstrap w fresh raw_token household_id runtime_ref revision manifest_sha256 expires_at now =
    do
      modify (reissue household_id revision now)
      insert_token (
          new_token w fresh raw_token household_id runtime_ref revision manifest_sha256 expires_at
            now)
