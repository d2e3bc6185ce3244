-- ===== src/ControlPlane/Bootstrap.antt =====
-- control_plane/provisioning/bootstrap.py: how a runtime claims a configuration revision with its
-- one-time token. The activation is in Bootstrap/Activation, with its checks and its
-- replay in Bootstrap/Checks and Bootstrap/Replay.
pub mod Replay
pub mod Checks
pub mod Consenting
pub mod Activation
use abrolia.Common.{
  ℕ, Bool, true, false, not, ◌&&◌, ◌||◌, Option, none, some, List, [], ◌∷◌, if◌then◌else◌, leb,
  ◌==◌, is_none, is_some, find, exists, update_where, Action, pure, raise, raise_if, gets, modify,
  or_raise, write, ◌>>=◌, ◌>>◌,
}
use abrolia.ControlPlane.Rows.{
  Text, Time, HouseholdStatus, Family, RevisionStatus, ConfigRevision, BootstrapToken,
}
use abrolia.ControlPlane.Schema.{Db, Error, bootstrap_denied, bootstrap_gone, bootstrap_conflict}
use abrolia.ControlPlane.Configs.{Vault, Manifest, is_revision, get, manifest, manifest_in}

-- `BootstrapClaim`
pub record BootstrapClaim : Type 0 where
  pub household_id : Text
  pub runtime_ref : Text
  pub config_revision : ℕ
  pub manifest_sha256 : Text
  pub manifest : Manifest

-- The arguments by which a runtime says what it is.
pub record Target : Type 0 where
  pub household_id : Text
  pub runtime_ref : Text
  pub config_revision : ℕ

-- `_token_row`
abbrev pub token_row : Vault → Text → Db → Option BootstrapToken
token_row w raw_token db =
    let digest = w.token_digest raw_token in find (λ t. t.token_hash == digest) db.bootstrap_tokens

-- `_validate_binding`
abbrev pub is_bound : Target → BootstrapToken → Bool
is_bound target row =
    row.household_id == target.household_id
    && (row.runtime_ref == target.runtime_ref && row.config_revision == target.config_revision)

-- `_assert_not_deleted`
abbrev pub is_tombstoned : Vault → Text → Db → Bool
is_tombstoned w household_id db =
    let tombstone = w.household_digest household_id in
    exists (λ t. t == tombstone) db.deletion_tombstones

-- The start of both calls: the row of the token, for the target that it names.
unfoldable pub open_token : Vault → Text → Target → Action Error Db BootstrapToken
open_token w raw_token target = do
  row ← gets (token_row w raw_token)
  row ← or_raise row bootstrap_denied
  raise_if (not (is_bound target row)) bootstrap_denied
  deleted ← gets (is_tombstoned w target.household_id)
  raise_if deleted bootstrap_gone
  pure row

abbrev pub is_leaving : HouseholdStatus → Bool
is_leaving HouseholdStatus.deleting = true
is_leaving HouseholdStatus.deleted = true
is_leaving _ = false

-- `_constant_match` on a runtime reference: `none_text` is the text "None", as `str` writes None.
abbrev pub runs_at : Text → Text → Option Text → Bool
runs_at none_text runtime_ref none = none_text == runtime_ref
runs_at none_text runtime_ref (some actual) = actual == runtime_ref

abbrev pub is_ready_household : Text → Target → Option Family → Bool
is_ready_household none_text target none = false
is_ready_household none_text target (some h) =
    not (is_leaving h.status) && runs_at none_text target.runtime_ref h.runtime_ref

abbrev pub family : Text → Db → Option Family
family household_id db = find (λ h. h.id == household_id) db.households

abbrev pub is_claimable_status : RevisionStatus → Bool
is_claimable_status RevisionStatus.issued = true
is_claimable_status RevisionStatus.claimed = true
is_claimable_status _ = false

abbrev pub is_issued_status : RevisionStatus → Bool
is_issued_status RevisionStatus.issued = true
is_issued_status _ = false

-- The household and the revision that a claim needs.
unfoldable pub claimable : Text → BootstrapToken → Target → Action Error Db ConfigRevision
claimable none_text row target = do
  h ← gets (family target.household_id)
  revision ← gets (get target.household_id target.config_revision)
  revision ← or_raise revision bootstrap_conflict
  raise_if (not (is_ready_household none_text target h)) bootstrap_conflict
  raise_if (not (is_claimable_status revision.status)) bootstrap_conflict
  raise_if (not (revision.manifest_sha256 == row.manifest_sha256)) bootstrap_conflict
  pure revision

abbrev pub claimed_token : Time → BootstrapToken → BootstrapToken
claimed_token now t = record t { claimed_at = some now }

abbrev pub claimed_row : Time → ConfigRevision → ConfigRevision
claimed_row now r = record r { status = RevisionStatus.claimed; claimed_at = some now }

abbrev pub is_claimed_by_id : Text → ConfigRevision → Bool
is_claimed_by_id k r = r.id == k && is_issued_status r.status

-- The two UPDATEs of a first claim.
unfoldable pub mark_claimed : BootstrapToken → ConfigRevision → Time → Db → Db
mark_claimed row revision now db =
    if is_none row.claimed_at
    then record db {
      bootstrap_tokens = update_where (λ t. t.id == row.id) (claimed_token now) db.bootstrap_tokens;
      config_revisions =
          update_where (is_claimed_by_id revision.id) (claimed_row now) db.config_revisions;
    }
    else db

abbrev pub claim_of : Target → ConfigRevision → Manifest → BootstrapClaim
claim_of target revision document = record {
  household_id = target.household_id;
  runtime_ref = target.runtime_ref;
  config_revision = target.config_revision;
  manifest_sha256 = revision.manifest_sha256;
  manifest = document;
}

-- The end of `claim`: the UPDATEs, and the check of the stored manifest.
unfoldable pub claim_marked :
    Vault → Target → Time → BootstrapToken → ConfigRevision → Action Error Db BootstrapClaim
unfolding mark_claimed manifest
claim_marked w target now row revision = do
  modify (mark_claimed row revision now)
  document ← manifest w target.household_id target.config_revision
  raise_if (not (w.manifest_sha256 document == revision.manifest_sha256)) bootstrap_conflict
  pure (claim_of target revision document)

-- The body of `claim` once its token is open.
unfoldable pub claim_with :
    Vault → Text → Target → Time → BootstrapToken → Action Error Db BootstrapClaim
unfolding claimable claim_marked
claim_with w none_text target now row = do
  raise_if (is_some row.used_at || (is_some row.revoked_at || leb row.expires_at now))
      bootstrap_gone
  claimable none_text row target >>= claim_marked w target now row

unfoldable pub claim : Vault → Text → Text → Target → Time → Action Error Db BootstrapClaim
unfolding open_token claim_with
claim w none_text raw_token target now =
    write (open_token w raw_token target >>= claim_with w none_text target now)
