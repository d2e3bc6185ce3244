-- ===== src/ControlPlane/Consent.antt =====
-- control_plane/privacy/consent.py, and the check of consent by control_plane/provisioning/bootstrap.py.
-- `sha` is the digest of a purpose's current text.
pub mod Boundary
use abrolia.Common.{
  ℕ, Bool, true, false, not, ◌&&◌, Option, none, some, List, [], ◌∷◌, ◌++◌, ◌+◌, if◌then◌else◌,
  ◌==◌, select, exists, is_some, Result, ok, err,
}
use abrolia.ControlPlane.Rows.{Text, Time}

-- The purposes of CONSENT_TEXTS; `unlisted` is any other text.
pub data ConsentPurpose : Type 0 where
  content_restriction household_content channel_privacy linked_device_risk : ConsentPurpose
  unlisted : Text → ConsentPurpose

abbrev pub code_of : ConsentPurpose → ℕ
code_of content_restriction = 0
code_of household_content = 1
code_of channel_privacy = 2
code_of linked_device_risk = 3
code_of (unlisted t) = t + 4

abbrev pub same_purpose : ConsentPurpose → ConsentPurpose → Bool
same_purpose p q = code_of p == code_of q

-- `purpose in CONSENT_TEXTS`
abbrev pub is_listed : ConsentPurpose → Bool
is_listed (unlisted t) = false
is_listed _ = true

-- The number at the end of the version of the purpose's text.
abbrev pub version_of : ConsentPurpose → ℕ
version_of content_restriction = 2
version_of _ = 1

-- `fake-email`, `synthetic`, and any other provider.
pub data ProviderKind : Type 0 where
  fake_email synthetic : ProviderKind
  other_kind : Text → ProviderKind

abbrev pub processes_real_household_content : Option ProviderKind → Bool
processes_real_household_content (some fake_email) = false
processes_real_household_content (some synthetic) = false
processes_real_household_content _ = true

abbrev pub when : Bool → ConsentPurpose → List ConsentPurpose
when true p = p ∷ []
when false p = []

unfoldable pub required_consent_purposes : Option ProviderKind → Bool → Bool → List ConsentPurpose
required_consent_purposes kind dedicated enabled =
    content_restriction ∷ when enabled channel_privacy
    ++ when (enabled && dedicated) linked_device_risk
    ++ when (processes_real_household_content kind) household_content

-- The purposes that a manifest declares, none where it or a part of it is missing.
abbrev pub declared : Option (List ConsentPurpose) → List ConsentPurpose
declared none = []
declared (some ps) = ps

unfoldable pub manifest_required_purposes : Option (List ConsentPurpose) → List ConsentPurpose
manifest_required_purposes manifest =
    let purposes = select is_listed (declared manifest) in
    if exists (same_purpose content_restriction) purposes
    then purposes
    else purposes ++ content_restriction ∷ []

-- A row of `consent_receipts`, by the columns that the modelled code reads.
pub record Receipt : Type 0 where
  pub id : Text
  pub household_id : Option Text
  pub purpose : ConsentPurpose
  pub text_version : ℕ
  pub text_sha256 : Text
  pub revoked_at : Option Time

abbrev pub is_of : Text → Option Text → Bool
is_of household_id none = false
is_of household_id (some h) = h == household_id

-- CURRENT_RECEIPT_SQL, with `current_receipt_params`.
unfoldable pub is_current : (ConsentPurpose → Text) → Text → ConsentPurpose → Receipt → Bool
is_current sha household_id p r =
    is_of household_id r.household_id
    && (same_purpose r.purpose p
        && (r.text_version == version_of p
            && (r.text_sha256 == sha p && not (is_some r.revoked_at))))

abbrev pub holds : (ConsentPurpose → Text) → Text → List Receipt → ConsentPurpose → Bool
holds sha household_id receipts p = exists (is_current sha household_id p) receipts

-- `_assert_current_consent`; the BootstrapConflict names the purpose.
unfoldable pub assert_current_consent :
    (ConsentPurpose → Text)
    → Text
    → List Receipt
    → List ConsentPurpose
    → Result ConsentPurpose (Unit {0})
assert_current_consent sha household_id receipts [] = ok tt
assert_current_consent sha household_id receipts (p ∷ ps) =
    if holds sha household_id receipts p
    then assert_current_consent sha household_id receipts ps
    else err p
