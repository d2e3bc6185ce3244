-- ===== src/ControlPlane/Bootstrap/Consenting.antt =====
-- The consents behind an activation.
use abrolia.Common.{
  ◌≡◌, refl, true, false, Option, none, some, arith, ok, err, Result, is_some, inl, inr, Bool-cases,
  bind_ok, write_ok, ◌>>=◌,
}
use abrolia.ControlPlane.Rows.{Text, Family, ConfigRevision, BootstrapToken}
use abrolia.ControlPlane.Consent.{ConsentPurpose, holds}
use abrolia.ControlPlane.Consent.Boundary.{owes, assert_current_consent-manifest_required_purposes}
use abrolia.ControlPlane.Schema.{Db}
use abrolia.ControlPlane.Configs.{get}
use abrolia.ControlPlane.Bootstrap.{Target, open_token, token_row}
use abrolia.ControlPlane.Bootstrap.Replay.{Service, Activation, ActivationReceipt}
use abrolia.ControlPlane.Bootstrap.Checks.{
  purposes_in, is_missing_consent, lacks_consent, check, check_target, check_rest,
}
use abrolia.ControlPlane.Bootstrap.Activation.{activate, activate_with, publish}
use abrolia.ControlPlane.Revisions.Methods.{open_token_reads}

opened_row :
    (w : Service) (raw : Text) (target : Target) (db : Db) (row opened : BootstrapToken)
    → token_row w.vault raw db ≡ some row
    → (open_token w.vault raw target db).0 ≡ ok opened
    → opened ≡ row
unfolding open_token
opened_row w raw target db row opened found h = ground (arith, found, h)

-- A token that was not used goes through the checks.
unused_checks :
    (w : Service) (target : Target) (a : Activation) (row : BootstrapToken) (db : Db)
    (r : ActivationReceipt)
    → row.used_at ≡ none
    → (activate_with w target a row db).0 ≡ ok r
    → ((check w target a row >>= publish w target a row) db).0 ≡ ok r
unfolding activate_with
unused_checks w target a row db r unused h = elim (Bool-cases (is_some row.revoked_at)) [
  | inl revoked ↦ absurd (ground (arith, revoked, h))
  | inr standing ↦ rw (standing, unused) at h
]

target_consents :
    (w : Service) (target : Target) (a : Activation) (row : BootstrapToken) (db : Db)
    (x : Option Family × ConfigRevision)
    → (check_target w target a row db).0 ≡ ok x
    → lacks_consent w target db ≡ false
unfolding check_target
target_consents w target a row db x h = elim (Bool-cases (lacks_consent w target db)) [
  | inl lacks ↦ absurd (ground (arith, lacks, h))
  | inr has ↦ has
]

passed : (r : Result ConsentPurpose (Unit {0})) → is_missing_consent r ≡ false → r ≡ ok tt
passed (ok u) h = refl
passed (err p) h = absurd (ground arith)

-- An activation under a token that was not used yet, when it returns, had a current receipt of its
-- household, unrevoked and at the present text, of the restriction and of every listed purpose that
-- the manifest of its revision declares.
pub activate-holds :
    (w : Service) (raw : Text) (target : Target) (a : Activation) (db : Db) (row : BootstrapToken)
    (r : ActivationReceipt) (p : ConsentPurpose)
    → token_row w.vault raw db ≡ some row
    → row.used_at ≡ none
    → (activate w raw target a db).0 ≡ ok r
    → owes (purposes_in w.vault (get target.household_id target.config_revision db)) p ≡ true
    → holds w.consent_sha target.household_id db.consent_receipts p ≡ true
unfolding activate
activate-holds w raw target a db row r p found unused returned owed =
    let body = open_token w.vault raw target >>= activate_with w target a in
    let (opened, was_opened, rest, _) =
      bind_ok (open_token w.vault raw target) (activate_with w target a) db r
        (write_ok body db r returned).0 in
    let same = opened_row w raw target db row opened found was_opened in
    let ran : (activate_with w target a row db).0 ≡ ok r =
      rw (open_token_reads w.vault raw target db, same) at rest in
    let (ready, checked, _, _) =
      bind_ok (check w target a row) (publish w target a row) db r
        (unused_checks w target a row db r unused ran) in
    let (x, targeted, _, _) =
      bind_ok (check_target w target a row) (check_rest w target a) db ready
        (unfold check in checked) in
    assert_current_consent-manifest_required_purposes w.consent_sha target.household_id
      db.consent_receipts (purposes_in w.vault (get target.household_id target.config_revision db))
      (passed _ (target_consents w target a row db x targeted)) p owed
