-- ===== src/ControlPlane/Consent/Boundary.antt =====
-- What the planner requires, the boundaries check.
use abrolia.Common.{
  ℕ, ◌≡◌, refl, Bool, true, ◌&&◌, ◌||◌, Option, some, List, [], ◌∷◌, ◌++◌, ◌⊎◌, inl, inr, arith,
  ◌==◌, select, exists, ok, if◌then◌else◌, Bool-cases, ◌-◌, sym, ap, ◌∙◌, ==_iff,
}
use abrolia.Common.Rows.{exists-append}
use abrolia.ControlPlane.Rows.{Text}
use abrolia.ControlPlane.Consent.{
  ConsentPurpose, content_restriction, household_content, channel_privacy, linked_device_risk,
  unlisted, code_of, same_purpose, is_listed, ProviderKind, required_consent_purposes, declared,
  manifest_required_purposes, Receipt, holds, assert_current_consent,
}

-- A household owes the restriction, and every purpose with a text that its manifest declares.
abbrev pub owes : Option (List ConsentPurpose) → ConsentPurpose → Bool
owes manifest p =
    same_purpose content_restriction p
    || (is_listed p && exists (same_purpose p) (declared manifest))

exists-select :
    (p : ConsentPurpose) (ps : List ConsentPurpose)
    → is_listed p ≡ true
    → exists (same_purpose p) (select is_listed ps) ≡ exists (same_purpose p) ps
exists-select p [] h = refl
exists-select p (unlisted t ∷ qs) h = ground (arith, exists-select p qs h)
exists-select p (content_restriction ∷ qs) h = ground (arith, exists-select p qs h)
exists-select p (household_content ∷ qs) h = ground (arith, exists-select p qs h)
exists-select p (channel_privacy ∷ qs) h = ground (arith, exists-select p qs h)
exists-select p (linked_device_risk ∷ qs) h = ground (arith, exists-select p qs h)

purpose_of : ℕ → ConsentPurpose
purpose_of n =
    if n == 0
    then content_restriction
    else if n == 1
    then household_content
    else if n == 2
    then channel_privacy
    else if n == 3
    then linked_device_risk
    else unlisted (n - 4)

purpose_of-code_of : (p : ConsentPurpose) → purpose_of (code_of p) ≡ p
unfolding purpose_of
purpose_of-code_of content_restriction = refl
purpose_of-code_of household_content = refl
purpose_of-code_of channel_privacy = refl
purpose_of-code_of linked_device_risk = refl
purpose_of-code_of (unlisted t) = ground arith

same_purpose_eq : (p q : ConsentPurpose) → same_purpose p q ≡ true → p ≡ q
same_purpose_eq p q h =
    sym (purpose_of-code_of p)
    ∙ ap purpose_of ((==_iff (code_of p) (code_of q)).0 h)
    ∙ purpose_of-code_of q

module _ (sha : ConsentPurpose → Text) (household_id : Text) (receipts : List Receipt) where
  asserted-holds :
      (p : ConsentPurpose) (ps : List ConsentPurpose)
      → assert_current_consent sha household_id receipts ps ≡ ok tt
      → exists (same_purpose p) ps ≡ true
      → holds sha household_id receipts p ≡ true
  unfolding assert_current_consent
  asserted-holds p [] h known = absurd (ground arith)
  asserted-holds p (q ∷ qs) h known = elim (Bool-cases (same_purpose p q)) [
    | inl same ↦ rw (same_purpose_eq p q same) (ground arith)
    | inr apart ↦ asserted-holds p qs (ground arith) (ground arith)
  ]

-- A listed purpose that is declared, or any purpose where the restriction is declared or added.
required_or_added :
    (p : ConsentPurpose) (purposes : List ConsentPurpose)
    → (exists (same_purpose p) purposes ≡ true) ⊎ (same_purpose content_restriction p ≡ true)
    → exists (same_purpose p) (
        if exists (same_purpose content_restriction) purposes
        then purposes
        else purposes ++ content_restriction ∷ [])
      ≡ true
required_or_added p purposes (inl known) =
    ground (arith, exists-append (same_purpose p) purposes (content_restriction ∷ []))
required_or_added p purposes (inr same) =
    rw (same_purpose_eq content_restriction p same)
      (ground (arith, exists-append (same_purpose p) purposes (content_restriction ∷ [])))

exists-owes :
    (manifest : Option (List ConsentPurpose)) (p : ConsentPurpose)
    → owes manifest p ≡ true
    → exists (same_purpose p) (manifest_required_purposes manifest) ≡ true
unfolding manifest_required_purposes
exists-owes manifest p h =
    required_or_added p (select is_listed (declared manifest))
      (elim (Bool-cases (same_purpose content_restriction p)) [
        | inl same ↦ inr same
        | inr apart ↦ inl (ground (arith, exists-select p (declared manifest)))
      ])

-- Where `assert_current_consent` passes for the purposes that `manifest_required_purposes` reads from a
-- manifest, the household has a current receipt, unrevoked and at the present text, of the restriction
-- and of every listed purpose that the manifest declares, whatever the manifest.
pub assert_current_consent-manifest_required_purposes :
    (sha : ConsentPurpose → Text) (household_id : Text) (receipts : List Receipt)
    (manifest : Option (List ConsentPurpose))
    → assert_current_consent sha household_id receipts (manifest_required_purposes manifest) ≡ ok tt
    → (p : ConsentPurpose) → owes manifest p ≡ true
    → holds sha household_id receipts p ≡ true
assert_current_consent-manifest_required_purposes sha household_id receipts manifest h p owed =
    asserted-holds sha household_id receipts p (manifest_required_purposes manifest) h
      (exists-owes manifest p owed)

-- The set that the planner requires is the set that the boundaries read back from the manifest that
-- declares it, in the same order, for every provider and every use of WhatsApp.
pub manifest_required_purposes-required_consent_purposes :
    (kind : Option ProviderKind) (dedicated enabled : Bool)
    → manifest_required_purposes (some (required_consent_purposes kind dedicated enabled))
      ≡ required_consent_purposes kind dedicated enabled
unfolding manifest_required_purposes required_consent_purposes
manifest_required_purposes-required_consent_purposes kind dedicated enabled = ground arith
