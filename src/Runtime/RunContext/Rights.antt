-- ===== src/Runtime/RunContext/Rights.antt =====
-- What a turn may do, and for whom.
use abrolia.Common.{ℕ, ◌≡◌, refl, Bool, true, false, ◌||◌, Option, err, arith, ◌⊎◌}
use abrolia.Runtime.RunContext.{
  Capability, read_tasks, read_calendar, Role, owner, guest, unknown, is_write, is_of_owner,
  read_caps, mutate_caps, Name, Household, is_owner, role_for, knows_binding, can, denied, require,
  turn_role, build_run_context,
}

role_can : Role → Capability → Bool
role_can r c = read_caps r c || mutate_caps r c

-- Only the owner's row of ROLE_CAPS has the owner's operations.
of_owner_row : (r : Role) (c : Capability) → is_of_owner c ≡ true → role_can r c ≡ true → r ≡ owner
unfolding role_can
of_owner_row r c h k = ground arith

guest_row : (c : Capability) → mutate_caps guest c ≡ false
guest_row c = ground arith

unknown_row : (c : Capability) → role_can unknown c ≡ false
unfolding role_can
unknown_row c = refl

role_for_owner :
    (h : Household) (actor : Name) → role_for h actor ≡ owner → is_owner h.owner_id actor ≡ true
unfolding role_for
role_for_owner h actor e = ground arith

module _ (h : Household) (actor chat : Name) (thread : Option ℕ) (run_id : Option Name)
    (fresh : Name) where
  -- In a context that `build_run_context` makes, `require` of exporting or of deleting the
  -- household's data passes only where the actor is the household's configured, nonempty owner id and
  -- the binding of the actor and the chat is known; otherwise it raises CapabilityDenied.
  pub require-owner :
      (c : Capability)
      → is_of_owner c ≡ true
      → (require (build_run_context h actor chat thread run_id fresh) c
          ≡ err (denied c (turn_role h actor chat)))
        ⊎ ((is_owner h.owner_id actor ≡ true) × (knows_binding h actor chat ≡ true))
  unfolding require build_run_context turn_role can
  require-owner c own =
      ground (arith, of_owner_row (role_for h actor) c own, role_for_owner h actor)

  -- Where the binding of the actor and the chat is not known, or the actor has no role, a context
  -- that `build_run_context` makes has no capability, and `require` raises for every one.
  pub unknown_denied :
      (knows_binding h actor chat ≡ false) ⊎ (role_for h actor ≡ unknown)
      → (c : Capability)
      → (can (build_run_context h actor chat thread run_id fresh) c ≡ false)
        × (require (build_run_context h actor chat thread run_id fresh) c ≡ err (denied c unknown))
  unfolding require build_run_context turn_role can
  unknown_denied reason c = ground arith

  -- A guest reads at most tasks and the calendar and mutates nothing, in whatever chat.
  pub guest_reads :
      role_for h actor ≡ guest
      → (c : Capability) → can (build_run_context h actor chat thread run_id fresh) c ≡ true
      → (is_write c ≡ false) × ((c ≡ read_tasks) ⊎ (c ≡ read_calendar))
  unfolding build_run_context turn_role can
  guest_reads is_guest c allowed = ground arith
