-- ===== src/Runtime/RunContext.antt =====
-- hermes_cloud/core/runcontext.py: who may do what in one turn. Actor and chat ids are lists of
-- code points; a household's sets are lists, of which only membership counts.
pub mod Rights
use abrolia.Common.{
  ℕ, Bool, true, false, not, ◌&&◌, ◌||◌, Option, none, some, List, [], ◌∷◌, if◌then◌else◌, ◌==◌,
  length, exists, Result, ok, err,
}

-- The capability names.
pub data Capability : Type 0 where
  read_tasks read_calendar read_email read_memory : Capability
  write_reminder write_calendar write_memory write_email write_whatsapp : Capability
  data_export data_delete : Capability

pub data Role : Type 0 where
  owner family guest unknown : Role

pub data Scope : Type 0 where
  personal shared : Scope

-- ALL_READ
abbrev pub is_read : Capability → Bool
is_read read_tasks = true
is_read read_calendar = true
is_read read_email = true
is_read read_memory = true
is_read _ = false

-- ALL_WRITE
abbrev pub is_write : Capability → Bool
is_write c = not (is_read c)

-- {DATA_EXPORT, DATA_DELETE}
abbrev pub is_of_owner : Capability → Bool
is_of_owner data_export = true
is_of_owner data_delete = true
is_of_owner _ = false

-- The read half of ROLE_CAPS.
abbrev pub read_caps : Role → Capability → Bool
read_caps owner c = is_read c
read_caps family c = is_read c
read_caps guest read_tasks = true
read_caps guest read_calendar = true
read_caps guest c = false
read_caps unknown c = false

-- The mutating half of ROLE_CAPS.
abbrev pub mutate_caps : Role → Capability → Bool
mutate_caps owner c = is_write c
mutate_caps family c = is_write c && not (is_of_owner c)
mutate_caps guest c = false
mutate_caps unknown c = false

abbrev pub Name : Type 0
Name = List ℕ

-- Python's `==` on strings.
abbrev pub same_text : Name → Name → Bool
same_text [] [] = true
same_text [] (d ∷ ds) = false
same_text (c ∷ cs) [] = false
same_text (c ∷ cs) (d ∷ ds) = c == d && same_text cs ds

-- `Household`: `owner` is NULL or a string that may be empty; `verified_bindings` is None in a legacy
-- configuration.
pub record Household : Type 0 where
  pub household_id : Name
  pub owner_id : Option Name
  pub family_ids : List Name
  pub guest_ids : List Name
  pub allowed_chats : List Name
  pub verified_bindings : Option (List (Name × Name))

-- `self.owner and actor == self.owner`
abbrev pub is_owner : Option Name → Name → Bool
is_owner none actor = false
is_owner (some o) actor = not (length o == 0) && same_text actor o

abbrev pub member : Name → List Name → Bool
member actor ids = exists (same_text actor) ids

unfoldable pub role_for : Household → Name → Role
role_for h actor =
    if is_owner h.owner_id actor
    then owner
    else if member actor h.family_ids
    then family
    else if member actor h.guest_ids
    then guest
    else unknown

unfoldable pub knows_chat : Household → Name → Bool
knows_chat h chat = not (length h.allowed_chats == 0) && member chat h.allowed_chats

abbrev pub has_pair : Name → Name → List (Name × Name) → Bool
has_pair actor chat pairs = exists (λ pair. same_text actor pair.0 && same_text chat pair.1) pairs

abbrev pub bound : Bool → Name → Name → Option (List (Name × Name)) → Bool
bound chat_known actor chat none = chat_known
bound chat_known actor chat (some pairs) = has_pair actor chat pairs

unfoldable pub knows_binding : Household → Name → Name → Bool
unfolding knows_chat
knows_binding h actor chat = bound (knows_chat h chat) actor chat h.verified_bindings

-- `RunContext`. The sets of capabilities are their membership tests.
pub record RunContext : Type 0 where
  pub household_id : Name
  pub actor_id : Name
  pub chat_id : Name
  pub thread_id : Option ℕ
  pub role : Role
  pub scope : Scope
  pub can_read : Capability → Bool
  pub can_mutate : Capability → Bool
  pub run_id : Name

abbrev pub is_known : RunContext → Bool
is_known context = elim context.role [ unknown ↦ false | _ ↦ true ]

unfoldable pub can : RunContext → Capability → Bool
can context c = context.can_read c || context.can_mutate c

-- CapabilityDenied, with its capability and role.
pub data Denied : Type 0 where
  denied : Capability → Role → Denied

unfoldable pub require : RunContext → Capability → Result Denied (Unit {0})
unfolding can
require context c = if can context c then ok tt else err (denied c context.role)

-- `str(chat_id).startswith("-")`
abbrev pub scope_of : Name → Scope
scope_of [] = personal
scope_of (c ∷ cs) = if c == b'-' then shared else personal

-- `run_id or new_id()`
abbrev pub run_or_fresh : Option Name → Name → Name
run_or_fresh none fresh = fresh
run_or_fresh (some k) fresh = if length k == 0 then fresh else k

unfoldable pub turn_role : Household → Name → Name → Role
unfolding role_for knows_binding
turn_role h actor chat = if knows_binding h actor chat then role_for h actor else unknown

unfoldable pub build_run_context :
    Household → Name → Name → Option ℕ → Option Name → Name → RunContext
unfolding turn_role
build_run_context h actor chat thread run_id fresh = record {
  household_id = h.household_id;
  actor_id = actor;
  chat_id = chat;
  thread_id = thread;
  role = turn_role h actor chat;
  scope = scope_of chat;
  can_read = read_caps (turn_role h actor chat);
  can_mutate = mutate_caps (turn_role h actor chat);
  run_id = run_or_fresh run_id fresh;
}
