-- ===== src/ControlPlane/Routing.antt =====
-- control_plane/bindings_resolution.py: which household holds a sender on a channel.
use abrolia.Common.{
  ◌≡◌, refl, Bool, true, false, ◌&&◌, Option, none, some, List, [], ◌∷◌, ◌++◌, ◌==◌, arith, Result,
  ok, err, same_option, is_some, if◌then◌else◌, exists, count_where, ◌≤◌, All, length,
  length-append,
}
use abrolia.ControlPlane.Schema.{
  Text, Family, Channel, telegram, whatsapp, web, Binding, Db, Error, value_error, unknown_sender,
  ambiguous_sender,
}

-- `ResolvedSender`
pub record ResolvedSender : Type 0 where
  pub household_id : Text
  pub runtime_ref : Option Text

abbrev pub same_channel : Channel → Channel → Bool
same_channel telegram telegram = true
same_channel whatsapp whatsapp = true
same_channel web web = true
same_channel _ _ = false

-- Which of the two columns is compared, and with what.
pub data Sender : Type 0 where
  by_external_id by_hmac : Text → Sender

abbrev pub matches : Sender → Binding → Bool
matches (by_external_id value) b = b.external_id == value
matches (by_hmac value) b = same_option b.external_id_hmac (some value)

-- The WHERE of `resolve_sender`.
abbrev pub routes : Channel → Sender → Binding → Bool
routes channel sender b =
    same_channel b.channel channel && (matches sender b && is_some b.published_revision)

abbrev pub family_rows : Binding → List Family → List ResolvedSender
family_rows b [] = []
family_rows b (h ∷ rest) =
    if h.id == b.household_id
    then record { household_id = b.household_id; runtime_ref = h.runtime_ref } ∷ family_rows b rest
    else family_rows b rest

-- The SELECT with its JOIN.
abbrev pub resolved_rows : Channel → Sender → List Family → List Binding → List ResolvedSender
resolved_rows channel sender families [] = []
resolved_rows channel sender families (b ∷ bs) =
    let rest = resolved_rows channel sender families bs in
    if routes channel sender b then family_rows b families ++ rest else rest

abbrev pub single : List ResolvedSender → Result Error ResolvedSender
single [] = err unknown_sender
single (r ∷ []) = ok r
single (r ∷ (s ∷ rest)) = err ambiguous_sender

-- `resolve_sender`: exactly one of the two identifiers is given.
unfoldable pub resolve_sender :
    Channel → Option Text → Option Text → Db → Result Error ResolvedSender
resolve_sender channel none none db = err value_error
resolve_sender channel (some a) (some b) db = err value_error
resolve_sender channel none (some hmac) db =
    single (resolved_rows channel (by_hmac hmac) db.households db.channel_bindings)
resolve_sender channel (some external_id) none db =
    single (resolved_rows channel (by_external_id external_id) db.households db.channel_bindings)

abbrev pub external_of : Sender → Option Text
external_of (by_external_id value) = some value
external_of (by_hmac value) = none

abbrev pub hmac_of : Sender → Option Text
hmac_of (by_external_id value) = none
hmac_of (by_hmac value) = some value

abbrev pub is_stored : List Family → Binding → Bool
is_stored families b = exists (λ h. h.id == b.household_id) families

family_rows_some :
    (b : Binding) (families : List Family)
    → is_stored families b ≡ true
    → 1 ≤ length (family_rows b families)
family_rows_some b [] h = ground arith
family_rows_some b (f ∷ families) h = ground (arith, family_rows_some b families)

count-le-resolved_rows :
    (channel : Channel) (sender : Sender) (families : List Family) (bindings : List Binding)
    → All (λ b. is_stored families b ≡ true) bindings
    → count_where (routes channel sender) bindings
      ≤ length (resolved_rows channel sender families bindings)
count-le-resolved_rows channel sender families [] h = ground arith
count-le-resolved_rows channel sender families (b ∷ bs) h =
    let rest = count-le-resolved_rows channel sender families bs h.1 in
    let some_rows = family_rows_some b families h.0 in
    let both = length-append (family_rows b families) (resolved_rows channel sender families bs) in
    ground (arith, rest, some_rows, both)

single_many : (rows : List ResolvedSender) → 2 ≤ length rows → single rows ≡ err ambiguous_sender
single_many [] h = ground arith
single_many (r ∷ []) h = ground arith
single_many (r ∷ (s ∷ rest)) h = refl

-- A sender that two or more published bindings of a channel hold is refused as ambiguous, for every
-- household that holds it, by either of the two ways to look it up. Every binding's household is
-- stored, as the foreign key makes it.
pub resolve_sender_ambiguous :
    (channel : Channel) (sender : Sender) (db : Db)
    → All (λ b. is_stored db.households b ≡ true) db.channel_bindings
    → 2 ≤ count_where (routes channel sender) db.channel_bindings
    → resolve_sender channel (external_of sender) (hmac_of sender) db ≡ err ambiguous_sender
unfolding resolve_sender
resolve_sender_ambiguous channel (by_external_id value) db stored many =
    let counted =
      count-le-resolved_rows channel (by_external_id value) db.households db.channel_bindings
        stored in
    single_many _ (ground (arith, counted, many))
resolve_sender_ambiguous channel (by_hmac value) db stored many =
    let counted =
      count-le-resolved_rows channel (by_hmac value) db.households db.channel_bindings stored in
    single_many _ (ground (arith, counted, many))
