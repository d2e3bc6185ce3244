-- ===== src/Runtime/Events/Exclusion.antt =====
-- Over any sequence of operations at times that do not run backwards, a context has at most one
-- event in work.
use abrolia.Common.{
  ℕ, ◌≤◌, ◌≡◌, true, false, ◌&&◌, some, [], ◌∷◌, ◌++◌, ◌==◌, arith, exists, update_where, first_by,
  Option-cases, inl, inr, Bool-cases,
}
use abrolia.Common.Rows.{
  count_of_exists, count_where_mono, count_where-update_le, count_where-append,
}
use abrolia.Common.Keys.{Distinct-update_where, Distinct-append}
use abrolia.Common.First.{first_by-test, first_by-key, count_where-update_key}
use abrolia.Runtime.Schema.{Text, Time, Event, Db}
use abrolia.Runtime.Events.{
  is_held, same_context, busy, is_available, earlier, leased_row, lease, is_received,
}
use abrolia.Runtime.Events.Lease.{HasKey, in_work, IsExclusive, lease-none, lease-some, leased_db}

pub record IsSound (now : Time) (db : Db) : Type 0 where
  pub key : HasKey db
  pub exclusive : IsExclusive now db

held_later :
    (now t : Time) (c : Text) (e : Event)
    → now ≤ t
    → (is_held t e && same_context c e.context_key) ≡ true
    → (is_held now e && same_context c e.context_key) ≡ true
held_later now t c e h k = ground arith

-- The context of a free event has none in work, now or later.
in_work_free :
    (now t : Time) (c : Text) (db : Db) (row : Event)
    → now ≤ t
    → busy now db.events row.context_key ≡ false
    → same_context c row.context_key ≡ true
    → in_work c t db ≡ 0
in_work_free now t c db row h free same = ground (
  arith,
  count_where_mono (λ e. is_held t e && same_context c e.context_key)
      (λ e. is_held now e && same_context c e.context_key) db.events (λ e. held_later now t c e h),
  count_of_exists (λ e. is_held now e && same_context c e.context_key) db.events,
)

module _ (worker : Text) (seconds : ℕ) (now : Time) (db : Db) (row : Event)
    (sound : IsSound now db) where
  leased-IsExclusive :
      first_by earlier (is_available now db.events) db.events ≡ some row
      → IsExclusive now (leased_db worker seconds now db row)
  leased-IsExclusive first c t h =
      let fits = first_by-test earlier (is_available now db.events) db.events row first in
      let same_row =
        first_by-key (λ (e : Event). e.id) earlier (is_available now db.events) db.events row
          sound.key first in
      let counted =
        count_where-update_key (λ (e : Event). e.id)
          (λ e. is_held t e && same_context c e.context_key) (leased_row worker seconds now) row.id
          db.events row sound.key same_row in
      elim (Bool-cases (same_context c row.context_key)) [
        | inl same ↦
            ground
              (arith, counted, in_work_free now t c db row h, fits, same, sound.exclusive c t h)
        | inr other ↦ ground (arith, counted, other, sound.exclusive c t h)
      ]

pub lease-IsSound :
    (worker : Text) (seconds : ℕ) (now : Time) (db : Db)
    → IsSound now db
    → IsSound now (lease worker seconds now db).1
lease-IsSound worker seconds now db sound =
    elim (Option-cases (first_by earlier (is_available now db.events) db.events)) [
      | inl idle ↦ rw (lease-none worker seconds now db idle) sound
      | inr (row, first) ↦ rw (lease-some worker seconds now db row sound.key first) (record {
        key =
            Distinct-update_where (λ (e : Event). e.id) (λ e. e.id == row.id)
              (leased_row worker seconds now) db.events (λ e. ground arith) sound.key;
        exclusive = leased-IsExclusive worker seconds now db row sound first;
      })
    ]

-- An update that takes events out of work.
pub released :
    (k : Text) (f : Event → Event) (now : Time) (db : Db)
    → ((e : Event) → (f e).id ≡ e.id)
    → ((e : Event) (t : Time) → is_held t (f e) ≡ false)
    → IsSound now db
    → IsSound now (record db { events = update_where (λ e. e.id == k) f db.events })
released k f now db same idle sound = record {
  key =
      Distinct-update_where (λ (e : Event). e.id) (λ e. e.id == k) f db.events
        (λ e. ground (arith, same e)) sound.key;
  exclusive = λ c t h. ground (
    arith,
    sound.exclusive c t h,
    count_where-update_le (λ e. is_held t e && same_context c e.context_key) (λ e. e.id == k) f
        db.events (λ e q. ground (arith, idle e t)),
  );
}

pub grown :
    (e : Event) (now : Time) (db : Db)
    → is_received e.status ≡ true
    → exists (λ r. r.id == e.id) db.events ≡ false
    → IsSound now db
    → IsSound now (record db { events = db.events ++ e ∷ [] })
grown e now db new fresh sound = record {
  key = Distinct-append (λ (r : Event). r.id) db.events e sound.key fresh;
  exclusive = λ c t h. ground (
    arith,
    sound.exclusive c t h,
    count_where-append (λ r. is_held t r && same_context c r.context_key) db.events (e ∷ []),
  );
}
