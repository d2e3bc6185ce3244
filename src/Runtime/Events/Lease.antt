-- ===== src/Runtime/Events/Lease.antt =====
-- The order and the exclusion that the lease of an event keeps, within a context and over all.
use abrolia.Common.{
  ℕ, ◌≤◌, ◌≡◌, true, false, ◌&&◌, Option, none, some, List, ◌==◌, arith, ok, update_where,
  count_where, first_by, All, All-map, Option-cases, ◌⊎◌, inl, inr, same_option, same_option_iff,
  ap,
}
use abrolia.Common.Rows.{find-update_where}
use abrolia.Common.Keys.{Distinct}
use abrolia.Common.First.{first_by-test, first_by-least, first_by-key}
use abrolia.Runtime.Schema.{Text, Time, Event, Db}
use abrolia.Runtime.Events.{
  is_held, same_context, busy, is_open, is_available, earlier, leased_row, lease,
}

-- The primary key of the table `events`.
abbrev pub HasKey : Db → Type 0
HasKey db = Distinct (λ (e : Event). e.id) db.events

-- How many events of a context are in work under a lease that is live at `t`.
abbrev pub in_work : Text → Time → Db → ℕ
in_work c t db = count_where (λ e. is_held t e && same_context c e.context_key) db.events

-- From `now` on, no context has two events in work.
abbrev pub IsExclusive : Time → Db → Type 0
IsExclusive now db = (c : Text) (t : Time) → now ≤ t → in_work c t db ≤ 1

earlier_trans : (a b c : Event) → earlier a b ≡ true → earlier b c ≡ true → earlier a c ≡ true
earlier_trans a b c h k = ground arith

earlier_total : (a b : Event) → earlier a b ≡ false → earlier b a ≡ true
earlier_total a b h = ground arith

module _ (now : Time) (events : List Event) where
  busy_same :
      (c c' : Option Text) → same_option c c' ≡ true → busy now events c ≡ busy now events c'
  busy_same c c' same = ap (busy now events) ((same_option_iff c c').0 same)

module _ (worker : Text) (seconds : ℕ) (now : Time) (db : Db) where
  abbrev pub leased_db : Event → Db
  leased_db row = record db {
    events = update_where (λ e. e.id == row.id) (leased_row worker seconds now) db.events;
  }

  pub lease-none :
      first_by earlier (is_available now db.events) db.events ≡ none
      → lease worker seconds now db ≡ (ok none, db)
  unfolding lease
  lease-none none_free = ground arith

  pub lease-some :
      (row : Event)
      → HasKey db
      → first_by earlier (is_available now db.events) db.events ≡ some row
      → lease worker seconds now db ≡ (ok (some (leased_row worker seconds now row)), leased_db row)
  unfolding lease
  lease-some row key first = ground (
    arith,
    first_by-key (λ (e : Event). e.id) earlier (is_available now db.events) db.events row key first,
    find-update_where (λ (e : Event). e.id == row.id) (λ e. e.id == row.id)
        (leased_row worker seconds now) db.events (λ e. ground arith),
  )

  -- When `lease` returns an event, it was open, no other event of its context was in work, and it
  -- stands first by time of receipt and id among the events that were open and whose context had
  -- none in work. It comes back, and is stored, as processing, leased by the worker for the given
  -- seconds from now; when there is no such event `lease` returns none and changes nothing.
  pub lease_lem :
      HasKey db
      → ((lease worker seconds now db ≡ (ok none, db))
          × (first_by earlier (is_available now db.events) db.events ≡ none))
        ⊎ ((row : Event) × (lease worker seconds now db
              ≡ (ok (some (leased_row worker seconds now row)), leased_db row))
            × (is_open now row ≡ true)
            × (busy now db.events row.context_key ≡ false)
            × All (λ e. is_available now db.events e ≡ true → earlier row e ≡ true) db.events)
  lease_lem key = elim (Option-cases (first_by earlier (is_available now db.events) db.events)) [
    | inl none_free ↦ inl (lease-none none_free, none_free)
    | inr (row, first) ↦
        let fits = first_by-test earlier (is_available now db.events) db.events row first in
        inr (
          row,
          lease-some row key first,
          ground (arith, fits),
          ground (arith, fits),
          first_by-least earlier earlier_trans earlier_total (is_available now db.events) db.events
              row first,
        )
  ]

  ordered :
      (a e row : Event) (db' t : Db)
      → lease worker seconds now db ≡ (ok (some (leased_row worker seconds now row)), t)
      → lease worker seconds now db ≡ (ok (some a), db')
      → (is_available now db.events e ≡ true → earlier row e ≡ true)
      → is_open now e ≡ true
      → same_option e.context_key a.context_key ≡ true
      → busy now db.events row.context_key ≡ false
      → earlier a e ≡ true
  ordered a e row db' t did h before open_e same free =
      ground (arith, busy_same now db.events e.context_key row.context_key)

  -- Within a context, events are leased in the order of receipt: every event of the leased one's
  -- context that was open, whether new or abandoned, stands after it.
  pub lease_fifo :
      (a : Event) (db' : Db)
      → HasKey db
      → lease worker seconds now db ≡ (ok (some a), db')
      → All
          (λ e.
            is_open now e ≡ true
            → same_option e.context_key a.context_key ≡ true
            → earlier a e ≡ true)
          db.events
  lease_fifo a db' key h = elim (lease_lem key) [
    | inl (idle, e) ↦ absurd (ground arith)
    | inr (row, did, open_row, free, first) ↦
        All-map (λ e. is_available now db.events e ≡ true → earlier row e ≡ true)
          (λ e.
            is_open now e ≡ true
            → same_option e.context_key a.context_key ≡ true
            → earlier a e ≡ true)
          db.events
          (λ e before open_e same.
            ordered a e row db' (leased_db row) did h before open_e same free)
          first
  ]
