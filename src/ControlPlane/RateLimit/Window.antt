-- ===== src/ControlPlane/RateLimit/Window.antt =====
-- How often a bucket lets a caller through in one window.
use abrolia.Common.{ℕ, ◌≡◌, ◌≤◌, ◌<◌, ◌+◌, Bool, none, some, [], ◌∷◌, ◌==◌, arith, ok, err}
use abrolia.Common.Rows.{find-update_where, find-test, find-append, find-exists}
use abrolia.ControlPlane.Schema.{Text, Time, Bucket, Db, rate_limit_exceeded}
use abrolia.ControlPlane.RateLimit.{
  get_bucket, new_bucket, restarted_row, counted_row, start_window, check_row, check,
}

abbrev pub bucket_is : Text → Bucket → Bool
bucket_is k b = b.bucket_hmac == k

-- `check` lets a caller through when the bucket is new or its window is over, and then the window
-- starts now with one attempt; within the window it lets the caller through and counts the attempt
-- where fewer than `limit` are counted, and otherwise raises and changes nothing.
pub check_lem :
    (bucket kind : Text) (limit window_seconds : ℕ) (now : Time) (db : Db)
    → let (result, db') = check bucket kind limit window_seconds now db in
      (get_bucket bucket db ≡ none
        → (result ≡ ok tt) × (get_bucket bucket db' ≡ some (new_bucket bucket kind now)))
      × ((b : Bucket)
          → get_bucket bucket db ≡ some b
          → b.window_started_at + window_seconds ≤ now
          → (result ≡ ok tt) × (get_bucket bucket db' ≡ some (restarted_row kind now b)))
      × ((b : Bucket)
          → get_bucket bucket db ≡ some b
          → now < b.window_started_at + window_seconds
          → b.attempts < limit
          → (result ≡ ok tt) × (get_bucket bucket db' ≡ some (counted_row now b)))
      × ((b : Bucket)
          → get_bucket bucket db ≡ some b
          → now < b.window_started_at + window_seconds
          → limit ≤ b.attempts
          → (result ≡ err rate_limit_exceeded) × (db' ≡ db))
unfolding check check_row start_window
check_lem bucket kind limit window_seconds now db =
    let restarted =
      find-update_where (bucket_is bucket) (bucket_is bucket) (restarted_row kind now)
        db.rate_limit_buckets (λ r. ground arith) in
    let counted =
      find-update_where (bucket_is bucket) (bucket_is bucket) (counted_row now)
        db.rate_limit_buckets (λ r. ground arith) in
    let present = find-exists (bucket_is bucket) db.rate_limit_buckets in
    let last =
      find-append (bucket_is bucket) db.rate_limit_buckets (new_bucket bucket kind now ∷ []) in
    (
      λ new. (ground (arith, new), ground (arith, new, present, last)),
      λ b found over.
          let named = find-test (bucket_is bucket) db.rate_limit_buckets b found in
          (ground (arith, found, over), ground (arith, found, over, present, restarted, named)),
      λ b found within fewer.
          let named = find-test (bucket_is bucket) db.rate_limit_buckets b found in
          (
            ground (arith, found, within, fewer),
            ground (arith, found, within, fewer, counted, named),
          ),
      λ b found within full.
          (ground (arith, found, within, full), ground (arith, found, within, full)),
    )
