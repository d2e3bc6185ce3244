-- ===== src/ControlPlane/RateLimit.antt =====
-- control_plane/auth/rate_limit.py: limits by fixed windows. `bucket` is the digest of the kind and
-- the identifier, and `now` the resolved time of the call.
pub mod Window
use abrolia.Common.{
  ℕ, Bool, true, false, Option, none, some, List, [], ◌∷◌, ◌++◌, ◌+◌, if◌then◌else◌, leb, ◌==◌,
  find, exists, update_where, Action, pure, raise, modify,
}
use abrolia.ControlPlane.Schema.{Text, Time, Bucket, Db, Error, rate_limit_exceeded}

abbrev pub get_bucket : Text → Db → Option Bucket
get_bucket bucket db = find (λ b. b.bucket_hmac == bucket) db.rate_limit_buckets

abbrev pub new_bucket : Text → Text → Time → Bucket
new_bucket bucket kind now = record {
  bucket_hmac = bucket;
  kind = kind;
  window_started_at = now;
  attempts = 1;
  updated_at = now;
}

abbrev pub restarted_row : Text → Time → Bucket → Bucket
restarted_row kind now b = record b {
  kind = kind;
  window_started_at = now;
  attempts = 1;
  updated_at = now;
}

abbrev pub counted_row : Time → Bucket → Bucket
counted_row now b = record b { attempts = b.attempts + 1; updated_at = now }

abbrev pub update_bucket : Text → (Bucket → Bucket) → Db → Db
update_bucket bucket f db = record db {
  rate_limit_buckets = update_where (λ b. b.bucket_hmac == bucket) f db.rate_limit_buckets;
}

-- INSERT … ON CONFLICT (bucket_hmac) DO UPDATE
unfoldable pub start_window : Text → Text → Time → Db → Db
start_window bucket kind now db =
    if exists (λ b. b.bucket_hmac == bucket) db.rate_limit_buckets
    then update_bucket bucket (restarted_row kind now) db
    else record db { rate_limit_buckets = db.rate_limit_buckets ++ new_bucket bucket kind now ∷ [] }

unfoldable pub check_row : Option Bucket → Text → Text → ℕ → ℕ → Time → Action Error Db (Unit {0})
unfolding start_window
check_row none bucket kind limit window_seconds now db = modify (start_window bucket kind now) db
check_row (some row) bucket kind limit window_seconds now db =
    if leb (row.window_started_at + window_seconds) now
    then modify (start_window bucket kind now) db
    else if leb limit row.attempts
    then raise rate_limit_exceeded db
    else modify (update_bucket bucket (counted_row now)) db

unfoldable pub check : Text → Text → ℕ → ℕ → Time → Action Error Db (Unit {0})
unfolding check_row
check bucket kind limit window_seconds now db =
    check_row (get_bucket bucket db) bucket kind limit window_seconds now db
