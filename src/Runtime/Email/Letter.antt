-- ===== src/Runtime/Email/Letter.antt =====
-- `Outgoing` and `validate` of hermes_cloud/execute/email_send.py. Texts are lists of code points.
use abrolia.Common.{
  ℕ, Bool, true, false, not, ◌&&◌, ◌||◌, Option, none, some, List, [], ◌∷◌, ◌+◌, ◌-◌, ◌*◌, ltb, leb,
  ◌==◌, exists, length,
}
use abrolia.Runtime.Schema.{Text}
use abrolia.Runtime.Approvals.Code.{is_space, strip}

abbrev pub max_subject : ℕ
max_subject = 200

abbrev pub max_body : ℕ
max_body = 20000

abbrev pub max_attachment_bytes : ℕ
max_attachment_bytes = 10 * 1024 * 1024

abbrev pub max_attachment_total_bytes : ℕ
max_attachment_total_bytes = 20 * 1024 * 1024

abbrev pub max_attachment_count : ℕ
max_attachment_count = 10

-- ALLOWED_ATTACHMENT_TYPES; `unlisted` is any other content type.
pub data ContentType : Type 0 where
  pdf jpeg png plain unlisted : ContentType

abbrev pub is_allowed : ContentType → Bool
is_allowed unlisted = false
is_allowed _ = true

-- `OutgoingAttachment`, with the number of bytes that its base64 decodes to, none where it does not.
pub record OutgoingAttachment : Type 0 where
  pub filename : List ℕ
  pub content_type : ContentType
  pub content_size : Option ℕ

pub record Outgoing : Type 0 where
  pub to : List ℕ
  pub subject : List ℕ
  pub body : List ℕ
  pub in_reply_to : Option (List ℕ)
  pub references : Option (List ℕ)
  pub from_identity_id : Option Text
  pub binding_revision : Option ℕ
  pub from_address : Option Text
  pub attachments : List OutgoingAttachment

-- [^@\s,;<>]
abbrev pub is_atom : ℕ → Bool
is_atom c = not (c == b'@' || is_space c || c == b',' || c == b';' || c == b'<' || c == b'>')

abbrev pub is_letter : ℕ → Bool
is_letter c = (leb b'A' c && leb c b'Z') || (leb b'a' c && leb c b'z')

-- `$` stands at the end, or before a line feed at the end.
abbrev pub at_end : List ℕ → Bool
at_end [] = true
at_end (c ∷ []) = c == 10
at_end (c ∷ (d ∷ cs)) = false

-- [A-Za-z]{n}$
unfoldable pub is_tld : ℕ → List ℕ → Bool
is_tld n [] = n == 0
is_tld n (c ∷ cs) =
    let rest = is_tld (n - 1) cs in (n == 0 && at_end (c ∷ cs)) || (is_letter c && rest)

-- [^@\s,;<>]+\.[A-Za-z]{2}$, where `begun` says that an atom stands before.
unfoldable pub is_domain : Bool → List ℕ → Bool
unfolding is_tld
is_domain begun [] = false
is_domain begun (c ∷ cs) = (begun && (c == b'.' && is_tld 2 cs)) || (is_atom c && is_domain true cs)

-- _ADDRESS
unfoldable pub is_address : Bool → List ℕ → Bool
unfolding is_domain
is_address begun [] = false
is_address begun (c ∷ cs) =
    (begun && (c == b'@' && is_domain false cs)) || (is_atom c && is_address true cs)

abbrev pub has_char : ℕ → List ℕ → Bool
has_char c cs = exists (λ d. d == c) cs

-- `"\n" in value or "\r" in value`
abbrev pub is_injection : List ℕ → Bool
is_injection cs = has_char 10 cs || has_char 13 cs

abbrev pub or_empty : Option (List ℕ) → List ℕ
or_empty none = []
or_empty (some cs) = cs

abbrev pub is_blank : List ℕ → Bool
unfolding strip
is_blank cs = length (strip cs) == 0

abbrev pub same_text : List ℕ → List ℕ → Bool
same_text [] [] = true
same_text [] (d ∷ ds) = false
same_text (c ∷ cs) [] = false
same_text (c ∷ cs) (d ∷ ds) = c == d && same_text cs ds

abbrev pub is_bad_filename : List ℕ → Bool
is_bad_filename name =
    length name == 0
    || same_text name (b'.' ∷ [])
    || same_text name (b'.' ∷ b'.' ∷ [])
    || has_char b'/' name
    || has_char 92 name
    || is_injection name

abbrev pub is_bad_size : Option ℕ → Bool
is_bad_size none = true
is_bad_size (some n) = n == 0 || ltb max_attachment_bytes n

abbrev pub size_of : Option ℕ → ℕ
size_of none = 0
size_of (some n) = n

-- The loop over the attachments, with the total so far.
unfoldable pub valid_attachments : List OutgoingAttachment → ℕ → Bool
valid_attachments [] total = not (ltb max_attachment_total_bytes total)
valid_attachments (a ∷ rest) total =
    not (is_bad_filename a.filename)
    && (is_allowed a.content_type
        && (not (is_bad_size a.content_size)
            && valid_attachments rest (total + size_of a.content_size)))

-- `validate`: true where it returns, false where it raises EmailRejected.
unfoldable pub validate : Outgoing → Bool
unfolding is_address valid_attachments
validate letter =
    is_address false letter.to
    && not (
        is_injection letter.to
        || is_injection letter.subject
        || is_injection (or_empty letter.in_reply_to))
    && not (is_blank letter.subject)
    && leb (length letter.subject) max_subject
    && not (is_blank letter.body)
    && leb (length letter.body) max_body
    && leb (length letter.attachments) max_attachment_count
    && valid_attachments letter.attachments 0
