-- ===== src/Runtime/Approvals/Code.antt =====
-- The one-time code of hermes_cloud/core/approvals.py: `code.strip().lower()` and CODE_RE.
use abrolia.Common.{
  ℕ, ◌+◌, Bool, true, ◌&&◌, ◌||◌, List, [], ◌∷◌, reverse, map, if◌then◌else◌, leb, ◌==◌, length,
}

-- The characters that Python's `str.strip` removes.
abbrev pub is_space : ℕ → Bool
is_space c =
    (leb 9 c && leb c 13)
    || (leb 28 c && leb c 32)
    || c == 0x85
    || c == 0xa0
    || c == 0x1680
    || (leb 0x2000 c && leb c 0x200a)
    || c == 0x2028
    || c == 0x2029
    || c == 0x202f
    || c == 0x205f
    || c == 0x3000

unfoldable pub lstrip : List ℕ → List ℕ
lstrip [] = []
lstrip (c ∷ cs) = if is_space c then lstrip cs else c ∷ cs

unfoldable pub strip : List ℕ → List ℕ
unfolding lstrip
strip cs = reverse (lstrip (reverse (lstrip cs)))

-- `str.lower` at an ASCII letter. The lower case of any other character has no character of
-- CODE_RE in it, and none is one, so that it is left alone decides no match.
abbrev pub lower_char : ℕ → ℕ
lower_char c = if leb b'A' c && leb c b'Z' then c + 32 else c

unfoldable pub normalize : List ℕ → List ℕ
unfolding strip
normalize cs = map lower_char (strip cs)

abbrev pub is_hex : ℕ → Bool
is_hex c = (leb b'0' c && leb c b'9') || (leb b'a' c && leb c b'f')

abbrev pub all_hex : List ℕ → Bool
all_hex [] = true
all_hex (c ∷ cs) = is_hex c && all_hex cs

-- CODE_RE on a text that ends in no line break, as a stripped one does.
unfoldable pub matches_code : List ℕ → Bool
matches_code cs = length cs == 16 && all_hex cs
