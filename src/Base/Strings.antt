-- ===== src/Base/Strings.antt =====
-- Go's `strings`, on bytes. Letters and white space are those of ASCII.
use Prim.Native.Nat.{ℕ, zero, suc, ◌+◌, ◌-◌, ◌/◌, ◌%◌}
use mathlib.Core.Bool.{Bool, true, false, ◌&&◌, ◌||◌}
use mathlib.Core.List.{List, [], ◌∷◌, ◌++◌, map, reverse}
use mathlib.Core.Option.{Option, none, some}
use mathlib.Core.Option
use regbot.Base.Tests.{ltb, leb, ◌==◌, if◌then◌else◌}
use regbot.Base.Text.{Str}

abbrev pub is_lower : ℕ → Bool
is_lower c = leb b'a' c && leb c b'z'

abbrev pub is_upper : ℕ → Bool
is_upper c = leb b'A' c && leb c b'Z'

abbrev pub is_alpha : ℕ → Bool
is_alpha c = is_lower c || is_upper c

abbrev pub is_alphanumeric : ℕ → Bool
is_alphanumeric c = is_alpha c || (leb b'0' c && leb c b'9')

-- `strings.ToLower`
abbrev pub to_lower : Str → Str
to_lower = map (λ c. if is_upper c then c + 32 else c)

-- What follows a prefix.
abbrev pub cut_prefix : Str → Str → Option Str
cut_prefix [] s = some s
cut_prefix (c ∷ cs) [] = none
cut_prefix (c ∷ cs) (d ∷ s) = if c == d then cut_prefix cs s else none

-- `strings.HasPrefix(s, prefix)`
abbrev pub has_prefix : Str → Str → Bool
has_prefix s prefix = elim (cut_prefix prefix s) [ none ↦ false | some rest ↦ true ]

-- `strings.Contains(s, part)`
abbrev pub contains : Str → Str → Bool
contains [] part = has_prefix [] part
contains (c ∷ s) part = has_prefix (c ∷ s) part || contains s part

-- `strings.Index(s, sep)` at a byte; `none` is -1.
abbrev pub index_of : ℕ → Str → Option ℕ
index_of sep [] = none
index_of sep (c ∷ s) = if c == sep then some 0 else Option.map suc (index_of sep s)

-- `s[:n]` and `s[n:]`
abbrev pub take : ℕ → Str → Str
take zero s = []
take (suc n) [] = []
take (suc n) (c ∷ s) = c ∷ take n s

abbrev pub drop : ℕ → Str → Str
drop zero s = s
drop (suc n) [] = []
drop (suc n) (c ∷ s) = drop n s

-- `s[from:to]`
abbrev pub slice : ℕ → ℕ → Str → Str
slice from to s = take (to - from) (drop from s)

abbrev drop_while : (ℕ → Bool) → Str → Str
drop_while p [] = []
drop_while p (c ∷ s) = if p c then drop_while p s else c ∷ s

-- `strings.TrimFunc`
unfoldable pub trim : (ℕ → Bool) → Str → Str
trim p s = reverse (drop_while p (reverse (drop_while p s)))

abbrev pub is_space : ℕ → Bool
is_space c = c == b' ' || (leb 9 c && leb c 13)

-- `strings.TrimSpace`
abbrev pub trim_space : Str → Str
trim_space = trim is_space

-- `strings.TrimRight(s, "/")` and the like
unfoldable pub trim_right : ℕ → Str → Str
trim_right c s = reverse (drop_while (λ d. d == c) (reverse s))

-- `strings.Join(parts, sep)` at a byte.
abbrev pub join : ℕ → List Str → Str
join sep [] = []
join sep (p ∷ []) = p
join sep (p ∷ q ∷ ps) = p ++ sep ∷ join sep (q ∷ ps)

abbrev hex_digit : ℕ → ℕ
hex_digit n = if ltb n 10 then b'0' + n else b'A' + (n - 10)

-- The bytes that a path segment of a URL may hold as they are.
abbrev is_segment_byte : ℕ → Bool
is_segment_byte c =
    is_alphanumeric c
    || (c == b'-'
        || (c == b'_'
            || (c == b'.'
                || (c == b'~'
                    || (c == b'$'
                        || (c == b'&'
                            || (c == b'+' || (c == b':' || (c == b'=' || c == b'@')))))))))

-- `url.PathEscape`
unfoldable pub path_escape : Str → Str
path_escape [] = []
path_escape (c ∷ s) =
    if is_segment_byte c
    then c ∷ path_escape s
    else b'%' ∷ hex_digit (c / 16) ∷ hex_digit (c % 16) ∷ path_escape s
