-- ===== src/Oci/Links.antt =====
-- The small functions at the end of internal/provider/oci/oci.go.
use regbot.Base.{
  Bool, true, false, ℕ, suc, List, [], ◌∷◌, Str, Option, some, str_eq, leb, ◌==◌, if◌then◌else◌,
  index_of, slice, trim, trim_space, to_lower, join, path_escape, map,
}
use regbot.Policy.Numbers.{cut, split}

unfoldable pub escape_repository : Str → Str
unfolding path_escape
escape_repository repository = join b'/' (map path_escape (split b'/' repository))

abbrev pub first_tag : List Str → Str
first_tag [] = []
first_tag (tag ∷ tags) = tag

-- The text behind the first question mark.
unfoldable pub raw_query : Str → Str
raw_query path = let (before, query, found) = cut b'?' path in query

-- What stands before it.
unfoldable pub raw_path : Str → Str
raw_path path = let (before, query, found) = cut b'?' path in before

abbrev between : Str → Option ℕ → Option ℕ → Str
between value (some start) (some end) = if leb end start then [] else slice (suc start) end value
between value start end = []

-- The text between the first angle brackets.
unfoldable pub next_link : Str → Str
next_link value = between value (index_of b'<' value) (index_of b'>' value)

-- The pairs of a challenge, the last one first: of a key that is given twice, the map holds the last.
abbrev pub Params : Type 0
Params = List (Str × Str)

abbrev pub param : Str → Params → Str
param key [] = []
param key ((k, v) ∷ params) = if str_eq k key then v else param key params

abbrev add_part : Str × Str × Bool → Params → Params
add_part (key, value, true) params = (to_lower key, trim (λ c. c == b'"') value) ∷ params
add_part (key, value, false) params = params

add_parts : List Str → Params → Params
add_parts [] params = params
add_parts (p ∷ ps) params = add_parts ps (add_part (cut b'=' (trim_space p)) params)

unfoldable pub parse_challenge : Str → Params
unfolding add_parts
parse_challenge value = add_parts (split b',' value) []
