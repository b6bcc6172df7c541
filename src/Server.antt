-- ===== src/Server.antt =====
-- `validateBinding` and `authorized` of internal/server/server.go. Go's `net.SplitHostPort`, and whether
-- a host is the text of a loopback address, are parameters.
pub mod Run
pub mod Turns
pub mod Serving
pub mod Routes
use regbot.Base.{
  Bool, true, false, not, ◌||◌, [], ◌∷◌, Str, Option, none, some, Result, ok, err, codes, str_eq,
  is_empty, if◌then◌else◌,
}

pub data BindingError : Type 0 where
  bad_address token_required : BindingError

unfoldable pub validate_binding :
    (Str → Option Str) → (Str → Bool) → Str → Str → Result BindingError (Unit {0})
validate_binding host_of is_loopback address token = elim (host_of address) [
  | none ↦ err bad_address
  | some host ↦
      if not (is_empty token) || str_eq host (codes "localhost")
      then ok tt
      else if is_loopback host
      then ok tt
      else err token_required
]

-- A text behind a prefix.
abbrev pub behind : Str → Str → Option Str
behind [] s = some s
behind (c ∷ cs) [] = none
behind (c ∷ cs) (d ∷ s) = if str_eq (c ∷ []) (d ∷ []) then behind cs s else none

abbrev pub bearer : Str
bearer = codes "Bearer "

-- `header` is the value of the header Authorization, empty if there is none.
unfoldable pub authorized : Str → Str → Bool
authorized header token =
    if is_empty token
    then true
    else elim (behind bearer header) [ none ↦ false | some given ↦ str_eq given token ]
