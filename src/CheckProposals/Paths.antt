-- ===== src/CheckProposals/Paths.antt =====
-- services/check_proposal_gate.py: which paths of proposals are safe.
use Prim.Native.Char.{code}
use Prim.Native.String
use hungerloop.Prelude.{
  String, Bool, false, ◌||◌, Option, none, some, List, [], ◌∷◌, ◌==◌, nat_eq, string_eq,
  if◌then◌else◌, contains, ◌≡◌, arith,
}
use hungerloop.Models.Synthesis.{replace_backslashes}

-- Absolute on POSIX or on Windows.
unfoldable pub is_absolute_path : String → Bool
is_absolute_path String.[] = false
is_absolute_path (String.◌∷◌ c String.[]) = code c == b'/' || code c == 92
is_absolute_path (String.◌∷◌ c (String.◌∷◌ d s)) = code c == b'/' || code c == 92 || code d == b':'

with_head : String → List String → List String
with_head c [] = c ∷ []
with_head c (part ∷ parts) = String.◌++◌ c part ∷ parts

-- `normalized.split("/")`
unfoldable pub split_slashes : String → List String
unfolding with_head
split_slashes String.[] = String.[] ∷ []
split_slashes (String.◌∷◌ c s) =
    let rest = split_slashes s in
    if code c == b'/' then String.[] ∷ rest else with_head (String.◌∷◌ c String.[]) rest

unfoldable pub has_traversal : String → Bool
has_traversal path = contains (split_slashes (replace_backslashes path)) ".."

unfoldable pub has_nul : String → Bool
has_nul String.[] = false
has_nul (String.◌∷◌ c s) = code c == 0 || has_nul s

unfoldable pub is_unsafe_path : String → Option String
is_unsafe_path path =
    if has_nul path
    then some "unsafe_path:nul_byte"
    else if is_absolute_path path
    then some "unsafe_path:absolute"
    else if has_traversal path
    then some "unsafe_path:traversal"
    else none

-- A path below the directory it is read from: without a NUL, not absolute, and without a part that
-- goes up.
pub record IsSafePath (path : String) : Type 0 where
  pub nul : has_nul path ≡ false
  pub relative : is_absolute_path path ≡ false
  pub down : contains (split_slashes (replace_backslashes path)) ".." ≡ false

pub is_unsafe_path-none : (path : String) → is_unsafe_path path ≡ none → IsSafePath path
unfolding is_unsafe_path has_traversal
is_unsafe_path-none path h = record {
  nul = ground (arith, h);
  relative = ground (arith, h);
  down = ground (arith, h);
}
