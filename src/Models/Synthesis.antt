-- ===== src/Models/Synthesis.antt =====
-- models/synthesis.py: the proposals of checks and their keys. A parameter can be missing or of
-- another type than the check reads, since nothing protects `params` after the construction.
use Prim.Native.Char.{code}
use Prim.Native.String
use mathlib.Core.Option.{map as option_map}
use hungerloop.Prelude.{
  ℕ, zero, suc, ◌-◌, String, Bool, true, false, ◌&&◌, Option, none, some, List, [], ◌∷◌, ◌==◌,
  nat_eq, string_eq, if◌then◌else◌,
}
use hungerloop.Models.Enums.{AcceptanceCheckType}

pub data Param {ℓ} (A : Type ℓ) : Type ℓ where
  missing mistyped : Param A
  given : A → Param A

-- An element of an argv: a text or something else.
pub data Argument : Type 0 where
  text : String → Argument
  other : Argument

pub record CheckProposal : Type 0 where
  pub check_type : AcceptanceCheckType
  pub argv : Param (List Argument)
  pub path : Param String
  pub fixture_argv : Option (List Argument)

-- What the code calls of Python: `strip`, `lower` and `repr` of texts and parameters, `json.dumps`,
-- and whether `compile` takes a program.
pub record Python : Type 0 where
  pub strip : String → String
  pub lower : String → String
  pub repr_params : CheckProposal → String
  pub dumps : List (List Argument) → String
  pub compiles : String → Bool

text_length : String → ℕ
text_length String.[] = zero
text_length (String.◌∷◌ c s) = suc (text_length s)

-- `s[:n]`
unfoldable pub take_text : ℕ → String → String
take_text zero s = String.[]
take_text (suc n) String.[] = String.[]
take_text (suc n) (String.◌∷◌ c s) = String.◌∷◌ c (take_text n s)

starts_with : String → String → Bool
starts_with String.[] s = true
starts_with (String.◌∷◌ c prefix) String.[] = false
starts_with (String.◌∷◌ c prefix) (String.◌∷◌ d s) = code c == code d && starts_with prefix s

ends_with : String → String → Bool
ends_with suffix String.[] = suffix == String.[]
ends_with suffix (String.◌∷◌ c s) =
    let rest = ends_with suffix s in if suffix == String.◌∷◌ c s then true else rest

unfoldable pub replace_backslashes : String → String
replace_backslashes String.[] = String.[]
replace_backslashes (String.◌∷◌ c s) =
    String.◌∷◌ (if code c == 92 then "/" else c) (replace_backslashes s)

-- `while normalized.startswith("./"): normalized = normalized[2:]`; the flag tells that a dot was
-- read and is pending.
strip_dot_slashes : Bool → String → String
strip_dot_slashes false String.[] = String.[]
strip_dot_slashes true String.[] = "."
strip_dot_slashes false (String.◌∷◌ c s) =
    let rest = strip_dot_slashes true s in if code c == b'.' then rest else String.◌∷◌ c s
strip_dot_slashes true (String.◌∷◌ c s) =
    let rest = strip_dot_slashes false s in
    if code c == b'/' then rest else String.◌∷◌ "." (String.◌∷◌ c s)

-- `re.sub(r"/+", "/", normalized)`; the flag tells that a slash was just read.
collapse_slashes : Bool → String → String
collapse_slashes after String.[] = String.[]
collapse_slashes after (String.◌∷◌ c s) =
    let same = collapse_slashes true s in
    let rest = collapse_slashes false s in
    if code c == b'/' then (if after then same else String.◌∷◌ c same) else String.◌∷◌ c rest

rstrip_slashes : String → String
rstrip_slashes String.[] = String.[]
rstrip_slashes (String.◌∷◌ c s) =
    let rest = rstrip_slashes s in
    if code c == b'/' && rest == String.[] then String.[] else String.◌∷◌ c rest

unfoldable pub normalize_path : String → String
unfolding replace_backslashes strip_dot_slashes collapse_slashes rstrip_slashes
normalize_path path =
    let normalized = collapse_slashes false (strip_dot_slashes false (replace_backslashes path)) in
    if normalized == "/" then normalized else rstrip_slashes normalized

module _ (python : Python) where
  unfoldable pub normalize_executable : String → String
  unfolding text_length take_text starts_with ends_with
  normalize_executable name =
      let stripped = python.strip name in
      let bare =
        if ends_with ".exe" (python.lower stripped)
        then take_text (text_length stripped - 4) stripped
        else stripped in
      if starts_with "python" (python.lower bare) then "python" else python.lower bare

  -- The arguments after the first, each after a bar; none if one is blank or no text.
  unfoldable pub normalize_arguments : List Argument → Option String
  normalize_arguments [] = some String.[]
  normalize_arguments (other ∷ arguments) = none
  normalize_arguments (text s ∷ arguments) =
      let rest = normalize_arguments arguments in
      if python.strip s == ""
      then none
      else option_map (λ r. String.◌++◌ "|" (String.◌++◌ (python.strip s) r)) rest

  unfoldable pub argv_key : Param (List Argument) → String
  argv_key (given (text s ∷ arguments)) = elim (normalize_arguments arguments) [
    | none ↦ "shell_exit_zero:invalid_argv"
    | some rest ↦
        if python.strip s == ""
        then "shell_exit_zero:invalid_argv"
        else String.◌++◌ "shell_exit_zero:|" (String.◌++◌ (normalize_executable s) rest)
  ]
  argv_key _ = "shell_exit_zero:invalid_argv"

  unfoldable pub path_key : Param String → String
  path_key missing = String.◌++◌ "file_exists:" (normalize_path String.[])
  path_key mistyped = "file_exists:invalid_path"
  path_key (given path) = String.◌++◌ "file_exists:" (normalize_path path)

  -- `dedup_key` of a proposal
  unfoldable pub compute_dedup_key : CheckProposal → String
  compute_dedup_key proposal = elim proposal.check_type [
    | AcceptanceCheckType.shell_exit_zero ↦ argv_key proposal.argv
    | AcceptanceCheckType.file_exists ↦ path_key proposal.path
    | _ ↦ python.repr_params proposal
  ]
