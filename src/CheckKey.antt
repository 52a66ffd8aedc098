-- ===== src/CheckKey.antt =====
-- Check keys, `"<item_id>:<index>"`: `make_check_key` of services/validation_gate.py and the
-- `key.split(":", 1)` by which the other services take a key apart.
pub mod Codec
use Prim.Native.Char.{Char, code}
use Prim.Native.String
use hungerloop.Prelude.{
  ℕ, zero, suc, ◌+◌, ◌-◌, ◌*◌, ◌/◌, ◌%◌, String, Bool, true, false, ◌&&◌, Option, none, some, ltb,
  leb, ◌==◌, nat_eq, if◌then◌else◌, not,
}

digit : ℕ → Char
digit zero = "0"
digit (suc zero) = "1"
digit (suc (suc zero)) = "2"
digit (suc (suc (suc zero))) = "3"
digit (suc (suc (suc (suc zero)))) = "4"
digit (suc (suc (suc (suc (suc zero))))) = "5"
digit (suc (suc (suc (suc (suc (suc zero)))))) = "6"
digit (suc (suc (suc (suc (suc (suc (suc zero))))))) = "7"
digit (suc (suc (suc (suc (suc (suc (suc (suc zero)))))))) = "8"
digit _ = "9"

-- The decimal digits of `n` before `rest`; `n + 1` rounds are enough.
print_onto : ℕ → ℕ → String → String
unfolding digit
print_onto zero n rest = rest
print_onto (suc fuel) n rest =
    let more = print_onto fuel (n / 10) (String.◌∷◌ (digit (n % 10)) rest) in
    if ltb n 10 then String.◌∷◌ (digit n) rest else more

-- `str(n)` of an index
unfoldable pub print_index : ℕ → String
unfolding print_onto
print_index n = print_onto (suc n) n String.[]

abbrev colon : Char
colon = ":"

unfoldable pub make_check_key : String → ℕ → String
unfolding print_index
make_check_key hunger_item_id check_index =
    String.◌++◌ hunger_item_id (String.◌∷◌ colon (print_index check_index))

-- `key.split(":", 1)[0]`
unfoldable pub item_of_key : String → String
item_of_key String.[] = String.[]
item_of_key (String.◌∷◌ c s) = if code c == b':' then String.[] else String.◌∷◌ c (item_of_key s)

-- `key.split(":", 1)[1]`: there is none without a colon.
after_colon : String → Option String
after_colon String.[] = none
after_colon (String.◌∷◌ c s) = if code c == b':' then some s else after_colon s

parse_from : ℕ → String → Option ℕ
parse_from acc String.[] = some acc
parse_from acc (String.◌∷◌ c s) =
    if leb b'0' (code c) && leb (code c) b'9'
    then parse_from (acc * 10 + (code c - b'0')) s
    else none

-- `int(s)` of a text of decimal digits, and a ValueError on any other text
parse_index : String → Option ℕ
unfolding parse_from
parse_index String.[] = none
parse_index (String.◌∷◌ c s) = parse_from 0 (String.◌∷◌ c s)

-- `int(key.split(":", 1)[1])`
unfoldable pub index_of_key : String → Option ℕ
unfolding after_colon parse_index
index_of_key key = elim (after_colon key) [ none ↦ none | some s ↦ parse_index s ]

-- `":" in s`
unfoldable pub has_colon : String → Bool
has_colon String.[] = false
has_colon (String.◌∷◌ c s) = if code c == b':' then true else has_colon s
