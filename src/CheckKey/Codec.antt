-- ===== src/CheckKey/Codec.antt =====
-- Check keys are taken apart into the item and the index that they were made of.
use Prim.Native.Char.{Char, code}
use Prim.Native.String
use text.Mathlib.TextLemmas.{nil-append, cons-append}
use hungerloop.Prelude.{
  ℕ, zero, suc, ◌+◌, ◌*◌, ◌/◌, ◌%◌, ◌<◌, String, false, some, ◌==◌, nat_eq, ◌≡◌, refl, arith, ◌↔◌,
  ap, Bool-cases, inl, inr,
}
use hungerloop.CheckKey.{
  digit, print_onto, print_index, colon, make_check_key, item_of_key, after_colon, parse_from,
  parse_index, index_of_key, has_colon,
}

code-digit : (d : ℕ) → d < 10 → code (digit d) ≡ 48 + d
unfolding digit
code-digit zero h = refl
code-digit (suc zero) h = refl
code-digit (suc (suc zero)) h = refl
code-digit (suc (suc (suc zero))) h = refl
code-digit (suc (suc (suc (suc zero)))) h = refl
code-digit (suc (suc (suc (suc (suc zero))))) h = refl
code-digit (suc (suc (suc (suc (suc (suc zero)))))) h = refl
code-digit (suc (suc (suc (suc (suc (suc (suc zero))))))) h = refl
code-digit (suc (suc (suc (suc (suc (suc (suc (suc zero)))))))) h = refl
code-digit (suc (suc (suc (suc (suc (suc (suc (suc (suc zero))))))))) h = refl
code-digit (suc (suc (suc (suc (suc (suc (suc (suc (suc (suc d)))))))))) h = absurd (omega arith)

parse_from-digit :
    (acc d : ℕ) (rest : String)
    → d < 10
    → parse_from acc (String.◌∷◌ (digit d) rest) ≡ parse_from (acc * 10 + d) rest
unfolding parse_from
parse_from-digit acc d rest h = ground (arith, code-digit d h)

parse_from-print_onto :
    (fuel n : ℕ) (rest : String)
    → n < fuel
    → parse_from 0 (print_onto fuel n rest) ≡ parse_from n rest
unfolding print_onto
parse_from-print_onto zero n rest h = absurd (omega arith)
parse_from-print_onto (suc fuel) n rest h = ground (
  arith,
  parse_from-digit 0 n rest,
  parse_from-print_onto fuel (n / 10) (String.◌∷◌ (digit (n % 10)) rest),
  parse_from-digit (n / 10) (n % 10) rest,
)

-- What is printed before a text is never empty.
parse_index-print_onto :
    (fuel n : ℕ) (c : Char) (s : String)
    → parse_index (print_onto fuel n (String.◌∷◌ c s))
      ≡ parse_from 0 (print_onto fuel n (String.◌∷◌ c s))
unfolding parse_index print_onto
parse_index-print_onto zero n c s = refl
parse_index-print_onto (suc fuel) n c s =
    ground (arith, parse_index-print_onto fuel (n / 10) (digit (n % 10)) (String.◌∷◌ c s))

parse_index-print_index : (n : ℕ) → parse_index (print_index n) ≡ some n
unfolding parse_index print_index print_onto parse_from
parse_index-print_index n = ground (
  arith,
  parse_index-print_onto n (n / 10) (digit (n % 10)) String.[],
  parse_from-print_onto n (n / 10) (String.◌∷◌ (digit (n % 10)) String.[]),
  parse_from-digit 0 n String.[],
  parse_from-digit (n / 10) (n % 10) String.[],
)

item-append :
    (s t : String) → has_colon s ≡ false → item_of_key (String.◌++◌ s (String.◌∷◌ colon t)) ≡ s
unfolding item_of_key has_colon
item-append String.[] t h = rw nil-append
item-append (String.◌∷◌ c s) t h = rw cons-append (ground (arith, item-append s t))

after_colon-append :
    (s t : String) → has_colon s ≡ false → after_colon (String.◌++◌ s (String.◌∷◌ colon t)) ≡ some t
unfolding after_colon has_colon
after_colon-append String.[] t h = rw nil-append
after_colon-append (String.◌∷◌ c s) t h = rw cons-append (ground (arith, after_colon-append s t))

item-has_colon : (s : String) → has_colon (item_of_key s) ≡ false
unfolding item_of_key has_colon
item-has_colon String.[] = refl
item-has_colon (String.◌∷◌ c s) = elim (Bool-cases (code c == b':')) [
  | inl e ↦ rw e
  | inr e ↦ rw (e, has_colon) (rw e (item-has_colon s))
]

-- The item that a key is split into is the item that it was made for exactly when the item's id
-- has no colon.
pub item_of_key-make_check_key_iff :
    (item : String) (index : ℕ)
    → (item_of_key (make_check_key item index) ≡ item) ↔ (has_colon item ≡ false)
unfolding make_check_key
item_of_key-make_check_key_iff item index = (
  λ h. rw h at (item-has_colon (make_check_key item index)),
  item-append item (print_index index),
)

-- Of an id without a colon, a key gives back the item and the index that it was made of.
pub check_key_roundtrip :
    (item : String) (index : ℕ)
    → has_colon item ≡ false
    → (item_of_key (make_check_key item index) ≡ item)
      × (index_of_key (make_check_key item index) ≡ some index)
unfolding make_check_key index_of_key
check_key_roundtrip item index h = (
  item-append item (print_index index) h,
  rw (after_colon-append item (print_index index) h, index_of_key) (parse_index-print_index index),
)

-- Of ids without a colon, different checks have different keys.
pub make_check_key_injective :
    (item other : String) (index index' : ℕ)
    → has_colon item ≡ false
    → has_colon other ≡ false
    → make_check_key item index ≡ make_check_key other index'
    → (item ≡ other) × (index ≡ index')
make_check_key_injective item other index index' h k e =
    let (a, i) = check_key_roundtrip item index h in
    let (b, j) = check_key_roundtrip other index' k in
    (cc (a, b, ap item_of_key e), ground (arith, i, j, ap index_of_key e))
