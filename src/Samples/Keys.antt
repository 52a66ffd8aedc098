-- ===== src/Samples/Keys.antt =====
-- Examples of check keys.
use hungerloop.Prelude.{false, some, ◌≡◌, ◌↔◌, refl}
use hungerloop.CheckKey.{make_check_key, item_of_key, index_of_key, has_colon}
use hungerloop.CheckKey.Codec.{item_of_key-make_check_key_iff, check_key_roundtrip}

no_colon : has_colon "A1" ≡ false
unfolding has_colon
no_colon = refl

item_of_key_example : (item_of_key (make_check_key "a:b" 3) ≡ "a:b") ↔ (has_colon "a:b" ≡ false)
item_of_key_example = item_of_key-make_check_key_iff "a:b" 3

check_key_roundtrip_example :
    (item_of_key (make_check_key "A1" 12) ≡ "A1")
    × (index_of_key (make_check_key "A1" 12) ≡ some 12)
check_key_roundtrip_example = check_key_roundtrip "A1" 12 no_colon
