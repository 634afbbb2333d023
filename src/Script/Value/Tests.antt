-- ===== src/Script/Value/Tests.antt =====
-- Runs of the containers.
use c64stream.Base.{ℕ, ◌≡◌, List, [], ◌∷◌, refl}
use c64stream.Script.Value.{
  Values, Entries, number, no_values, value, no_entries, entry, number_type, map_get, map_set,
  array_set, hash_string,
}
use c64stream.Script.Value.Maps.{map_get-map_set, map_get-get_by_key, get_by_key, HasHashes}
use c64stream.Script.Value.Arrays.{Written, array_set-Written}
use c64stream.Base.Bytes.{same_text}
use c64stream.Base.Bools.{if◌then◌else◌}
use c64stream.Script.Samples.{whole_numbers}

abbrev key_a : List ℕ
key_a = 65 ∷ []

abbrev key_b : List ℕ
key_b = 66 ∷ []

abbrev one_entry : Entries ℕ
one_entry = entry key_a (hash_string key_a) (number 1) no_entries

map_get-map_set_example :
    map_get whole_numbers number_type (map_set one_entry key_b (number 7)) key_a ≡ (
      if same_text key_b key_a then number 7 else map_get whole_numbers number_type one_entry key_a)
map_get-map_set_example = map_get-map_set whole_numbers number_type one_entry key_b key_a (number 7)

one_entry-HasHashes : HasHashes one_entry
one_entry-HasHashes = (refl, tt)

map_get-get_by_key_example :
    map_get whole_numbers number_type one_entry key_a
    ≡ get_by_key whole_numbers number_type one_entry key_a
map_get-get_by_key_example =
    map_get-get_by_key whole_numbers number_type one_entry key_a one_entry-HasHashes

abbrev two_values : Values ℕ
two_values = value (number 1) (value (number 2) no_values)

array_set-Written_example : Written two_values 1 (number 9) (array_set two_values 1 (number 9))
array_set-Written_example = array_set-Written two_values 1 (number 9)

-- FNV-1a of "A".
hash_test : hash_string key_a ≡ 3289118412
unfolding hash_string
hash_test = refl
