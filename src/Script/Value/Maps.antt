-- ===== src/Script/Value/Maps.antt =====
-- Maps: the entries as a function of the key, and the hash as a mere shortcut.
use c64stream.Base.{ℕ, ◌≡◌, inl, inr, ◌∙◌, sym, ap, ap₂, subst, Bool, true, false, ◌&&◌, List, refl}
use c64stream.Base.Bools.{if-either, if_again, if_swap, ◌==◌, ==_iff, if◌then◌else◌, Bool-cases}
use c64stream.Base.Bytes.{same_text, same_text_refl, same_text-eq, both-true}
use c64stream.Script.Floats.{Floats}
use c64stream.Script.Value.{
  Value, Entries, no_entries, entry, ValueType, hash_string, map_get, map_set, default_value,
}

-- Whether the search takes the entry for the key.
abbrev pub is_at : List ℕ → ℕ → List ℕ → Bool
is_at k h key = h == hash_string key && same_text k key

is_at-eq : (k : List ℕ) (h : ℕ) (key : List ℕ) → is_at k h key ≡ true → k ≡ key
is_at-eq k h key e = same_text-eq k key (both-true (h == hash_string key) (same_text k key) e).1

is_at-hash : (k : List ℕ) (h : ℕ) (key : List ℕ) → is_at k h key ≡ true → h ≡ hash_string key
is_at-hash k h key e =
    (==_iff h (hash_string key)).0 (both-true (h == hash_string key) (same_text k key) e).0

is_at_new : (key : List ℕ) → is_at key (hash_string key) key ≡ true
is_at_new key = rw ((==_iff (hash_string key) (hash_string key)).1 refl, same_text_refl key) refl

and_false : (b : Bool) → (b && false) ≡ false
and_false true = refl
and_false false = refl

-- The entry that a write makes is found by its key alone.
is_at-hash_string : (key other : List ℕ) → is_at key (hash_string key) other ≡ same_text key other
is_at-hash_string key other = elim (Bool-cases (same_text key other)) [
  | inl t ↦
      subst (λ o. is_at key (hash_string key) o ≡ same_text key o) (same_text-eq key other t)
        (is_at_new key ∙ sym (same_text_refl key))
  | inr f ↦ rw f (and_false (hash_string key == hash_string other))
]

-- A map as a list of keys and values alone.
module _ {F : Type 0} (N : Floats F) where
  pub get_by_key : ValueType → Entries F → List ℕ → Value F
  get_by_key t no_entries key = default_value N t
  get_by_key t (entry k h v es) key = if same_text k key then v else get_by_key t es key

  -- Reading a key after writing a key: the new value at that key, no change at any other.
  pub map_get-map_set :
      (kind : ValueType) (es : Entries F) (key other : List ℕ) (x : Value F)
      → map_get N kind (map_set es key x) other
        ≡ (if same_text key other then x else map_get N kind es other)
  unfolding map_get map_set
  map_get-map_set kind no_entries key other x = rw (is_at-hash_string key other) refl
  map_get-map_set kind (entry k h v es) key other x = elim (Bool-cases (is_at k h key)) [
    | inl t ↦
        let same : is_at k h other ≡ same_text key other =
          ap₂ (λ a b. is_at a b other) (is_at-eq k h key t) (is_at-hash k h key t)
          ∙ is_at-hash_string key other in
        rw (t, same) (if_again (same_text key other) x v (map_get N kind es other))
    | inr f ↦
        rw (f, map_get-map_set kind es key other x)
          (if_swap (same_text key other) (is_at k h other) x v (map_get N kind es other)
            λ e. subst (λ o. is_at k h o ≡ false) (same_text-eq key other e) f)
  ]

-- The cached hashes are those of the keys.
abbrev pub HasHashes : {F : Type 0} → Entries F → Type 0
HasHashes no_entries = Unit
HasHashes (entry k h v es) = (h ≡ hash_string k) × HasHashes es

module _ {F : Type 0} (N : Floats F) where
  -- The hash only speeds the search up.
  pub map_get-get_by_key :
      (t : ValueType) (es : Entries F) (key : List ℕ)
      → HasHashes es
      → map_get N t es key ≡ get_by_key N t es key
  unfolding map_get get_by_key
  map_get-get_by_key t no_entries key o = refl
  map_get-get_by_key t (entry k h v es) key o =
      let same : is_at k h key ≡ same_text k key =
        ap (λ a. is_at k a key) o.0 ∙ is_at-hash_string k key in
      rw (same, map_get-get_by_key t es key o.1) refl

  pub map_set-HasHashes :
      (es : Entries F) (key : List ℕ) (x : Value F) → HasHashes es → HasHashes (map_set es key x)
  unfolding map_set
  map_set-HasHashes no_entries key x o = (refl, tt)
  map_set-HasHashes (entry k h v es) key x o =
      if-either HasHashes (is_at k h key) o (o.0, map_set-HasHashes es key x o.1)
