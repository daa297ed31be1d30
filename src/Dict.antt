-- ===== src/Dict.antt =====
-- `HashMap<String, V>` as a list of entries with one entry for each key. The program reads its
-- maps by key, and asks of all keys whether one of them has a property.
use tiny_s3_proxy.Text.{Bytes, bytes_eq}
use tiny_s3_proxy.Prelude.{
  Bool, List, Option, [], arith, false, if◌then◌else◌, none, refl, some, true, ◌||◌, ◌∷◌, ◌≡◌,
}
use tiny_s3_proxy.Text.Laws.{bytes_eq_iff}

abbrev pub Dict {ℓ} : Type ℓ → Type ℓ
Dict V = List (Bytes × V)

module _ {ℓ} {V : Type ℓ} where
  -- m.get(k)
  unfoldable pub get : Bytes → Dict V → Option V
  get k [] = none
  get k ((j, v) ∷ m) = if bytes_eq j k then some v else get k m

  -- m.insert(k, v)
  unfoldable pub insert : Bytes → V → Dict V → Dict V
  insert k v [] = (k, v) ∷ []
  insert k v ((j, w) ∷ m) = if bytes_eq j k then (k, v) ∷ m else (j, w) ∷ insert k v m

  abbrev pub is_some : Option V → Bool
  is_some none = false
  is_some (some v) = true

  -- m.contains_key(k)
  unfoldable pub contains_key : Bytes → Dict V → Bool
  unfolding get
  contains_key k m = is_some (get k m)

  pub get-insert :
      (k j : Bytes) (v : V) (m : Dict V)
      → get j (insert k v m) ≡ (if bytes_eq k j then some v else get j m)
  unfolding get insert
  get-insert k j v [] = refl
  get-insert k j v ((i, w) ∷ m) =
      ground (arith, bytes_eq_iff k j, bytes_eq_iff i k, bytes_eq_iff i j, get-insert k j v m)

-- some key has the property
unfoldable pub any_key {ℓ} : {V : Type ℓ} → (Bytes → Bool) → Dict V → Bool
any_key p [] = false
any_key p ((k, v) ∷ m) = p k || any_key p m
