-- ===== src/Go/Table.antt =====
-- Go's `map[string]V` as an association list: reads, writes and package maps.
use samsara_components.Prelude.{
  String, ◌≡◌, ◌≢◌, refl, List, [], ◌∷◌, Bool-cases, inl, inr, Option, none, some, arith, str_eq,
  eq_iff, eq_refl, if◌then◌else◌,
}

abbrev pub Table {ℓ} : Type ℓ → Type ℓ
Table V = List (String × V)

module _ {ℓ} {V : Type ℓ} where
  -- `value, ok := m[key]`
  unfoldable pub lookup : String → Table V → Option V
  lookup key [] = none
  lookup key (entry ∷ rest) = if str_eq key entry.0 then some entry.1 else lookup key rest

  -- `m[key] = value`
  unfoldable pub insert : String → V → Table V → Table V
  insert key value [] = (key, value) ∷ []
  insert key value (entry ∷ rest) =
      if str_eq key entry.0 then (key, value) ∷ rest else entry ∷ insert key value rest

  -- `maps.Copy(dst, src)`
  unfoldable pub maps_copy : Table V → Table V → Table V
  maps_copy dst [] = dst
  maps_copy dst ((k, v) ∷ src) = insert k v (maps_copy dst src)

  -- A write is seen at its key, and nowhere else.
  pub lookup-insert :
      (key asked : String) (value : V) (table : Table V)
      → lookup asked (insert key value table)
        ≡ (if str_eq asked key then some value else lookup asked table)
  unfolding lookup insert
  lookup-insert key asked value [] = refl
  lookup-insert key asked value (entry ∷ rest) = ground (
    arith,
    eq_iff asked key,
    eq_iff key entry.0,
    eq_iff asked entry.0,
    lookup-insert key asked value rest,
  )

  pub lookup-insert_self : (k : String) (v : V) (m : Table V) → lookup k (insert k v m) ≡ some v
  lookup-insert_self k v m = simp (lookup-insert, eq_refl)

  -- A copy reads like its source, and like the old table where the source has no entry.
  pub lookup-maps_copy :
      (j : String) (dst src : Table V)
      → lookup j (maps_copy dst src) ≡ elim (lookup j src) [ none ↦ lookup j dst | some v ↦ some v ]
  unfolding lookup maps_copy
  lookup-maps_copy j dst [] = refl
  lookup-maps_copy j dst ((k, v) ∷ src) =
      ground (arith, lookup-insert k j v (maps_copy dst src), lookup-maps_copy j dst src)

  -- A copy into an empty map reads like its source.
  pub lookup-maps_copy_nil :
      (j : String) (src : Table V) → lookup j (maps_copy [] src) ≡ lookup j src
  unfolding lookup maps_copy
  lookup-maps_copy_nil j [] = refl
  lookup-maps_copy_nil j ((k, v) ∷ src) =
      ground (arith, lookup-insert k j v (maps_copy [] src), lookup-maps_copy_nil j src)

  pub lookup-insert_ne :
      (k j : String) (v : V) (m : Table V) → j ≢ k → lookup j (insert k v m) ≡ lookup j m
  lookup-insert_ne k j v m h = ground (arith, lookup-insert k j v m, eq_iff j k)

  -- A map that has been written to is not empty.
  pub insert-nonempty :
      (key : String) (value : V) (table : Table V)
      → (entry : String × V) × (rest : Table V) × (insert key value table ≡ entry ∷ rest)
  unfolding insert
  insert-nonempty key value [] = ((key, value), [], refl)
  insert-nonempty key value (entry ∷ rest) = elim (Bool-cases (str_eq key entry.0)) [
    | inl same ↦ ((key, value), rest, rw same)
    | inr other ↦ (entry, insert key value rest, rw other)
  ]
