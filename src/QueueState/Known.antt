-- ===== src/QueueState/Known.antt =====
-- src/codex/native-queue-state.ts: what the map `known` holds, and where a tombstone is found.
use vkodex.Prelude.{
  ℕ, zero, suc, ◌≡◌, refl, true, false, none, some, List, [], ◌∷◌, arith, ok, get_elem?,
}
use vkodex.Prelude.JsText.{Text, ===_iff, ===_refl}
use vkodex.Prelude.JsMap
use vkodex.Prelude.JsMap.{JsMap, includes, get-set}
use vkodex.QueueState.{QueueEntryIdentity, ids_of, add_known, has_duplicate_id, consumed_index}

pub add_known-keeps :
    (m k : JsMap QueueEntryIdentity) (rows : List QueueEntryIdentity) (id : Text)
    (r : QueueEntryIdentity)
    → add_known m rows ≡ ok k
    → JsMap.get m id ≡ some r
    → JsMap.get k id ≡ some r
unfolding add_known
add_known-keeps m k [] id r h e = ground arith
add_known-keeps m k (row ∷ rows) id r h e = ground (
  arith,
  get-set m row.id id row,
  ===_iff row.id id,
  add_known-keeps (JsMap.set m row.id row) k rows id r,
)

-- Every row of the input is found under its ID.
pub add_known-holds :
    (m k : JsMap QueueEntryIdentity) (rows : List QueueEntryIdentity) (i : ℕ)
    (r : QueueEntryIdentity)
    → add_known m rows ≡ ok k
    → get_elem? rows i ≡ some r
    → JsMap.get k r.id ≡ some r
unfolding add_known
add_known-holds m k [] i r h e = cc
add_known-holds m k (row ∷ rows) zero r h e = ground (
  arith,
  get-set m row.id r.id row,
  ===_refl row.id,
  add_known-keeps (JsMap.set m row.id row) k rows r.id r,
)
add_known-holds m k (row ∷ rows) (suc i) r h e =
    ground (arith, add_known-holds (JsMap.set m row.id row) k rows i r)

-- Nothing else is found.
pub add_known-absent :
    (m k : JsMap QueueEntryIdentity) (rows : List QueueEntryIdentity) (id : Text)
    → add_known m rows ≡ ok k
    → JsMap.get m id ≡ none
    → includes (ids_of rows) id ≡ false
    → JsMap.get k id ≡ none
unfolding add_known includes
add_known-absent m k [] id h e a = ground arith
add_known-absent m k (row ∷ rows) id h e a =
    ground (arith, get-set m row.id id row, add_known-absent (JsMap.set m row.id row) k rows id)

includes-head :
    (row : QueueEntryIdentity) (rows : List QueueEntryIdentity)
    → includes (ids_of (row ∷ rows)) row.id ≡ true
unfolding includes
includes-head row rows = ground (arith, ===_refl row.id)

includes-get_elem? :
    (rows : List QueueEntryIdentity) (i : ℕ) (r : QueueEntryIdentity)
    → get_elem? rows i ≡ some r
    → includes (ids_of rows) r.id ≡ true
unfolding includes
includes-get_elem? [] i r e = cc
includes-get_elem? (row ∷ rows) zero r e = ground (arith, ===_refl row.id)
includes-get_elem? (row ∷ rows) (suc i) r e = ground (arith, includes-get_elem? rows i r)

still_free :
    (m : JsMap QueueEntryIdentity) (row : QueueEntryIdentity) (rows : List QueueEntryIdentity)
    → ((id : Text) → includes (ids_of (row ∷ rows)) id ≡ true → JsMap.get m id ≡ none)
    → has_duplicate_id (row ∷ rows) ≡ false
    → (id : Text) → includes (ids_of rows) id ≡ true
    → JsMap.get (JsMap.set m row.id row) id ≡ none
unfolding has_duplicate_id includes
still_free m row rows free d id h =
    ground (arith, get-set m row.id id row, ===_iff row.id id, free id)

-- Distinct IDs are all taken in.
pub add_known-total :
    (m : JsMap QueueEntryIdentity) (rows : List QueueEntryIdentity)
    → ((id : Text) → includes (ids_of rows) id ≡ true → JsMap.get m id ≡ none)
    → has_duplicate_id rows ≡ false
    → (k : JsMap QueueEntryIdentity) × (add_known m rows ≡ ok k)
unfolding add_known has_duplicate_id
add_known-total m [] free d = (m, refl)
add_known-total m (row ∷ rows) free d =
    let (k, e) =
      add_known-total (JsMap.set m row.id row) rows (still_free m row rows free d) (ground arith) in
    (k, ground (arith, free row.id, includes-head row rows))

pub consumed_index_sound :
    (rows : List QueueEntryIdentity) (id : Text) (i : ℕ)
    → consumed_index rows id ≡ some i
    → (r : QueueEntryIdentity) × (get_elem? rows i ≡ some r) × (r.id ≡ id)
unfolding consumed_index
consumed_index_sound [] id i e = cc
consumed_index_sound (row ∷ rows) id zero e = (row, refl, ground (arith, ===_iff row.id id))
consumed_index_sound (row ∷ rows) id (suc i) e =
    let (r, found, same) = consumed_index_sound rows id i (ground arith) in (r, found, same)

pub consumed_index-finds :
    (rows : List QueueEntryIdentity) (i : ℕ) (r : QueueEntryIdentity)
    → has_duplicate_id rows ≡ false
    → get_elem? rows i ≡ some r
    → consumed_index rows r.id ≡ some i
unfolding consumed_index has_duplicate_id
consumed_index-finds [] i r d e = cc
consumed_index-finds (row ∷ rows) zero r d e = ground (arith, ===_refl row.id)
consumed_index-finds (row ∷ rows) (suc i) r d e =
    ground (arith, ===_iff row.id r.id, includes-get_elem? rows i r, consumed_index-finds rows i r)

pub consumed_index-absent :
    (rows : List QueueEntryIdentity) (id : Text)
    → includes (ids_of rows) id ≡ false
    → consumed_index rows id ≡ none
unfolding consumed_index includes
consumed_index-absent [] id h = refl
consumed_index-absent (row ∷ rows) id h = ground (arith, consumed_index-absent rows id)

-- A row that is there already makes the loop throw.
add_known-clash :
    (m k : JsMap QueueEntryIdentity) (rows : List QueueEntryIdentity) (id : Text)
    (r : QueueEntryIdentity)
    → JsMap.get m id ≡ some r
    → add_known m rows ≡ ok k
    → includes (ids_of rows) id ≡ false
unfolding add_known includes
add_known-clash m k [] id r e h = refl
add_known-clash m k (row ∷ rows) id r e h = ground (
  arith,
  get-set m row.id id row,
  ===_iff row.id id,
  add_known-clash (JsMap.set m row.id row) k rows id r,
)

pub add_known-distinct :
    (m k : JsMap QueueEntryIdentity) (rows : List QueueEntryIdentity)
    → add_known m rows ≡ ok k
    → has_duplicate_id rows ≡ false
unfolding add_known has_duplicate_id
add_known-distinct m k [] h = refl
add_known-distinct m k (row ∷ rows) h = ground (
  arith,
  get-set m row.id row.id row,
  ===_refl row.id,
  add_known-clash (JsMap.set m row.id row) k rows row.id row,
  add_known-distinct (JsMap.set m row.id row) k rows,
)

-- An ID that is not found is the ID of no row.
pub add_known-missing :
    (m k : JsMap QueueEntryIdentity) (rows : List QueueEntryIdentity) (id : Text)
    → add_known m rows ≡ ok k
    → JsMap.get k id ≡ none
    → includes (ids_of rows) id ≡ false
unfolding add_known includes
add_known-missing m k [] id h e = refl
add_known-missing m k (row ∷ rows) id h e = ground (
  arith,
  get-set m row.id id row,
  ===_iff row.id id,
  add_known-keeps (JsMap.set m row.id row) k rows id row,
  add_known-missing (JsMap.set m row.id row) k rows id,
)
