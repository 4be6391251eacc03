-- ===== src/Glib.antt =====
-- What the program uses of GLib, which is not part of the repository: GHashTable and GQueue. Each
-- is a record of operations and of the documented behaviour that the code relies on.
use circ.Base.{
  ℕ, ◌≡◌, Option, none, some, Bool, if◌then◌else◌, ◌==◌, Bytes, str_eq, List, [], ◌∷◌, ◌++◌,
}

-- The value of the first entry under a key; whether there is one.
abbrev pub find_entry : {K : Type 0} → (K → K → Bool) → K → List (K × ℕ) → Option ℕ
find_entry eq k [] = none
find_entry eq k ((j, v) ∷ l) = if eq j k then some v else find_entry eq k l

-- No key stands in two entries.
abbrev pub Distinct : {K : Type 0} → (K → K → Bool) → List (K × ℕ) → Type 0
Distinct eq [] = Unit
Distinct eq ((k, v) ∷ l) = (find_entry eq k l ≡ none) × Distinct eq l

-- A GHashTable with the equality function that `g_hash_table_new` is given. Its values are pointers
-- or integers. `g_hash_table_contains` and `g_hash_table_size` are `lookup` and the number of
-- entries. `entries` is what an iteration visits, in an order that GLib leaves open.
pub record HashTable (K : Type 0) (eq : K → K → Bool) : Type 1 where
  pub Table : Type 0
  pub new : Table
  pub insert : Table → K → ℕ → Table
  pub remove : Table → K → Table
  pub lookup : Table → K → Option ℕ
  pub entries : Table → List (K × ℕ)
  pub lookup-new : (k : K) → lookup new k ≡ none
  pub lookup-insert :
      (t : Table) (k j : K) (v : ℕ)
      → lookup (insert t k v) j ≡ (if eq k j then some v else lookup t j)
  pub lookup-remove :
      (t : Table) (k j : K) → lookup (remove t k) j ≡ (if eq k j then none else lookup t j)
  pub find-entries : (t : Table) (k : K) → find_entry eq k (entries t) ≡ lookup t k
  pub distinct-entries : (t : Table) → Distinct eq (entries t)

-- A GQueue, with the elements that it holds from head to tail.
pub record Fifo (A : Type 0) : Type 1 where
  pub Queue : Type 0
  pub new : Queue
  pub push_tail : Queue → A → Queue
  pub pop_head : Queue → Option (A × Queue)
  pub elements : Queue → List A
  pub elements-new : elements new ≡ []
  pub elements-push_tail : (q : Queue) (a : A) → elements (push_tail q a) ≡ elements q ++ (a ∷ [])
  pub pop_head-nil : (q : Queue) → elements q ≡ [] → pop_head q ≡ none
  pub pop_head-cons :
      (q : Queue) (a : A) (l : List A)
      → elements q ≡ a ∷ l
      → (r : Queue) × (pop_head q ≡ some (a, r)) × (elements r ≡ l)

-- include/response.h: `struct response_s`, without what stands behind the text.
pub record Response : Type 0 where
  pub response : Bytes
  pub len : ℕ

-- The tables over strings (`g_str_hash`, `g_str_equal`) and over integers (`g_direct_hash`,
-- `g_direct_equal`), and the queues of responses.
pub record Glib : Type 1 where
  pub strings : HashTable Bytes str_eq
  pub ints : HashTable ℕ ◌==◌
  pub queues : Fifo Response
