-- ===== src/Hashtable.antt =====
-- src/hashtable.c and include/hashtable.h: a table with open addressing and double hashing.
pub mod Primes
pub mod Slots
pub mod Probing
pub mod Placing
pub mod Inserting
pub mod Searching
pub mod Removing
pub mod Map
pub mod Counters
pub mod Values
pub mod Uses
pub mod Ends
use Prim.Native.Nat.{bit_xor}
use circ.Base.{
  ℕ, zero, suc, ◌+◌, ◌-◌, ◌*◌, ◌%◌, ◌^◌, ◌<◌, Bool, true, false, not, ◌&&◌, Option, none, some,
  List, [], ◌∷◌, Bytes, length, set, replicate, c_string, str_eq, if◌then◌else◌, ◌==◌, ltb, leb,
}

-- What a call does: it still runs after the rounds that it was given, calls through a NULL
-- function pointer, or returns.
pub data Outcome (A : Type 0) : Type 0 where
  running : Outcome A
  crashed : Outcome A
  returned : A → Outcome A

pub record HashtableItem (V : Type 0) : Type 0 where
  pub key : Bytes
  pub value : V
  pub deleted : Bool

-- `destructor` is whether there is one: it, or else `free`, is given the values in `released`, in
-- this order. A slot that is NULL is `none`. `key_destructor` is never set and never read.
pub record HashtableTable (V : Type 0) : Type 0 where
  pub size : ℕ
  pub occupied : ℕ
  pub cap : ℕ
  pub items : List (Option (HashtableItem V))
  pub destructor : Bool
  pub released : List V

-- `size_t` and `unsigned long`.
abbrev pub word : ℕ
word = 2 ^ 64

-- `floor(sqrt(x))` is a parameter: it is the C library's.
pub is_prime_from : ℕ → ℕ → ℕ → ℕ → Bool
is_prime_from zero x root i = true
is_prime_from (suc n) x root i =
    let rest = is_prime_from n x root (i + 1) in
    if leb i root then (if x % i == 0 then false else rest) else true

-- The loop runs from 2 to the root, so `root` rounds are enough.
unfoldable pub is_prime : (ℕ → ℕ) → ℕ → Bool
unfolding is_prime_from
is_prime floor_sqrt x =
    if x == 0
    then false
    else if x == 1
    then true
    else is_prime_from (floor_sqrt x) x (floor_sqrt x) 2

-- The loop, for a number of rounds; `none` if it still runs.
unfoldable pub next_prime : (ℕ → ℕ) → ℕ → ℕ → Option ℕ
next_prime floor_sqrt zero start = none
next_prime floor_sqrt (suc n) start =
    let rest = next_prime floor_sqrt n ((start + 1) % word) in
    if is_prime floor_sqrt start then some start else rest

pub djb2_from : ℕ → Bytes → ℕ
djb2_from hash [] = hash
djb2_from hash (c ∷ str) =
    let rest = djb2_from (((hash * 32) % word + hash + c) % word) str in
    if c == 0 then hash else rest

unfoldable pub djb2 : Bytes → ℕ
unfolding djb2_from
djb2 str = djb2_from 5381 str

pub djb2a_from : ℕ → Bytes → ℕ
djb2a_from hash [] = hash
djb2a_from hash (c ∷ str) =
    let rest = djb2a_from (bit_xor (((hash * 32) % word + hash) % word) c) str in
    if c == 0 then hash else rest

unfoldable pub djb2a : Bytes → ℕ
unfolding djb2a_from
djb2a str = djb2a_from 5381 str

-- The first slot that is tried, and the one after `loc`.
unfoldable pub first_loc : ℕ → Bytes → ℕ
first_loc cap key = djb2 key % cap

unfoldable pub next_loc : ℕ → Bytes → ℕ → ℕ
next_loc cap key loc = ((loc + djb2a key + 1) % word) % cap

module _ {V : Type 0} where
  abbrev pub slot : List (Option (HashtableItem V)) → ℕ → Option (HashtableItem V)
  slot [] i = none
  slot (x ∷ xs) zero = x
  slot (x ∷ xs) (suc i) = slot xs i

  unfoldable pub new_hashtable_item : Bytes → V → HashtableItem V
  new_hashtable_item key value = record { key = c_string key; value = value; deleted = false }

  -- The value is given to the destructor, or to `free`.
  unfoldable pub delete_hashtable_item : HashtableItem V → HashtableTable V → HashtableTable V
  delete_hashtable_item item table = record table { released = item.value ∷ table.released }

  unfoldable pub hashtable_new_table : (ℕ → ℕ) → ℕ → ℕ → Bool → Option (HashtableTable V)
  hashtable_new_table floor_sqrt rounds cap_hint destructor =
      elim (next_prime floor_sqrt rounds cap_hint) [
        | none ↦ none
        | some cap ↦ some (record {
          size = 0;
          occupied = 0;
          cap = cap;
          items = replicate cap none;
          destructor = destructor;
          released = [];
        })
      ]

  -- The end of `hashtable_insert`: a new item in the slot.
  unfoldable pub fill_slot : HashtableTable V → ℕ → Bytes → V → HashtableTable V
  fill_slot table loc key value = record table {
    size = (table.size + 1) % word;
    occupied = (table.occupied + 1) % word;
    items = set table.items loc (some (new_hashtable_item key value));
  }

  -- The value of an item is replaced, through the destructor even if that is NULL.
  unfoldable pub replace_value :
      HashtableTable V → ℕ → HashtableItem V → V → Outcome (ℕ × HashtableTable V)
  replace_value table loc item value =
      if table.destructor
      then returned (
        0,
        record table {
          items = set table.items loc (some (record item { value = value }));
          released = item.value ∷ table.released;
        },
      )
      else crashed

  -- The body of the loop of `hashtable_insert` at a slot; `rest` is what follows at the next one.
  unfoldable pub insert_here :
      HashtableTable V
      → Bytes
      → V
      → ℕ
      → Option (HashtableItem V)
      → Outcome (ℕ × HashtableTable V)
      → Outcome (ℕ × HashtableTable V)
  insert_here table key value loc none rest = returned (0, fill_slot table loc key value)
  insert_here table key value loc (some item) rest =
      if not item.deleted
      then (if str_eq (c_string key) item.key then replace_value table loc item value else rest)
      else let cleared = delete_hashtable_item item table in
        returned (
          0,
          fill_slot (record cleared { occupied = (cleared.occupied + (word - 1)) % word }) loc key
              value,
        )

  -- For a number of rounds.
  unfoldable pub insert_from :
      ℕ → HashtableTable V → Bytes → V → ℕ → ℕ → Outcome (ℕ × HashtableTable V)
  insert_from zero table key value init loc = running
  insert_from (suc n) table key value init loc =
      let next = next_loc table.cap key loc in
      let rest = insert_from n table key value init next in
      insert_here table key value loc (slot table.items loc)
        (if next == init then returned (1, table) else rest)

  unfoldable pub hashtable_insert :
      ℕ → HashtableTable V → Bytes → V → Outcome (ℕ × HashtableTable V)
  hashtable_insert rounds table key value =
      let init = first_loc table.cap key in
      if table.size == table.cap
      then returned (1, table)
      else insert_from rounds table key value init init

  -- An item that `hashtable_search` and `hashtable_remove` stop at.
  unfoldable pub matches : Bytes → HashtableItem V → Bool
  matches key item = not item.deleted && str_eq item.key (c_string key)

  unfoldable pub search_here :
      Bytes → Option (HashtableItem V) → Outcome (Option V) → Outcome (Option V)
  search_here key none rest = returned none
  search_here key (some item) rest = if matches key item then returned (some item.value) else rest

  unfoldable pub search_from : ℕ → HashtableTable V → Bytes → ℕ → ℕ → Outcome (Option V)
  search_from zero table key init loc = running
  search_from (suc n) table key init loc =
      let next = next_loc table.cap key loc in
      let rest = search_from n table key init next in
      search_here key (slot table.items loc) (if next == init then returned none else rest)

  unfoldable pub hashtable_search : ℕ → HashtableTable V → Bytes → Outcome (Option V)
  hashtable_search rounds table key =
      let init = first_loc table.cap key in search_from rounds table key init init

  unfoldable pub remove_here :
      HashtableTable V
      → Bytes
      → ℕ
      → Option (HashtableItem V)
      → Outcome (ℕ × HashtableTable V)
      → Outcome (ℕ × HashtableTable V)
  remove_here table key loc none rest = returned (1, table)
  remove_here table key loc (some item) rest =
      if matches key item
      then returned (
        0,
        record table {
          size = (table.size + (word - 1)) % word;
          items = set table.items loc (some (record item { deleted = true }));
        },
      )
      else rest

  -- This loop does not look whether it is back at its first slot.
  unfoldable pub remove_from : ℕ → HashtableTable V → Bytes → ℕ → Outcome (ℕ × HashtableTable V)
  remove_from zero table key loc = running
  remove_from (suc n) table key loc =
      remove_here table key loc (slot table.items loc)
        (remove_from n table key (next_loc table.cap key loc))

  unfoldable pub hashtable_remove : ℕ → HashtableTable V → Bytes → Outcome (ℕ × HashtableTable V)
  hashtable_remove rounds table key = remove_from rounds table key (first_loc table.cap key)

  pub delete_items : List (Option (HashtableItem V)) → HashtableTable V → HashtableTable V
  delete_items [] table = table
  delete_items (none ∷ items) table = delete_items items table
  delete_items (some item ∷ items) table = delete_items items (delete_hashtable_item item table)

  -- What is left is the record of the values that were released.
  unfoldable pub hashtable_delete_table : HashtableTable V → List V
  unfolding delete_items
  hashtable_delete_table table = (delete_items table.items table).released
