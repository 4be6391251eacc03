-- ===== src/Hashtable/Map.antt =====
-- The table of src/hashtable.c as a map from strings to values.
pub mod Same
pub mod Others
pub mod Writes
pub mod Insert
pub mod Remove
use circ.Base.{
  ℕ, zero, suc, ◌+◌, ◌<◌, ◌≡◌, ◌≢◌, Bool, false, Option, none, some, List, Bytes, length, c_string,
}
use circ.Hashtable.{returned, HashtableItem, HashtableTable, slot, hashtable_search}
use circ.Hashtable.Probing.{path, NoWrap}

module _ {V : Type 0} where
  -- The loops come to the slot `loc` for the key, past no empty slot.
  pub record Reach (cap : ℕ) (items : List (Option (HashtableItem V))) (key : Bytes) (loc : ℕ)
      : Type 0 where
    pub steps : ℕ
    pub at : path cap key steps ≡ loc
    pub before : (j : ℕ) → j < steps → slot items (path cap key j) ≢ none

  -- There is a slot, and every item that is not deleted can be reached.
  pub record IsTable (table : HashtableTable V) : Type 0 where
    pub slots : length table.items ≡ table.cap
    pub some_slots : 0 < table.cap
    pub reached :
        (loc : ℕ) (item : HashtableItem V)
        → slot table.items loc ≡ some item
        → item.deleted ≡ false
        → Reach table.cap table.items item.key loc

  -- With as many rounds as there are slots, a search finds what the map has, for each key with
  -- which the sum for the next slot does not wrap.
  pub record Represents (table : HashtableTable V) (m : Bytes → Option V) : Type 0 where
    pub found :
        (key : Bytes)
        → NoWrap table.cap key
        → hashtable_search table.cap table key ≡ returned (m (c_string key))
