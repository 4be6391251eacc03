-- ===== src/Tests/Hashing.antt =====
-- Runs of the hash table, and the theorems on it at concrete tables.
use circ.Base.{
  ℕ, zero, suc, ◌+◌, ◌<◌, ◌≡◌, refl, sym, ◌∙◌, none_absurd, true, false, Option, none, some, [],
  ◌∷◌, codes, c_string, str_eq, if◌then◌else◌, ltb, arith, ◌⊎◌,
}
use circ.Hashtable.{
  Outcome, running, returned, crashed, word, HashtableItem, HashtableTable, slot, is_prime,
  next_prime, djb2, djb2a, hashtable_new_table, hashtable_insert, hashtable_search,
  hashtable_remove, hashtable_delete_table, first_loc, next_loc, insert_from, insert_here,
  search_from, search_here, remove_from, remove_here, matches, fill_slot, new_hashtable_item,
  delete_hashtable_item, replace_value,
}
use circ.Hashtable.Counters.{IsCounted}
use circ.Hashtable.Ends.{hashtable_insert-ends}
use circ.Hashtable.Map.{IsTable, Represents}
use circ.Hashtable.Map.Insert.{hashtable_insert-Represents}
use circ.Hashtable.Map.Remove.{hashtable_remove-Represents, Single}
use circ.Hashtable.Removing.{hashtable_remove-runs}
use circ.Hashtable.Searching.{hashtable_search-ends, Skipped}
use circ.Hashtable.Uses.{Uses, Uses-IsTable, Uses-released, new_table-Represents}
use circ.Hashtable.Values.{sum}

-- Exact below 16.
abbrev root : ℕ → ℕ
root x = if ltb x 4 then 1 else (if ltb x 9 then 2 else 3)

abbrev fresh : HashtableTable ℕ
fresh = record {
  size = 0;
  occupied = 0;
  cap = 3;
  items = none ∷ none ∷ none ∷ [];
  destructor = true;
  released = [];
}

abbrev item_a : HashtableItem ℕ
item_a = record { key = codes "a"; value = 1; deleted = false }

abbrev with_a : HashtableTable ℕ
with_a = record fresh { size = 1; occupied = 1; items = none ∷ some item_a ∷ none ∷ [] }

-- One slot, and an item in it.
abbrev full : HashtableTable ℕ
full = record {
  size = 1;
  occupied = 1;
  cap = 1;
  items = some item_a ∷ [];
  destructor = true;
  released = [];
}

abbrev table_after : Outcome (ℕ × HashtableTable ℕ) → HashtableTable ℕ
table_after running = fresh
table_after crashed = fresh
table_after (returned (code, table)) = table

fresh_made : hashtable_new_table root 1 3 true ≡ some fresh
unfolding hashtable_new_table next_prime is_prime
fresh_made = refl

a_stored : hashtable_insert 3 fresh (codes "a") 1 ≡ returned (0, with_a)
unfolding hashtable_insert insert_from insert_here fill_slot new_hashtable_item djb2 first_loc
    next_loc
a_stored = refl

made : Uses fresh []
made = Uses.made root 1 3 true (omega arith) fresh_made

stored : Uses with_a (1 ∷ [])
stored = Uses.inserts made 3 (codes "a") 1 a_stored

Uses-IsTable_example : IsTable with_a × IsCounted with_a
Uses-IsTable_example = Uses-IsTable stored

Uses-released_example : sum (λ v. v) (hashtable_delete_table with_a) ≡ sum (λ v. v) (1 ∷ [])
Uses-released_example = Uses-released stored (λ v. v)

hashtable_insert-Represents_example :
    IsTable with_a
    × Represents with_a (λ name. if str_eq (c_string (codes "a")) name then some 1 else none)
hashtable_insert-Represents_example =
    hashtable_insert-Represents fresh (codes "a") 1 (λ name. none) (Uses-IsTable made).0
      (new_table-Represents root 1 3 true (omega arith) fresh_made) 3 a_stored

second_slot : (i : ℕ) (x : HashtableItem ℕ) → slot with_a.items i ≡ some x → i ≡ 1
second_slot zero x e = none_absurd e
second_slot (suc zero) x e = refl
second_slot (suc (suc zero)) x e = none_absurd e
second_slot (suc (suc (suc i))) x e = none_absurd e

one_a : Single with_a (codes "a")
one_a i j x y at_i at_j h k = second_slot i x at_i ∙ sym (second_slot j y at_j)

a_fits : djb2a (codes "a") + 3 < word
unfolding djb2a
a_fits = omega arith

hashtable_remove-Represents_example :
    (result : HashtableTable ℕ) × (hashtable_remove 3 with_a (codes "a") ≡ returned (0, result))
    × IsTable result
    × Represents result (λ name.
      if str_eq (c_string (codes "a")) name
      then none
      else (if str_eq (c_string (codes "a")) name then some 1 else none))
unfolding str_eq
hashtable_remove-Represents_example =
    hashtable_remove-Represents with_a (codes "a")
      (λ name. if str_eq (c_string (codes "a")) name then some 1 else none) 1
      hashtable_insert-Represents_example.0 hashtable_insert-Represents_example.1 one_a a_fits refl

hashtable_search-ends_example :
    (v : Option ℕ) × (hashtable_search (3 + 2) with_a (codes "a") ≡ returned v)
hashtable_search-ends_example = hashtable_search-ends with_a (codes "a") (omega arith) a_fits 2

hashtable_insert-ends_example :
    (hashtable_insert (3 + 2) with_a (codes "a") 7 ≡ returned (1, with_a))
    ⊎ ((result : HashtableTable ℕ) × (hashtable_insert (3 + 2) with_a (codes "a") 7
          ≡ returned (0, result)))
hashtable_insert-ends_example =
    hashtable_insert-ends with_a (codes "a") 7 refl (omega arith) a_fits 2

other_key : (loc : ℕ) → loc < 1 → Skipped (codes "b") (slot full.items loc)
unfolding matches str_eq
other_key zero h = refl
other_key (suc loc) h = absurd (omega arith)

hashtable_remove-runs_example : hashtable_remove 100 full (codes "b") ≡ running
hashtable_remove-runs_example = hashtable_remove-runs full (codes "b") (omega arith) other_key 100

from_eight : next_prime root 5 8 ≡ some 11
unfolding next_prime is_prime
from_eight = refl

-- "a" and "d" have the same first slot. Once "a" is removed, "d" is inserted a second time into
-- its slot, and a removal of "d" leaves the first one to be found.
twice : HashtableTable ℕ
twice =
    let t = table_after (hashtable_insert 3 with_a (codes "d") 2) in
    let u = table_after (hashtable_remove 3 t (codes "a")) in
    let v = table_after (hashtable_insert 3 u (codes "d") 3) in
    table_after (hashtable_remove 3 v (codes "d"))

removed_found : hashtable_search 3 twice (codes "d") ≡ returned (some 2)
unfolding twice hashtable_insert insert_from insert_here fill_slot new_hashtable_item
    delete_hashtable_item djb2 djb2a first_loc next_loc hashtable_remove remove_from remove_here
    matches str_eq hashtable_search search_from search_here
removed_found = refl

-- A table without a destructor calls it when a value is replaced.
no_destructor : hashtable_insert 3 (record with_a { destructor = false }) (codes "a") 2 ≡ crashed
unfolding hashtable_insert insert_from insert_here replace_value djb2 first_loc next_loc str_eq
no_destructor = refl
