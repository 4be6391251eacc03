-- ===== src/Tests/Tables.antt =====
-- Tables as lists of entries and queues as lists: the assumptions about GLib can be met.
use circ.Base.{
  ℕ, ◌≡◌, refl, ◌↔◌, Bool, true, Option, none, some, List, [], ◌∷◌, ◌++◌, str_eq, str_eq_iff,
  ==_iff, ◌==◌, if◌then◌else◌, arith,
}
use circ.Glib.{HashTable, Fifo, Glib, find_entry, Distinct}

module _ {K : Type 0} (eq : K → K → Bool) (eq_iff : (a b : K) → (eq a b ≡ true) ↔ (a ≡ b)) where
  unfoldable pub erase : K → List (K × ℕ) → List (K × ℕ)
  erase k [] = []
  erase k ((j, v) ∷ l) = if eq j k then erase k l else (j, v) ∷ erase k l

  unfoldable pub dedup : List (K × ℕ) → List (K × ℕ)
  dedup [] = []
  dedup ((k, v) ∷ l) = (k, v) ∷ erase k (dedup l)

  pub find-erase :
      (l : List (K × ℕ)) (k j : K)
      → find_entry eq j (erase k l) ≡ (if eq k j then none else find_entry eq j l)
  unfolding erase
  find-erase [] k j = ground arith
  find-erase ((i, v) ∷ l) k j = ground (arith, find-erase l k j, eq_iff i k, eq_iff i j, eq_iff k j)

  pub find-dedup : (l : List (K × ℕ)) (k : K) → find_entry eq k (dedup l) ≡ find_entry eq k l
  unfolding dedup
  find-dedup [] k = refl
  find-dedup ((j, v) ∷ l) k = ground (arith, find-erase (dedup l) j k, find-dedup l k)

  erase-Distinct : (l : List (K × ℕ)) (k : K) → Distinct eq l → Distinct eq (erase k l)
  unfolding erase
  erase-Distinct [] k h = tt
  erase-Distinct ((j, v) ∷ l) k h = ground (arith, find-erase l k j, erase-Distinct l k h.1)

  pub dedup-Distinct : (l : List (K × ℕ)) → Distinct eq (dedup l)
  unfolding dedup
  dedup-Distinct [] = tt
  dedup-Distinct ((k, v) ∷ l) = (
    ground (arith, find-erase (dedup l) k k, eq_iff k k),
    erase-Distinct (dedup l) k (dedup-Distinct l),
  )

  abbrev pub assoc_table : HashTable K eq
  assoc_table = record {
    Table = List (K × ℕ);
    new = [];
    insert = λ t k v. (k, v) ∷ t;
    remove = λ t k. erase k t;
    lookup = λ t k. find_entry eq k t;
    entries = dedup;
    lookup-new = λ k. refl;
    lookup-insert = λ t k j v. refl;
    lookup-remove = λ t k j. find-erase t k j;
    find-entries = find-dedup;
    distinct-entries = dedup-Distinct;
  }

module _ {A : Type 0} where
  unfoldable pub pop : List A → Option (A × List A)
  pop [] = none
  pop (a ∷ l) = some (a, l)

  pub pop-nil : (q : List A) → q ≡ [] → pop q ≡ none
  unfolding pop
  pop-nil q e = rw e

  pub pop-cons :
      (q : List A) (a : A) (l : List A) → q ≡ a ∷ l → (r : List A) × (pop q ≡ some (a, r)) × (r ≡ l)
  unfolding pop
  pop-cons q a l e = (l, rw e, refl)

  abbrev pub list_queue : Fifo A
  list_queue = record {
    Queue = List A;
    new = [];
    push_tail = λ q a. q ++ (a ∷ []);
    pop_head = pop;
    elements = λ q. q;
    elements-new = refl;
    elements-push_tail = λ q a. refl;
    pop_head-nil = pop-nil;
    pop_head-cons = pop-cons;
  }

instance abbrev pub lists : Glib
lists = record {
  strings = assoc_table str_eq str_eq_iff;
  ints = assoc_table ◌==◌ ==_iff;
  queues = list_queue;
}

-- What the tests compute with.
unfoldable pub tables : Unit {0}
unfolding erase dedup pop str_eq
tables = tt
