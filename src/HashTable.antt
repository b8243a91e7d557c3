-- ===== src/HashTable.antt =====
-- hash_table.c: the chained table from names to data pointers.
-- A bucket's first node stands in the array, the others in blocks of their own that only the node
-- before them points to; so a chain is a value, in which a pointer to a freed block is `dangling`.
-- `data` is the block that the pointer leads to. The lock is never contended: one event loop runs
-- everything.
pub mod Chain
pub mod Rows
pub mod Invariant
pub mod Limit
pub mod Resize
pub mod Put
pub mod Remove
pub mod Fresh
pub mod Values
pub mod Removed
pub mod Misremove
pub mod Free
use post_dns.Base.{
  ℕ, zero, suc, ◌==◌, ◌&&◌, ◌||◌, ◌++◌, ◌+◌, ◌*◌, ◌/◌, ◌%◌, ◌^◌, bit_and, List, [], ◌∷◌, Bool, true,
  false, Option, none, some, ltb, if◌then◌else◌, set, replicate, Run, ok, fault, Fault, ◌>>=◌, ◌>>◌,
  at,
}
use post_dns.Text.{Str, string_equal}
use post_dns.Text.Murmur.{string_hash_code}

-- `cell none next` is a node whose name is NULL.
pub data HashNode {ℓ} (V : Type ℓ) : Type ℓ where
  null : HashNode V
  dangling : HashNode V
  cell : Option (Str × V) → HashNode V → HashNode V

pub record HashTable {ℓ} (V : Type ℓ) : Type ℓ where
  pub table : List (HashNode V)
  pub count : ℕ
  pub capacity : ℕ
  pub threshold : ℕ

-- The distance of two neighbours among the floats of 24 binary digits at `n`, from `u` on.
unfoldable pub ulp : ℕ → ℕ → ℕ → ℕ
ulp zero u n = u
ulp (suc k) u n = if ltb n (u * 2 ^ 24) then u else ulp k (u * 2) n

-- The multiple of `u` next to `n`; of two that are as near, the even one.
unfoldable pub round_to : ℕ → ℕ → ℕ
round_to u n =
    if ltb (n % u * 2) u || (n % u * 2 == u && n / u % 2 == 0) then n / u * u else n / u * u + u

-- A natural number below 2 ^ 34 as a float.
unfoldable pub as_float : ℕ → ℕ
unfolding ulp round_to
as_float n = round_to (ulp 10 1 n) n

-- `capacity * LOAD_FACTOR`: an `int` is made a float, multiplied by 0.75f, rounded, and cut to an
-- `int`. Four times the product is rounded as the product is.
unfoldable pub load_limit : ℕ → ℕ
unfolding as_float
load_limit capacity = as_float (as_float capacity * 3) / 4

-- `(string_hash_code(name) & INT_MAX) % capacity`
unfoldable pub index : ℕ → Str → ℕ
index capacity name = bit_and (string_hash_code name) 0x7fff_ffff % capacity

abbrev pub empty_node {ℓ} : {V : Type ℓ} → HashNode V
empty_node = cell none null

module _ {ℓ} {V : Type ℓ} where
  unfoldable pub hash_table_new : HashTable V
  unfolding load_limit
  hash_table_new = record {
    table = replicate 8 empty_node;
    count = 0;
    capacity = 8;
    threshold = load_limit 8;
  }

  -- The walk of `add_node` to the last node, and the write there.
  unfoldable pub append_entry : Str → V → HashNode V → Run (HashNode V)
  append_entry name value null = fault Fault.null_pointer
  append_entry name value dangling = fault Fault.use_after_free
  append_entry name value (cell none next) = ok (cell (some (name, value)) null)
  append_entry name value (cell (some e) null) = ok (cell (some e) (cell (some (name, value)) null))
  append_entry name value (cell (some e) next) = do
    next' ← append_entry name value next
    ok (cell (some e) next')

  unfoldable pub add_node : HashTable V → Str → V → Run (HashTable V)
  unfolding append_entry
  add_node t name value = do
    node ← at t.table (index t.capacity name)
    node' ← append_entry name value node
    ok (record t { table = set t.table (index t.capacity name) node'; count = t.count + 1 })

  -- The two loops of `resize` over one chain: its entries are added to the new table, and the nodes
  -- behind the first are freed.
  unfoldable pub move_chain : HashNode V → HashTable V → Run (HashTable V)
  unfolding add_node
  move_chain null t = ok t
  move_chain dangling t = fault Fault.use_after_free
  move_chain (cell none next) t = ok t
  move_chain (cell (some e) next) t = do t' ← add_node t e.0 e.1; move_chain next t'

  unfoldable pub free_chain : HashNode V → Run (Unit {0})
  free_chain null = ok tt
  free_chain dangling = fault Fault.use_after_free
  free_chain (cell e next) = free_chain next

  unfoldable pub free_next : HashNode V → Run (Unit {0})
  unfolding free_chain
  free_next null = fault Fault.null_pointer
  free_next dangling = fault Fault.use_after_free
  free_next (cell e next) = free_chain next

  unfoldable pub move_table : List (HashNode V) → HashTable V → Run (HashTable V)
  unfolding move_chain free_next
  move_table [] t = ok t
  move_table (node ∷ nodes) t = do t' ← move_chain node t; free_next node; move_table nodes t'

  -- The new array has room to spare: it is allocated at the size of `hash_table_t`.
  unfoldable pub resize : HashTable V → Run (HashTable V)
  unfolding move_table load_limit
  resize t =
      let new_capacity = t.capacity * 2 + 1 in
      move_table t.table (record {
        table = replicate new_capacity empty_node;
        count = t.count;
        capacity = new_capacity;
        threshold = load_limit new_capacity;
      })

  -- The search of `hash_table_put`: `none` if the name is not there.
  unfoldable pub replace : Str → V → HashNode V → Run (Option (HashNode V))
  unfolding string_equal
  replace name value null = ok none
  replace name value dangling = fault Fault.use_after_free
  replace name value (cell none next) = ok none
  replace name value (cell (some e) next) =
      if string_equal (some e.0) (some name) then ok (some (cell (some (e.0, value)) next)) else do
        found ← replace name value next
        ok (elim found [ none ↦ none | some next' ↦ some (cell (some e) next') ])

  -- The end of `hash_table_put` for a new name.
  unfoldable pub grow : HashTable V → Run (HashTable V)
  unfolding resize
  grow t = if ltb t.threshold t.count then resize t else ok t

  unfoldable pub hash_table_put : HashTable V → Option Str → Option V → Run (HashTable V)
  unfolding replace add_node grow index
  hash_table_put t none value = ok t
  hash_table_put t (some name) none = ok t
  hash_table_put t (some name) (some value) = do
    node ← at t.table (index t.capacity name)
    found ← replace name value node
    elim found [
      | some node' ↦ ok (record t { table = set t.table (index t.capacity name) node' })
      | none ↦ do t' ← add_node t name value; grow t'
    ]

  unfoldable pub search_chain : Str → HashNode V → Run (Option V)
  unfolding string_equal
  search_chain name null = ok none
  search_chain name dangling = fault Fault.use_after_free
  search_chain name (cell none next) = ok none
  search_chain name (cell (some e) next) =
      if string_equal (some e.0) (some name) then ok (some e.1) else search_chain name next

  unfoldable pub hash_table_get : HashTable V → Str → Run (Option V)
  unfolding search_chain index
  hash_table_get t name = do node ← at t.table (index t.capacity name); search_chain name node

  -- `free(node->next)`: the pointer stays where it is.
  unfoldable pub free_node : HashNode V → Run (HashNode V)
  free_node null = ok null
  free_node dangling = fault Fault.use_after_free
  free_node (cell e next) = ok dangling

  -- The first node's entry goes: the next node is copied over it, if there is one. `node->next` is
  -- assigned before it is freed, so the block that is freed is the one behind the next.
  unfoldable pub unlink_head : HashNode V → Run (HashNode V)
  unfolding free_node
  unlink_head null = ok empty_node
  unlink_head dangling = fault Fault.use_after_free
  unlink_head (cell e next) = do next' ← free_node next; ok (cell e next')

  -- The loop from the second node on; it tests the name only, so it reads through NULL at the end.
  unfoldable pub remove_behind : Str → HashNode V → Run (HashNode V)
  unfolding string_equal
  remove_behind name null = fault Fault.null_pointer
  remove_behind name dangling = fault Fault.use_after_free
  remove_behind name (cell none next) = ok (cell none next)
  remove_behind name (cell (some e) next) =
      if string_equal (some e.0) (some name)
      then ok next
      else do next' ← remove_behind name next; ok (cell (some e) next')

  unfoldable pub remove_entry : Str → HashNode V → Run (HashNode V)
  unfolding unlink_head remove_behind
  remove_entry name null = fault Fault.null_pointer
  remove_entry name dangling = fault Fault.use_after_free
  remove_entry name (cell none next) = ok (cell none next)
  remove_entry name (cell (some e) next) =
      if string_equal (some e.0) (some name)
      then unlink_head next
      else do next' ← remove_behind name next; ok (cell (some e) next')

  -- `count` is not touched.
  unfoldable pub hash_table_remove : HashTable V → Str → Run (HashTable V)
  unfolding remove_entry index
  hash_table_remove t name = do
    node ← at t.table (index t.capacity name)
    node' ← remove_entry name node
    ok (record t { table = set t.table (index t.capacity name) node' })

  -- The loop of `hash_table_free` behind the first node of a row: the names and the data that it
  -- releases. `string_free` and `free` do nothing on NULL.
  unfoldable pub free_nodes : HashNode V → Run (List (Str × V))
  free_nodes null = ok []
  free_nodes dangling = fault Fault.use_after_free
  free_nodes (cell none next) = free_nodes next
  free_nodes (cell (some e) next) = do released ← free_nodes next; ok (e ∷ released)

  -- A row of `hash_table_free`: a first node without a name has no chain.
  unfoldable pub free_row : HashNode V → Run (List (Str × V))
  unfolding free_nodes
  free_row null = fault Fault.null_pointer
  free_row dangling = fault Fault.use_after_free
  free_row (cell none next) = ok []
  free_row (cell (some e) next) = do released ← free_nodes next; ok (e ∷ released)

  unfoldable pub free_rows : List (HashNode V) → Run (List (Str × V))
  unfolding free_row
  free_rows [] = ok []
  free_rows (node ∷ nodes) = do
    row ← free_row node
    released ← free_rows nodes
    ok (row ++ released)

  -- The names and the data that are released, in order; the array goes too.
  unfoldable pub hash_table_free : HashTable V → Run (List (Str × V))
  unfolding free_rows
  hash_table_free t = free_rows t.table

  -- A write through the pointer that `hash_table_get` returned for the name.
  unfoldable pub write_chain : Str → V → HashNode V → Run (HashNode V)
  unfolding replace
  write_chain name value node = do
    found ← replace name value node
    ok (elim found [ none ↦ node | some node' ↦ node' ])

  unfoldable pub write_through : HashTable V → Str → V → Run (HashTable V)
  unfolding write_chain index
  write_through t name value = do
    node ← at t.table (index t.capacity name)
    node' ← write_chain name value node
    ok (record t { table = set t.table (index t.capacity name) node' })
