-- ===== src/StringTree.antt =====
-- The string tree of src/lib/string_tree.c and src/lib/string_tree.h, in which the configuration is
-- kept, and its query by a dotted path. A node whose string was never set has `none`; reading that
-- string is a fault. `room n` says whether an allocation of `n` bytes succeeds. The dump of a tree
-- and the debugging output are left out.
pub mod Path
pub mod Find
pub mod Query
use inter_container_messagin.Base.{
  ℕ, zero, suc, ◌+◌, Bool, true, false, ◌&&◌, Option, none, some, [], ◌∷◌, ◌++◌, Bytes, Run, ok,
  fault, ◌>>=◌, ltb, ◌==◌, if◌then◌else◌, length, drop,
}
use inter_container_messagin.Base.Word.{ℤ, pos, negsuc}

-- `string_tree_node_t`: its string, and its array of `nr_child` children.
mutual
  pub data Node : Type 0 where
    node : Option Bytes → Nodes → Node

  pub data Nodes : Type 0 where
    nil : Nodes
    cons : Node → Nodes → Nodes

abbrev pub string : Node → Option Bytes
string (node s cs) = s

abbrev pub children : Node → Nodes
children (node s cs) = cs

abbrev pub nr_child : Nodes → ℕ
nr_child nil = 0
nr_child (cons n ns) = suc (nr_child ns)

abbrev pub nth_child : Nodes → ℕ → Option Node
nth_child nil i = none
nth_child (cons n ns) zero = some n
nth_child (cons n ns) (suc i) = nth_child ns i

-- `string_tree_get_child_node`: NULL when the index is out of range.
unfoldable pub get_child_node : Node → ℕ → Option Node
get_child_node parent index =
    if ltb index (nr_child (children parent)) then nth_child (children parent) index else none

-- `nr` zeroed nodes
abbrev pub blank_nodes : ℕ → Nodes
blank_nodes zero = nil
blank_nodes (suc nr) = cons (node none nil) (blank_nodes nr)

abbrev pub root : Node
root = node (some (b'.' ∷ [])) nil

-- Up to the NUL, as `strncpy` copies.
abbrev pub c_string : Bytes → Bytes
c_string [] = []
c_string (c ∷ cs) = if c == 0 then [] else c ∷ c_string cs

-- `string_tree_set_node_string`
unfoldable pub set_node_string : (ℕ → Bool) → Node → Bytes → Node × ℤ
set_node_string room (node s cs) str =
    if room (length str + 1) then (node (some (c_string str)) cs, pos 0) else (node s cs, negsuc 0)

-- `!strncmp(s, t, n)`
unfoldable pub same_prefix : Bytes → Bytes → ℕ → Bool
same_prefix s t zero = true
same_prefix [] [] (suc n) = true
same_prefix (x ∷ s) (y ∷ t) (suc n) = x == y && same_prefix s t n
same_prefix _ _ (suc n) = false

-- The bytes in front of the first dot, or all: what `strchr` and `strlen` make of `len`.
unfoldable pub segment_length : Bytes → ℕ
segment_length [] = 0
segment_length (c ∷ cs) = if c == b'.' then 0 else suc (segment_length cs)

unfoldable pub matches : Bytes → Bytes → Bool
unfolding same_prefix segment_length
matches s path = same_prefix s path (segment_length path) && length s == segment_length path

-- The loop that joins the strings of the children by colons. `result` is the string built so far,
-- `result_len` the bytes that it takes with its NUL.
unfoldable pub join_children : (ℕ → Bool) → Option Bytes → ℕ → Nodes → Run (Option Bytes)
join_children room result result_len nil = ok result
join_children room result result_len (cons (node s (cons c cs)) rest) = ok none
join_children room result result_len (cons (node none nil) rest) = fault
join_children room result result_len (cons (node (some s) nil) rest) =
    let longer : Bytes = elim result [ none ↦ s | some r ↦ r ++ (b':' ∷ s) ] in
    let more = join_children room (some longer) (result_len + length s + 1) rest in
    if room (result_len + length s + 1) then more else ok none

-- The part of `query_string_tree` at the end of the path.
unfoldable pub query_leaf : (ℕ → Bool) → Nodes → Run (Option Bytes)
unfolding join_children
query_leaf room nil = ok none
query_leaf room (cons c cs) = join_children room none 0 (cons c cs)

-- What the loop over the children does with the answer of one: the flag is `*associated`.
abbrev pub after_child : Bool × Option Bytes → Run (Bool × Option Bytes) → Run (Bool × Option Bytes)
after_child (associated, some result) rest = ok (associated, some result)
after_child (true, none) rest = ok (true, none)
after_child (false, none) rest = rest

-- `query_string_tree`, and its loop over the children. The flag `*associated` is passed in and
-- returned with the result.
unfoldable mutual
  pub query_node : (ℕ → Bool) → Bytes → Bool → Node → Run (Bool × Option Bytes)
  query_node room path associated (node none cs) = fault
  query_node room path associated (node (some s) cs) =
      let rest = drop (segment_length path) path in
      let below = query_children room (drop 1 rest) true cs in
      let here = query_leaf room cs >>= λ result. ok (true, result) in
      if matches s path then (if length rest == 0 then here else below) else ok (associated, none)

  pub query_children : (ℕ → Bool) → Bytes → Bool → Nodes → Run (Bool × Option Bytes)
  query_children room path associated nil = ok (associated, none)
  query_children room path associated (cons n ns) =
      let later = query_children room path false ns in
      query_node room path false n >>= λ answer. after_child answer later

-- `string_tree_query` over the root node
unfoldable pub query : (ℕ → Bool) → Node → Bytes → Run (Option Bytes)
unfolding same_prefix
query room (node s nil) path = ok none
query room (node none (cons c cs)) path = fault
query room (node (some s) (cons c cs)) path =
    if same_prefix s path (length s)
    then (query_children room (drop (length s) path) false (cons c cs) >>= λ answer. ok answer.1)
    else ok none
