-- ===== src/Yaml.antt =====
-- The configuration loader: src/lib/yaml.c, and `ic_conf_file_parse` of src/lib/conf_file.c. A
-- document is what libyaml has loaded: a table of nodes, in which collections hold the numbers of
-- their members. `room n` says whether an allocation of `n` bytes succeeds, and a document has fewer
-- than 2 ^ 26 nodes. `stack` counts the calls of `walk_through_yaml` that the stack can hold: a
-- deeper recursion is a fault, as it is for a document that contains itself.
pub mod Settings
pub mod Children
pub mod Walk
pub mod Named
pub mod Query
use inter_container_messagin.Base.{
  ℕ, zero, suc, ◌*◌, ◌+◌, Bool, Option, none, some, List, [], ◌∷◌, Bytes, Run, ok, fault, exited,
  ◌>>=◌, if◌then◌else◌, length, not,
}
use inter_container_messagin.Base.Word.{ℤ, pos, negsuc}
use inter_container_messagin.StringTree.{
  Node, node, Nodes, nil, cons, nth_child, blank_nodes, set_node_string,
}

-- The node types of libyaml; one that it does not define is `unknown`.
pub data YamlNode : Type 0 where
  scalar : Bytes → YamlNode
  mapping : List (ℕ × ℕ) → YamlNode
  sequence : List ℕ → YamlNode
  no_node : YamlNode
  unknown : YamlNode

-- `yaml_document_get_node` and `yaml_document_get_root_node`, which give NULL outside the document
pub record Document : Type 0 where
  pub get_node : ℕ → Option YamlNode
  pub root_node : Option YamlNode

-- A pointer into the string tree, with the node behind it; `none` leads outside every array.
abbrev pub NodePtr : Type 0
NodePtr = Option Node

-- The node behind a pointer as a call left it, and the result of the call.
abbrev pub Walked : Type 0
Walked = NodePtr × ℤ

abbrev pub set_child : Nodes → ℕ → Node → Nodes
set_child nil i n = nil
set_child (cons m ms) zero n = cons n ms
set_child (cons m ms) (suc i) n = cons m (set_child ms i n)

-- `string_tree_create_child_node`, with nodes of 24 bytes. Its result is not looked at here.
unfoldable pub create_child_node : (ℕ → Bool) → NodePtr → ℕ → Run NodePtr
create_child_node room none nr = if room (24 * nr) then fault else ok none
create_child_node room (some (node s cs)) nr =
    ok (some (if room (24 * nr) then node s (blank_nodes nr) else node s cs))

-- `string_tree_set_node_string` through a pointer; its result is not looked at either.
unfoldable pub set_string : (ℕ → Bool) → NodePtr → Bytes → Run NodePtr
set_string room none str = if room (length str + 1) then fault else ok none
set_string room (some n) str = ok (some (set_node_string room n str).0)

-- A step on child `i`, which is changed in place.
unfoldable pub at_child : NodePtr → ℕ → (NodePtr → Run Walked) → Run Walked
at_child none i step = fault
at_child (some (node s cs)) i step = step (nth_child cs i) >>= λ (child, rc).
    ok (some (elim child [ none ↦ node s cs | some n ↦ node s (set_child cs i n) ]), rc)

-- The case of a scalar: the string goes to the node, or to a new child if the node has one.
unfoldable pub walk_scalar : (ℕ → Bool) → Bytes → NodePtr → Run Walked
unfolding create_child_node set_string at_child
walk_scalar room str none = fault
walk_scalar room str (some (node none cs)) =
    set_string room (some (node none cs)) str >>= λ p. ok (p, pos 0)
walk_scalar room str (some (node (some s) cs)) =
    create_child_node room (some (node (some s) cs)) 1 >>= λ p.
    at_child p 0 (λ child. set_string room child str >>= λ c. ok (c, pos 0))

-- The loop over the pairs of a mapping, from child `i`; `walk` is the recursive call.
unfoldable pub walk_pairs :
    (Option YamlNode → NodePtr → Run Walked) → Document → ℕ → List (ℕ × ℕ) → NodePtr → Run Walked
unfolding at_child
walk_pairs walk doc i [] p = ok (p, pos 0)
walk_pairs walk doc i ((key, val) ∷ pairs) p = at_child p i (walk (doc.get_node key)) >>= λ (p, rc).
    elim rc [
      | pos zero ↦ at_child p i (walk (doc.get_node val)) >>= λ (p, rc). elim rc [
        | pos zero ↦ walk_pairs walk doc (suc i) pairs p
        | other ↦ ok (p, negsuc 0)
      ]
      | other ↦ ok (p, negsuc 0)
    ]

-- The loop over the items of a sequence.
unfoldable pub walk_items :
    (Option YamlNode → NodePtr → Run Walked) → Document → ℕ → List ℕ → NodePtr → Run Walked
unfolding at_child
walk_items walk doc i [] p = ok (p, pos 0)
walk_items walk doc i (item ∷ items) p = at_child p i (walk (doc.get_node item)) >>= λ (p, rc).
    elim rc [ pos zero ↦ walk_items walk doc (suc i) items p | other ↦ ok (p, negsuc 0) ]

-- `walk_through_yaml`; a NULL node faults at `node->type`.
unfoldable pub walk_through_yaml :
    (ℕ → Bool) → Document → ℕ → Option YamlNode → NodePtr → Run Walked
unfolding create_child_node walk_scalar walk_pairs walk_items
walk_through_yaml room doc zero n p = fault
walk_through_yaml room doc (suc stack) none p = fault
walk_through_yaml room doc (suc stack) (some (scalar str)) p = walk_scalar room str p
walk_through_yaml room doc (suc stack) (some (mapping pairs)) p =
    create_child_node room p (length pairs)
    >>= walk_pairs (walk_through_yaml room doc stack) doc 0 pairs
walk_through_yaml room doc (suc stack) (some (sequence [])) p = ok (p, pos 0)
walk_through_yaml room doc (suc stack) (some (sequence (item ∷ items))) p =
    create_child_node room p (length (item ∷ items))
    >>= walk_items (walk_through_yaml room doc stack) doc 0 (item ∷ items)
walk_through_yaml room doc (suc stack) (some _) p = ok (p, pos 0)

-- A configuration file: whether it may be read, whether the parser can be set up and the file be
-- opened, and the document that libyaml loads from it, if it can.
pub record File : Type 0 where
  pub readable : Bool
  pub initialized : Bool
  pub opened : Bool
  pub loaded : Option Document

-- `ic_yaml_conf_parse`, on the root of the string tree
unfoldable pub yaml_conf_parse : (ℕ → Bool) → ℕ → File → Node → Run (Node × ℤ)
unfolding walk_through_yaml
yaml_conf_parse room stack file root =
    if not file.initialized
    then ok (root, negsuc 0)
    else if not file.opened
    then ok (root, negsuc 0)
    else elim file.loaded [
      | none ↦ exited
      | some doc ↦ walk_through_yaml room doc stack doc.root_node (some root) >>= λ (p, rc).
          elim rc [ pos zero ↦ elim p [ none ↦ fault | some n ↦ ok (n, pos 0) ] | other ↦ exited ]
    ]

-- `ic_conf_file_parse`; the dump of the tree is left out.
unfoldable pub conf_file_parse : (ℕ → Bool) → ℕ → File → Node → Run (Node × ℤ)
unfolding yaml_conf_parse
conf_file_parse room stack file root =
    if file.readable then yaml_conf_parse room stack file root else exited
