-- ===== src/StringTree/Find.antt =====
-- What a tree of strings holds, apart from how src/lib/string_tree.c searches it.
use inter_container_messagin.Base.{
  ◌≡◌, ap, sym, false, Option, none, some, List, [], ◌∷◌, ◌++◌, Bytes, if◌then◌else◌, bytes_eq,
  append-nil,
}
use inter_container_messagin.StringTree.{node, Nodes, nil, cons}
use inter_container_messagin.Util.Split.{behind}

-- The children of the first node of that name.
unfoldable pub find_child : Bytes → Nodes → Option Nodes
find_child name nil = none
find_child name (cons (node none cs) ns) = find_child name ns
find_child name (cons (node (some s) cs) ns) =
    if bytes_eq s name then some cs else find_child name ns

-- The children that the names lead to.
unfoldable pub find : Bytes → List Bytes → Nodes → Option Nodes
unfolding find_child
find name [] ns = find_child name ns
find name (t ∷ ts) ns = elim (find_child name ns) [ none ↦ none | some cs ↦ find t ts cs ]

-- The strings of nodes without children, in order; `none` if one has children.
unfoldable pub leaf_strings : Nodes → Option (List Bytes)
leaf_strings nil = some []
leaf_strings (cons (node (some s) nil) ns) = elim (leaf_strings ns) [
  | none ↦ none
  | some ss ↦ some (s ∷ ss)
]
leaf_strings (cons _ ns) = none

-- Strings joined by colons; the empty list has no value.
unfoldable pub colon_joined : List Bytes → Option Bytes
colon_joined [] = none
colon_joined (s ∷ []) = some s
colon_joined (s ∷ t ∷ ss) = elim (colon_joined (t ∷ ss)) [
  | none ↦ none
  | some r ↦ some (s ++ (b':' ∷ r))
]

abbrev pub leaf_value : Option (List Bytes) → Option Bytes
leaf_value none = none
leaf_value (some ss) = colon_joined ss

abbrev pub found_value : Option Nodes → Option Bytes
found_value none = none
found_value (some cs) = leaf_value (leaf_strings cs)

-- Every node of the tree has its string, and no two siblings have the same.
abbrev pub Unnamed : Bytes → Nodes → Type 0
Unnamed s nil = Unit
Unnamed s (cons (node none cs) ns) = Unnamed s ns
Unnamed s (cons (node (some t) cs) ns) = (bytes_eq t s ≡ false) × Unnamed s ns

abbrev pub IsKeyed : Nodes → Type 0
IsKeyed nil = Unit
IsKeyed (cons (node none cs) ns) = ⊥
IsKeyed (cons (node (some s) cs) ns) = Unnamed s ns × IsKeyed cs × IsKeyed ns

-- Strings, each behind a colon.
abbrev pub colons : List Bytes → Bytes
colons = behind (b':' ∷ [])

abbrev pub extended : Bytes → Option (List Bytes) → Option Bytes
extended r none = none
extended r (some ss) = some (r ++ colons ss)

pub colon_joined-colons :
    (s : Bytes) (ss : List Bytes) → colon_joined (s ∷ ss) ≡ some (s ++ colons ss)
unfolding colon_joined
colon_joined-colons s [] = ap some (sym (append-nil s))
colon_joined-colons s (t ∷ ss) = rw (colon_joined-colons t ss)
