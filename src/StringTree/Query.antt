-- ===== src/StringTree/Query.antt =====
-- The query of src/lib/string_tree.c against a lookup of the names on the path, one at a time.
use inter_container_messagin.Base.{
  ℕ, ◌+◌, ◌≡◌, refl, ap, sym, Bool, true, false, Option, none, some, List, [], ◌∷◌, ◌++◌, Bytes,
  Run, ok, inl, inr, arith, if◌then◌else◌, length, bytes_eq, bytes_eq_iff, append-nil, append_assoc,
  Bool-cases,
}
use mathlib.Core.Path.{subst}
use inter_container_messagin.StringTree.{
  node, Nodes, nil, cons, join_children, query_leaf, after_child, query_node, query_children, query,
}
use inter_container_messagin.StringTree.Path.{NoDot, NoDots, path_of, matches-path_of, drop-path_of}
use inter_container_messagin.StringTree.Find.{
  IsKeyed, Unnamed, colon_joined, colon_joined-colons, colons, extended, find, found_value,
  leaf_strings, leaf_value,
}

module _ (room : ℕ → Bool) (ample : (n : ℕ) → room n ≡ true) where
  join_children-extended :
      (r : Bytes) (len : ℕ) (ns : Nodes)
      → IsKeyed ns
      → join_children room (some r) len ns ≡ ok (extended r (leaf_strings ns))
  unfolding join_children leaf_strings
  join_children-extended r len nil k = ap (λ x. ok (some x)) (sym (append-nil r))
  join_children-extended r len (cons (node (some s) nil) ns) k =
      rw
        (
          ample (len + length s + 1),
          join_children-extended (r ++ (b':' ∷ s)) (len + length s + 1) ns k.2,
        )
        (ap ok (extended-cons r s (leaf_strings ns)))
    where
      extended-cons :
          (r s : Bytes) (o : Option (List Bytes))
          → extended (r ++ (b':' ∷ s)) o
            ≡ extended r (elim o [ none ↦ none | some ss ↦ some (s ∷ ss) ])
      extended-cons r s none = refl
      extended-cons r s (some ss) = ap some (append_assoc r (b':' ∷ s) (colons ss))
  join_children-extended r len (cons (node (some s) (cons c cs)) ns) k = refl
  join_children-extended r len (cons (node none cs) ns) k = absurd k

  query_leaf_lem :
      (ns : Nodes) → IsKeyed ns → query_leaf room ns ≡ ok (leaf_value (leaf_strings ns))
  unfolding query_leaf leaf_strings
  query_leaf_lem nil k = unfold colon_joined in refl
  query_leaf_lem (cons (node (some s) nil) ns) k =
      rw (ample (0 + length s + 1), join_children-extended s (0 + length s + 1) ns k.2)
        (ap ok (value (leaf_strings ns)))
    where
      value :
          (o : Option (List Bytes))
          → extended s o ≡ leaf_value (elim o [ none ↦ none | some ss ↦ some (s ∷ ss) ])
      value none = refl
      value (some ss) = sym (colon_joined-colons s ss)
  query_leaf_lem (cons (node (some s) (cons c cs)) ns) k = refl
  query_leaf_lem (cons (node none cs) ns) k = absurd k

  -- The step at one node, by whether its string is the first name.
  deeper : Bytes → List Bytes → Nodes → Run (Bool × Option Bytes)
  deeper t [] cs = ok (true, leaf_value (leaf_strings cs))
  deeper t (u ∷ us) cs = query_children room (path_of u us) true cs

  query_node_lem :
      (t : Bytes) (ts : List Bytes) (flag : Bool) (s : Bytes) (cs : Nodes)
      → NoDot t
      → IsKeyed cs
      → query_node room (path_of t ts) flag (node (some s) cs)
        ≡ (if bytes_eq s t then deeper t ts cs else ok (flag, none))
  unfolding query_node deeper
  query_node_lem t [] flag s cs nd k =
      rw (matches-path_of s t [] nd, drop-path_of t [] nd, query_leaf_lem cs k)
  query_node_lem t (u ∷ us) flag s cs nd k =
      rw (matches-path_of s t (u ∷ us) nd, drop-path_of t (u ∷ us) nd) (ground arith)

  query_children-Unnamed :
      (t : Bytes) (ts : List Bytes) (ns : Nodes)
      → NoDot t
      → IsKeyed ns
      → Unnamed t ns
      → query_children room (path_of t ts) false ns ≡ ok (false, none)
  unfolding query_children
  query_children-Unnamed t ts nil nd k u = refl
  query_children-Unnamed t ts (cons (node (some s) cs) ns) nd k u =
      rw (query_node_lem t ts false s cs nd k.1, u.0) (query_children-Unnamed t ts ns nd k.2 u.1)
  query_children-Unnamed t ts (cons (node none cs) ns) nd k u = absurd k

  -- An answer from the node that matches, followed by siblings that do not.
  settled :
      (a : Bool) (v : Option Bytes) {later : Run (Bool × Option Bytes)}
      → later ≡ ok (false, none)
      → (b : Bool) × (after_child (a, v) later ≡ ok (b, v))
  settled a (some r) e = (a, refl)
  settled true none e = (true, refl)
  settled false none e = (false, e)

  find-hit :
      (t u : Bytes) (us : List Bytes) (s : Bytes) (cs ns : Nodes)
      → bytes_eq s t ≡ true
      → find t (u ∷ us) (cons (node (some s) cs) ns) ≡ find u us cs
  unfolding find
  find-hit t u us s cs ns h = ground arith

  find-miss :
      (t : Bytes) (ts : List Bytes) (s : Bytes) (cs ns : Nodes)
      → bytes_eq s t ≡ false
      → find t ts (cons (node (some s) cs) ns) ≡ find t ts ns
  unfolding find
  find-miss t [] s cs ns h = rw h
  find-miss t (u ∷ us) s cs ns h = ground arith

  query_children-find :
      (t : Bytes) (ts : List Bytes) (flag : Bool) (ns : Nodes)
      → NoDots (t ∷ ts)
      → IsKeyed ns
      → (a : Bool) × (query_children room (path_of t ts) flag ns
          ≡ ok (a, found_value (find t ts ns)))
  unfolding query_children find deeper
  query_children-find t [] flag nil nd k = (flag, refl)
  query_children-find t (u ∷ us) flag nil nd k = (flag, refl)
  query_children-find t [] flag (cons (node (some s) cs) ns) nd k =
      elim (Bool-cases (bytes_eq s t)) [
        | inl same ↦
            let unnamed = subst (λ n. Unnamed n ns) ((bytes_eq_iff s t).0 same) k.0 in
            rw (query_node_lem t [] false s cs nd.0 k.1, same)
              (settled true (leaf_value (leaf_strings cs))
                (query_children-Unnamed t [] ns nd.0 k.2 unnamed))
        | inr other ↦
            rw (query_node_lem t [] false s cs nd.0 k.1, other)
              (query_children-find t [] false ns nd k.2)
      ]
  query_children-find t (u ∷ us) flag (cons (node (some s) cs) ns) nd k =
      elim (Bool-cases (bytes_eq s t)) [
        | inl same ↦
            let unnamed = subst (λ n. Unnamed n ns) ((bytes_eq_iff s t).0 same) k.0 in
            let (a, below) = query_children-find u us true cs nd.1 k.1 in
            rw (find-hit t u us s cs ns same, query_node_lem t (u ∷ us) false s cs nd.0 k.1, same)
              (rw below (
                settled a (found_value (find u us cs))
                  (query_children-Unnamed t (u ∷ us) ns nd.0 k.2 unnamed)))
        | inr other ↦
            rw
              (
                find-miss t (u ∷ us) s cs ns other,
                query_node_lem t (u ∷ us) false s cs nd.0 k.1,
                other,
              )
              (query_children-find t (u ∷ us) false ns nd k.2)
      ]
  query_children-find t _ flag (cons (node none cs) ns) nd k = absurd k

  -- In a tree whose siblings all have distinct strings, a query below the root "." follows the names
  -- of the path one by one and gives the strings of the last node's children joined by colons. It
  -- has no result when a name is missing, when there are no children, or when one of them has
  -- children itself. No name may contain a dot, and memory must suffice.
  pub query-find :
      (t : Bytes) (ts : List Bytes) (ns : Nodes)
      → NoDots (t ∷ ts)
      → IsKeyed ns
      → query room (node (some (b'.' ∷ [])) ns) (b'.' ∷ path_of t ts)
        ≡ ok (found_value (find t ts ns))
  unfolding query
  query-find t [] nil nd k = unfold find in refl
  query-find t (u ∷ us) nil nd k = unfold find in refl
  query-find t ts (cons c cs) nd k =
      let (a, e) = query_children-find t ts false (cons c cs) nd k in rw e refl
