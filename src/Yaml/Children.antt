-- ===== src/Yaml/Children.antt =====
-- The children that the loader of src/lib/yaml.c adds to a node.
use inter_container_messagin.Base.{suc, ◌≡◌, refl, ap, Option, some, [], ◌∷◌, Bytes, Run, ok, arith}
use inter_container_messagin.Base.Word.{pos}
use inter_container_messagin.StringTree.{
  Node, node, Nodes, nil, cons, nr_child, nth_child, c_string,
}
use inter_container_messagin.Yaml.{NodePtr, Walked, set_child, at_child}
use inter_container_messagin.Yaml.Settings.{NoNul}

abbrev pub joined : Nodes → Nodes → Nodes
joined nil ns = ns
joined (cons m ms) ns = cons m (joined ms ns)

pub joined_step :
    (ms ns : Nodes) (n : Node) → joined (joined ms (cons n nil)) ns ≡ joined ms (cons n ns)
joined_step nil ns n = refl
joined_step (cons m ms) ns n = ap (cons m) (joined_step ms ns n)

pub nr_child-joined :
    (ms : Nodes) (n : Node) → nr_child (joined ms (cons n nil)) ≡ suc (nr_child ms)
nr_child-joined nil n = refl
nr_child-joined (cons m ms) n = ap suc (nr_child-joined ms n)

nth_child-joined :
    (ms ns : Nodes) (n : Node) → nth_child (joined ms (cons n ns)) (nr_child ms) ≡ some n
nth_child-joined nil ns n = refl
nth_child-joined (cons m ms) ns n = nth_child-joined ms ns n

set_child-joined :
    (ms ns : Nodes) (n n' : Node)
    → set_child (joined ms (cons n ns)) (nr_child ms) n' ≡ joined ms (cons n' ns)
set_child-joined nil ns n n' = refl
set_child-joined (cons m ms) ns n n' = ap (cons m) (set_child-joined ms ns n n')

pub c_string-NoNul : (s : Bytes) → NoNul s → c_string s ≡ s
c_string-NoNul [] h = refl
c_string-NoNul (c ∷ cs) (ne, h) = ground (arith, c_string-NoNul cs h)

-- A step on the child behind those that are done.
pub at_child_lem :
    (s : Option Bytes) (ms ns : Nodes) (n n' : Node) (step : NodePtr → Run Walked)
    → step (some n) ≡ ok (some n', pos 0)
    → at_child (some (node s (joined ms (cons n ns)))) (nr_child ms) step
      ≡ ok (some (node s (joined ms (cons n' ns))), pos 0)
unfolding at_child
at_child_lem s ms ns n n' step h =
    rw (nth_child-joined ms ns n) (rw h (rw (set_child-joined ms ns n n')))
