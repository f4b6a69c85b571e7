-- ===== src/Yaml/Walk.antt =====
-- The walk of src/lib/yaml.c over a document that shows settings.
use inter_container_messagin.Base.{
  ℕ, zero, suc, ◌+◌, ◌*◌, ◌≤◌, ◌≡◌, refl, ap, sym, ◌∙◌, Bool, true, Option, none, some, List, [],
  ◌∷◌, Bytes, Run, ok, arith, length,
}
use Prim.Native.Nat.{max}
use inter_container_messagin.Base.Word.{pos}
use inter_container_messagin.StringTree.{
  Node, node, Nodes, nil, cons, nr_child, blank_nodes, set_node_string,
}
use inter_container_messagin.Yaml.{
  YamlNode, scalar, mapping, sequence, Document, NodePtr, Walked, at_child, walk_pairs, walk_items,
  walk_through_yaml,
}
use inter_container_messagin.Yaml.Settings.{
  Setting, text, texts, section, Settings, end, entry, NoNul, NoNuls, IsPlain, ArePlain, depth,
  depths, ShowsItems, Shows, ShowsPairs, leaves, below, nodes_of,
}
use inter_container_messagin.Yaml.Children.{
  at_child_lem, c_string-NoNul, joined, joined_step, nr_child-joined,
}

module _ (walk : Option YamlNode → NodePtr → Run Walked) (doc : Document) where
  walk_items-step :
      (i item : ℕ) (items : List ℕ) (p p' : NodePtr)
      → at_child p i (walk (doc.get_node item)) ≡ ok (p', pos 0)
      → walk_items walk doc i (item ∷ items) p ≡ walk_items walk doc (suc i) items p'
  unfolding walk_items
  walk_items-step i item items p p' h = rw h

  walk_pairs-step :
      (i k v : ℕ) (pairs : List (ℕ × ℕ)) (p p' p'' : NodePtr)
      → at_child p i (walk (doc.get_node k)) ≡ ok (p', pos 0)
      → at_child p' i (walk (doc.get_node v)) ≡ ok (p'', pos 0)
      → walk_pairs walk doc i ((k, v) ∷ pairs) p ≡ walk_pairs walk doc (suc i) pairs p''
  unfolding walk_pairs
  walk_pairs-step i k v pairs p p' p'' h h' = rw h (rw h')

-- The children that are done, and the position behind them
at_next :
    (ms ns : Nodes) (n : Node) {i : ℕ} {cs : Nodes} (key : Option Bytes) (n' : Node)
    (step : NodePtr → Run Walked)
    → i ≡ nr_child ms
    → cs ≡ joined ms (cons n ns)
    → step (some n) ≡ ok (some n', pos 0)
    → at_child (some (node key cs)) i step ≡ ok (some (node key (joined ms (cons n' ns))), pos 0)
at_next ms ns n key n' step ei ec h = rw (ei, ec) (at_child_lem key ms ns n n' step h)

next_index :
    (ms : Nodes) {i : ℕ} (n' : Node) → i ≡ nr_child ms → suc i ≡ nr_child (joined ms (cons n' nil))
next_index ms n' ei = ap suc ei ∙ sym (nr_child-joined ms n')

module _ (room : ℕ → Bool) (ample : (n : ℕ) → room n ≡ true) (doc : Document) where
  walk_new :
      (stack : ℕ) (s : Bytes)
      → NoNul s
      → walk_through_yaml room doc (suc stack) (some (scalar s)) (some (node none nil))
        ≡ ok (some (node (some s) nil), pos 0)
  unfolding walk_through_yaml set_node_string
  walk_new stack s h = rw (ample (length s + 1), c_string-NoNul s h)

  walk_items_lem :
      (stack : ℕ) (items : List ℕ) (ss : List Bytes) (key : Option Bytes) (ms : Nodes) {i : ℕ}
      {cs : Nodes}
      → i ≡ nr_child ms
      → cs ≡ joined ms (blank_nodes (length items))
      → ShowsItems doc items ss
      → NoNuls ss
      → walk_items (walk_through_yaml room doc (suc stack)) doc i items (some (node key cs))
        ≡ ok (some (node key (joined ms (leaves ss))), pos 0)
  walk_items_lem stack [] [] key ms ei ec sh nn = unfold walk_items in rw ec
  walk_items_lem stack (i ∷ is) (s ∷ ss) key ms {cs = cs} ei ec (e, sh) (h, nn) =
      let new : Node = node (some s) nil in
      walk_items-step (walk_through_yaml room doc (suc stack)) doc _ i is (some (node key cs))
        (some (node key (joined ms (cons new (blank_nodes (length is))))))
        (at_next ms _ _ key new (walk_through_yaml room doc (suc stack) (doc.get_node i)) ei ec
          (rw e (walk_new stack s h)))
      ∙ walk_items_lem stack is ss key (joined ms (cons new nil)) (next_index ms new ei)
          (sym (joined_step ms (blank_nodes (length is)) new)) sh nn
      ∙ ap (λ c. ok (some (node key c), pos 0)) (joined_step ms (leaves ss) new)
  walk_items_lem stack [] (s ∷ ss) key ms ei ec sh nn = absurd sh
  walk_items_lem stack (i ∷ is) [] key ms ei ec sh nn = absurd sh

  walk_name :
      (stack : ℕ) (s : Bytes)
      → NoNul s
      → 1 ≤ stack
      → walk_through_yaml room doc stack (some (scalar s)) (some (node none nil))
        ≡ ok (some (node (some s) nil), pos 0)
  walk_name zero s h d = absurd (omega arith)
  walk_name (suc stack) s h d = walk_new stack s h

  walk_text :
      (stack : ℕ) (key s : Bytes)
      → NoNul s
      → 1 ≤ stack
      → walk_through_yaml room doc stack (some (scalar s)) (some (node (some key) nil))
        ≡ ok (some (node (some key) (cons (node (some s) nil) nil)), pos 0)
  unfolding walk_through_yaml set_node_string
  walk_text zero key s h d = absurd (omega arith)
  walk_text (suc stack) key s h d = rw (ample 24) (rw (ample (length s + 1), c_string-NoNul s h))

  walk_texts :
      (stack : ℕ) (key : Bytes) (items : List ℕ) (ss : List Bytes)
      → ShowsItems doc items ss
      → NoNuls ss
      → 2 ≤ stack
      → walk_through_yaml room doc stack (some (sequence items)) (some (node (some key) nil))
        ≡ ok (some (node (some key) (leaves ss)), pos 0)
  unfolding walk_through_yaml
  walk_texts zero key items ss sh nn d = absurd (omega arith)
  walk_texts (suc zero) key items ss sh nn d = absurd (omega arith)
  walk_texts (suc (suc stack)) key [] [] sh nn d = refl
  walk_texts (suc (suc stack)) key (i ∷ is) ss sh nn d =
      rw (ample (24 * length (i ∷ is)))
        (walk_items_lem stack (i ∷ is) ss (some key) nil refl refl sh nn)
  walk_texts (suc (suc stack)) key [] (s ∷ ss) sh nn d = absurd sh

  walk_section :
      (stack : ℕ) (key : Bytes) (pairs : List (ℕ × ℕ)) (cs : Nodes)
      → walk_pairs
          (walk_through_yaml room doc stack)
          doc
          0
          pairs
          (some (node (some key) (blank_nodes (length pairs))))
        ≡ ok (some (node (some key) cs), pos 0)
      → walk_through_yaml room doc (suc stack) (some (mapping pairs)) (some (node (some key) nil))
        ≡ ok (some (node (some key) cs), pos 0)
  unfolding walk_through_yaml
  walk_section stack key pairs cs h = rw (ample (24 * length pairs)) h

  walk_end :
      (stack i : ℕ) (key : Option Bytes) (ms : Nodes) {cs : Nodes}
      → cs ≡ joined ms nil
      → walk_pairs (walk_through_yaml room doc stack) doc i [] (some (node key cs))
        ≡ ok (some (node key (joined ms nil)), pos 0)
  unfolding walk_pairs
  walk_end stack i key ms ec = rw ec

  positive : (s : Setting) (es : Settings) {n : ℕ} → max (depth s) (depths es) ≤ n → 1 ≤ n
  positive (text s) es h = omega arith
  positive (texts ss) es h = omega arith
  positive (section fs) es h = omega arith

  mutual
    pub walk_setting :
        (stack : ℕ) (n : YamlNode) (s : Setting) (key : Bytes)
        → Shows doc n s
        → IsPlain s
        → depth s ≤ stack
        → walk_through_yaml room doc stack (some n) (some (node (some key) nil))
          ≡ ok (some (node (some key) (below s)), pos 0)
    walk_setting stack n (text s) key e pl d =
        ap (λ m. walk_through_yaml room doc stack (some m) (some (node (some key) nil))) e
        ∙ walk_text stack key s pl d
    walk_setting stack n (texts ss) key (items, e, sh) pl d =
        ap (λ m. walk_through_yaml room doc stack (some m) (some (node (some key) nil))) e
        ∙ walk_texts stack key items ss sh pl.0 d
    walk_setting zero n (section es) key sh pl d = absurd (omega arith)
    walk_setting (suc stack) n (section es) key (pairs, e, sh) pl d =
        ap (λ m. walk_through_yaml room doc (suc stack) (some m) (some (node (some key) nil))) e
        ∙ walk_section stack key pairs (nodes_of es)
            (walk_settings stack pairs es (some key) nil refl refl sh pl.0 (omega arith))

    walk_settings :
        (stack : ℕ) (pairs : List (ℕ × ℕ)) (es : Settings) (key : Option Bytes) (ms : Nodes) {i : ℕ}
        {cs : Nodes}
        → i ≡ nr_child ms
        → cs ≡ joined ms (blank_nodes (length pairs))
        → ShowsPairs doc pairs es
        → ArePlain es
        → depths es ≤ stack
        → walk_pairs (walk_through_yaml room doc stack) doc i pairs (some (node key cs))
          ≡ ok (some (node key (joined ms (nodes_of es))), pos 0)
    walk_settings stack [] end key ms ei ec sh pl d = walk_end stack _ key ms ec
    walk_settings stack ((k, v) ∷ pairs) (entry name s es) key ms {cs = cs} ei ec
          (ek, (n, en, sn), sh) (nn, out, ps, pl) d =
        let new : Node = node (some name) nil in
        let full : Node = node (some name) (below s) in
        walk_pairs-step (walk_through_yaml room doc stack) doc _ k v pairs (some (node key cs))
          (some (node key (joined ms (cons new (blank_nodes (length pairs))))))
          (some (node key (joined ms (cons full (blank_nodes (length pairs))))))
          (at_next ms _ _ key new (walk_through_yaml room doc stack (doc.get_node k)) ei ec
            (rw ek (walk_name stack name nn (positive s es d))))
          (at_next ms _ _ key full (walk_through_yaml room doc stack (doc.get_node v)) ei refl
            (rw en (walk_setting stack n s name sn ps (omega arith))))
        ∙ walk_settings stack pairs es key (joined ms (cons full nil)) (next_index ms full ei)
            (sym (joined_step ms (blank_nodes (length pairs)) full)) sh pl (omega arith)
        ∙ ap (λ c. ok (some (node key c), pos 0)) (joined_step ms (nodes_of es) full)
    walk_settings stack [] (entry name s es) key ms ei ec sh pl d = absurd sh
    walk_settings stack (p ∷ pairs) end key ms ei ec sh pl d = absurd sh
