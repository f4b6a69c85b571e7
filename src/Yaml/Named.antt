-- ===== src/Yaml/Named.antt =====
-- The string tree of some settings (src/lib/yaml.c), and what its names lead to.
use inter_container_messagin.Base.{
  ◌≡◌, refl, ap, ◌∙◌, Option, none, some, List, [], ◌∷◌, Bytes, arith, inl, inr, ◌⊎◌, bytes_eq,
  Bool-cases,
}
use inter_container_messagin.StringTree.{node, Nodes, nil, cons}
use inter_container_messagin.StringTree.Find.{
  find_child, find, leaf_strings, colon_joined, found_value, Unnamed, IsKeyed,
}
use inter_container_messagin.Yaml.Settings.{
  Setting, text, texts, section, Settings, end, entry, value, lookup, value_at, Missing, Unlisted,
  NoRepeats, IsPlain, ArePlain, leaves, below, nodes_of,
}

-- The tree of plain settings has distinct siblings.
leaves-Unnamed : (s : Bytes) (ss : List Bytes) → Unlisted s ss → Unnamed s (leaves ss)
leaves-Unnamed s [] h = tt
leaves-Unnamed s (t ∷ ts) (h, hs) = (h, leaves-Unnamed s ts hs)

leaves-IsKeyed : (ss : List Bytes) → NoRepeats ss → IsKeyed (leaves ss)
leaves-IsKeyed [] h = tt
leaves-IsKeyed (s ∷ ss) (h, hs) = (leaves-Unnamed s ss h, tt, leaves-IsKeyed ss hs)

nodes_of-Unnamed : (name : Bytes) (es : Settings) → Missing name es → Unnamed name (nodes_of es)
nodes_of-Unnamed name end h = tt
nodes_of-Unnamed name (entry key s es) (h, hs) = (h, nodes_of-Unnamed name es hs)

mutual
  below-IsKeyed : (s : Setting) → IsPlain s → IsKeyed (below s)
  below-IsKeyed (text s) p = (tt, tt, tt)
  below-IsKeyed (texts ss) p = leaves-IsKeyed ss p.1
  below-IsKeyed (section es) p = nodes_of-IsKeyed es p.0

  pub nodes_of-IsKeyed : (es : Settings) → ArePlain es → IsKeyed (nodes_of es)
  nodes_of-IsKeyed end p = tt
  nodes_of-IsKeyed (entry key s es) (n, m, p, ps) =
      (nodes_of-Unnamed key es m, below-IsKeyed s p, nodes_of-IsKeyed es ps)

-- What a name leads to
abbrev pub below? : Option Setting → Option Nodes
below? none = none
below? (some s) = some (below s)

pub find_child-nodes_of :
    (name : Bytes) (es : Settings) → find_child name (nodes_of es) ≡ below? (lookup name es)
unfolding find_child lookup
find_child-nodes_of name end = refl
find_child-nodes_of name (entry key s es) = elim (Bool-cases (bytes_eq key name)) [
  | inl same ↦ rw same
  | inr other ↦ rw other (find_child-nodes_of name es)
]

abbrev IsPlain? : Option Setting → Type 0
IsPlain? none = Unit
IsPlain? (some s) = IsPlain s

lookup-IsPlain? : (name : Bytes) (es : Settings) → ArePlain es → IsPlain? (lookup name es)
unfolding lookup
lookup-IsPlain? name end p = tt
lookup-IsPlain? name (entry key s es) (n, m, p, ps) = elim (Bool-cases (bytes_eq key name)) [
  | inl same ↦ rw same p
  | inr other ↦ rw other (lookup-IsPlain? name es ps)
]

leaf_strings-leaves : (ss : List Bytes) → leaf_strings (leaves ss) ≡ some ss
unfolding leaf_strings
leaf_strings-leaves [] = refl
leaf_strings-leaves (s ∷ ss) = rw (leaf_strings-leaves ss)

-- A plain section has a name with something below it, so it has no value.
leaf_strings-section :
    (key : Bytes) (s : Setting) (es : Settings)
    → IsPlain s
    → leaf_strings (cons (node (some key) (below s)) (nodes_of es)) ≡ none
unfolding leaf_strings
leaf_strings-section key (text s) es p = refl
leaf_strings-section key (texts []) es (n, r, ne) = absurd (ne refl)
leaf_strings-section key (texts (t ∷ ts)) es p = refl
leaf_strings-section key (section end) es (p, ne) = absurd (ne refl)
leaf_strings-section key (section (entry k s fs)) es p = refl

found_value-below : (s : Setting) → IsPlain s → found_value (some (below s)) ≡ value s
unfolding leaf_strings
found_value-below (text s) p = unfold colon_joined in refl
found_value-below (texts ss) p = rw (leaf_strings-leaves ss)
found_value-below (section end) (p, ne) = absurd (ne refl)
found_value-below (section (entry key s es)) ((n, m, p, ps), ne) =
    rw (leaf_strings-section key s es p)

-- Below a text or a list there is nothing with a value.
find_child-leaves :
    (name : Bytes) (ss : List Bytes)
    → (find_child name (leaves ss) ≡ none) ⊎ (find_child name (leaves ss) ≡ some nil)
unfolding find_child
find_child-leaves name [] = inl refl
find_child-leaves name (s ∷ ss) = ground (arith, find_child-leaves name ss)

find-nil : (t : Bytes) (ts : List Bytes) → find t ts nil ≡ none
unfolding find
find-nil t [] = refl
find-nil t (u ∷ us) = refl

find-leaves :
    (t : Bytes) (ts : List Bytes) (ss : List Bytes) → found_value (find t ts (leaves ss)) ≡ none
unfolding find leaf_strings colon_joined
find-leaves t [] ss = elim (find_child-leaves t ss) [
  | inl e ↦ ap found_value e
  | inr e ↦ ap found_value e
]
find-leaves t (u ∷ us) ss = elim (find_child-leaves t ss) [
  | inl e ↦ ap (λ o. found_value (elim o [ none ↦ none | some cs ↦ find u us cs ])) e
  | inr e ↦
      ap (λ o. found_value (elim o [ none ↦ none | some cs ↦ find u us cs ])) e
      ∙ ap found_value (find-nil u us)
]

-- One name, and a name with others behind it, by what it leads to
at_name :
    (o : Option Setting)
    → IsPlain? o
    → found_value (below? o) ≡ elim o [ none ↦ none | some s ↦ value s ]
at_name none p = refl
at_name (some s) p = found_value-below s p

through_name :
    (u : Bytes) (us : List Bytes)
    → ((fs : Settings) → ArePlain fs → found_value (find u us (nodes_of fs)) ≡ value_at u us fs)
    → (o : Option Setting) → IsPlain? o
    → found_value (elim (below? o) [ none ↦ none | some cs ↦ find u us cs ])
      ≡ elim o [ some (section fs) ↦ value_at u us fs | _ ↦ none ]
through_name u us ih none p = refl
through_name u us ih (some (text s)) p = find-leaves u us (s ∷ [])
through_name u us ih (some (texts ss)) p = find-leaves u us ss
through_name u us ih (some (section fs)) p = ih fs p.0

pub found_value-find :
    (t : Bytes) (ts : List Bytes) (es : Settings)
    → ArePlain es
    → found_value (find t ts (nodes_of es)) ≡ value_at t ts es
unfolding find value_at
found_value-find t [] es p =
    rw (find_child-nodes_of t es) (at_name (lookup t es) (lookup-IsPlain? t es p))
found_value-find t (u ∷ us) es p =
    ap (λ o. found_value (elim o [ none ↦ none | some cs ↦ find u us cs ]))
      (find_child-nodes_of t es)
    ∙ (through_name u us (λ fs. found_value-find u us fs) (lookup t es) (lookup-IsPlain? t es p))
