-- ===== src/Yaml/Settings.antt =====
-- The settings that a configuration document (src/lib/yaml.c) is meant to hold: names with a text, a
-- list of texts, or a section of further names.
use inter_container_messagin.Base.{
  false, ℕ, suc, ◌≡◌, Option, none, some, List, [], ◌∷◌, Bytes, bytes_eq, if◌then◌else◌,
}
use Prim.Native.Nat.{max}
use inter_container_messagin.StringTree.{node, Nodes, nil, cons}
use inter_container_messagin.StringTree.Find.{colon_joined}
use inter_container_messagin.Yaml.{YamlNode, scalar, mapping, sequence, Document}

mutual
  pub data Setting : Type 0 where
    text : Bytes → Setting
    texts : List Bytes → Setting
    section : Settings → Setting

  pub data Settings : Type 0 where
    end : Settings
    entry : Bytes → Setting → Settings → Settings

-- The value of a setting, if it has one: a text, or texts joined by colons.
abbrev pub value : Setting → Option Bytes
value (text s) = some s
value (texts ss) = colon_joined ss
value (section es) = none

-- The setting of a name; the first one counts.
unfoldable pub lookup : Bytes → Settings → Option Setting
lookup name end = none
lookup name (entry key s es) = if bytes_eq key name then some s else lookup name es

-- The value behind a path of names through sections.
unfoldable pub value_at : Bytes → List Bytes → Settings → Option Bytes
unfolding lookup
value_at name [] es = elim (lookup name es) [ none ↦ none | some s ↦ value s ]
value_at name (t ∷ ts) es = elim (lookup name es) [
  | some (section fs) ↦ value_at t ts fs
  | _ ↦ none
]

-- No NUL in a text, as in the scalars that C code can read.
abbrev pub NoNul : Bytes → Type 0
NoNul [] = Unit
NoNul (c ∷ cs) = ((c ≡ 0) → ⊥) × NoNul cs

abbrev pub NoNuls : List Bytes → Type 0
NoNuls [] = Unit
NoNuls (s ∷ ss) = NoNul s × NoNuls ss

-- The names of a list of settings
abbrev pub Missing : Bytes → Settings → Type 0
Missing name end = Unit
Missing name (entry key s es) = (bytes_eq key name ≡ false) × Missing name es

abbrev pub Unlisted : Bytes → List Bytes → Type 0
Unlisted s [] = Unit
Unlisted s (t ∷ ts) = (bytes_eq t s ≡ false) × Unlisted s ts

abbrev pub NoRepeats : List Bytes → Type 0
NoRepeats [] = Unit
NoRepeats (s ∷ ss) = Unlisted s ss × NoRepeats ss

-- No name stands twice in a section and no text twice in a list, sections and lists are not empty, and
-- there are no NULs.
abbrev mutual
  pub IsPlain : Setting → Type 0
  IsPlain (text s) = NoNul s
  IsPlain (texts ss) = NoNuls ss × NoRepeats ss × ((ss ≡ []) → ⊥)
  IsPlain (section es) = ArePlain es × ((es ≡ end) → ⊥)

  pub ArePlain : Settings → Type 0
  ArePlain end = Unit
  ArePlain (entry key s es) = NoNul key × Missing key es × IsPlain s × ArePlain es

-- The collections in a setting that lie inside one another, itself included
abbrev mutual
  pub depth : Setting → ℕ
  depth (text s) = 1
  depth (texts ss) = 2
  depth (section es) = suc (depths es)

  pub depths : Settings → ℕ
  depths end = 1
  depths (entry key s es) = max (depth s) (depths es)

-- A node of a document shows a setting.
module _ (doc : Document) where
  abbrev pub ShowsItems : List ℕ → List Bytes → Type 0
  ShowsItems [] [] = Unit
  ShowsItems (i ∷ is) (s ∷ ss) = (doc.get_node i ≡ some (scalar s)) × ShowsItems is ss
  ShowsItems _ _ = ⊥

  abbrev mutual
    pub Shows : YamlNode → Setting → Type 0
    Shows n (text s) = n ≡ scalar s
    Shows n (texts ss) = (items : List ℕ) × (n ≡ sequence items) × ShowsItems items ss
    Shows n (section es) = (pairs : List (ℕ × ℕ)) × (n ≡ mapping pairs) × ShowsPairs pairs es

    pub ShowsPairs : List (ℕ × ℕ) → Settings → Type 0
    ShowsPairs [] end = Unit
    ShowsPairs ((k, v) ∷ pairs) (entry key s es) =
        (doc.get_node k ≡ some (scalar key))
        × ((n : YamlNode) × (doc.get_node v ≡ some n) × Shows n s)
        × ShowsPairs pairs es
    ShowsPairs _ _ = ⊥

-- The nodes of the string tree for settings
abbrev pub leaves : List Bytes → Nodes
leaves [] = nil
leaves (s ∷ ss) = cons (node (some s) nil) (leaves ss)

abbrev mutual
  pub below : Setting → Nodes
  below (text s) = cons (node (some s) nil) nil
  below (texts ss) = leaves ss
  below (section es) = nodes_of es

  pub nodes_of : Settings → Nodes
  nodes_of end = nil
  nodes_of (entry key s es) = cons (node (some key) (below s)) (nodes_of es)
