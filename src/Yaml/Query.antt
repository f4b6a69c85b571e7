-- ===== src/Yaml/Query.antt =====
-- Queries of a configuration that src/lib/yaml.c has loaded, against the settings that the document
-- shows.
use inter_container_messagin.Base.{
  ℕ, ◌≤◌, ◌≡◌, refl, ap, ◌∙◌, Bool, true, Option, some, List, [], ◌∷◌, Bytes, Run, ok, ◌>>=◌,
  length, take-all,
}
use inter_container_messagin.Base.Word.{pos}
use inter_container_messagin.StringTree.{node, root}
use inter_container_messagin.StringTree.Path.{NoDots, path_of}
use inter_container_messagin.StringTree.Query.{query-find}
use inter_container_messagin.Container.{HostName, conf_file_query}
use inter_container_messagin.Yaml.{YamlNode, Document, File, yaml_conf_parse, conf_file_parse}
use inter_container_messagin.Yaml.Settings.{
  section, Settings, value_at, IsPlain, depth, Shows, nodes_of,
}
use inter_container_messagin.Yaml.Walk.{walk_setting}
use inter_container_messagin.Yaml.Named.{found_value-find, nodes_of-IsKeyed}

-- A file that libyaml loads as settings, with distinct names and texts in each section and list, with
-- no empty ones, and no deeper than the stack allows.
pub record HoldsSettings (file : File) (stack : ℕ) (es : Settings) : Type 0 where
  pub document : Document
  pub top : YamlNode
  pub readable : file.readable ≡ true
  pub initialized : file.initialized ≡ true
  pub opened : file.opened ≡ true
  pub loaded : file.loaded ≡ some document
  pub rooted : document.root_node ≡ some top
  pub shows : Shows document top (section es)
  pub plain : IsPlain (section es)
  pub shallow : depth (section es) ≤ stack

-- `ic_conf_file_parse` on the empty tree of the program, and a query of the tree that it leaves.
unfoldable pub parse_and_query : (ℕ → Bool) → (ℕ → HostName) → ℕ → File → Bytes → Run (Option Bytes)
parse_and_query room hostname stack file path =
    conf_file_parse room stack file root >>= λ (tree, rc).
    conf_file_query (record { room = room; hostname = hostname; tree = tree }) path

module _ (room : ℕ → Bool) (ample : (k : ℕ) → room k ≡ true) where
  pub conf_file_parse-nodes_of :
      (stack : ℕ) (file : File) (es : Settings)
      → HoldsSettings file stack es
      → conf_file_parse room stack file root ≡ ok (node (some (b'.' ∷ [])) (nodes_of es), pos 0)
  unfolding conf_file_parse yaml_conf_parse
  conf_file_parse-nodes_of stack file es f =
      rw (f.readable, f.initialized, f.opened, f.loaded)
        (rw f.rooted (
          rw
            (walk_setting room ample f.document stack f.top (section es) (b'.' ∷ []) f.shows f.plain
              f.shallow)
            refl))

  pub conf_file_query-value_at :
      (hostname : ℕ → HostName) (es : Settings) (t : Bytes) (ts : List Bytes)
      → IsPlain (section es)
      → NoDots (t ∷ ts)
      → length (path_of t ts) ≤ 4093
      → conf_file_query
          (record {
            room = room;
            hostname = hostname;
            tree = node (some (b'.' ∷ [])) (nodes_of es);
          })
          (b'.' ∷ path_of t ts)
        ≡ ok (value_at t ts es)
  unfolding conf_file_query
  conf_file_query-value_at hostname es t ts plain nd short =
      rw (take-all 4093 (path_of t ts) short) (
        query-find room ample t ts (nodes_of es) nd (nodes_of-IsKeyed es plain.0)
        ∙ ap ok (found_value-find t ts es plain.0))

  -- A file that libyaml loads as settings, with distinct names and texts in each section and list and
  -- no empty ones, is parsed into a tree in which a query by a dotted path gives the value of the
  -- setting that its names lead to, and none where they lead nowhere or to a section. The path may not
  -- be cut off, its names have no dots, memory must suffice and the stack hold the nesting of the
  -- file.
  pub parse-query :
      (hostname : ℕ → HostName) (stack : ℕ) (file : File) (es : Settings) (t : Bytes)
      (ts : List Bytes)
      → HoldsSettings file stack es
      → NoDots (t ∷ ts)
      → length (path_of t ts) ≤ 4093
      → parse_and_query room hostname stack file (b'.' ∷ path_of t ts) ≡ ok (value_at t ts es)
  unfolding parse_and_query
  parse-query hostname stack file es t ts f nd short =
      rw (conf_file_parse-nodes_of stack file es f)
        (conf_file_query-value_at hostname es t ts f.plain nd short)
