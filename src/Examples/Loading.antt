-- ===== src/Examples/Loading.antt =====
-- A configuration file (src/lib/yaml.c and src/lib/conf_file.c) at a concrete document.
use inter_container_messagin.Base.{
  ◌≡◌, refl, true, some, List, get_elem?, [], ◌∷◌, ok, arith, bytes_eq,
}
use inter_container_messagin.Container.{no_name}
use inter_container_messagin.Yaml.{YamlNode, scalar, mapping, sequence, Document, File}
use inter_container_messagin.Yaml.Settings.{
  text, texts, section, Settings, end, entry, value_at, Shows, ArePlain,
}
use inter_container_messagin.StringTree.Find.{colon_joined}
use inter_container_messagin.Yaml.Query.{parse_and_query, parse-query, HoldsSettings}
use inter_container_messagin.Examples.Text.{codes}

-- container_name: c1
-- c1: {monitor: [a, c1]}
abbrev nodes : List YamlNode
nodes =
    mapping ((1, 2) ∷ (3, 4) ∷ [])
    ∷ scalar (codes "container_name")
    ∷ scalar (codes "c1")
    ∷ scalar (codes "c1")
    ∷ mapping ((5, 6) ∷ [])
    ∷ scalar (codes "monitor")
    ∷ sequence (7 ∷ 8 ∷ [])
    ∷ scalar (codes "a")
    ∷ scalar (codes "c1")
    ∷ []

abbrev document : Document
document = record { get_node = get_elem? nodes; root_node = get_elem? nodes 0 }

abbrev pub settings : Settings
settings = entry (codes "container_name") (text (codes "c1")) (
    entry (codes "c1") (section (entry (codes "monitor") (texts (codes "a" ∷ codes "c1" ∷ [])) end))
      end)

abbrev pub file : File
file = record { readable = true; initialized = true; opened = true; loaded = some document }

settings-Shows : Shows document (mapping ((1, 2) ∷ (3, 4) ∷ [])) (section settings)
settings-Shows = (
  (1, 2) ∷ (3, 4) ∷ [],
  refl,
  (
    refl,
    (scalar (codes "c1"), refl, refl),
    (
      refl,
      (
        mapping ((5, 6) ∷ []),
        refl,
        (
          (5, 6) ∷ [],
          refl,
          (refl, (sequence (7 ∷ 8 ∷ []), refl, (7 ∷ 8 ∷ [], refl, (refl, (refl, tt)))), tt),
        ),
      ),
      tt,
    ),
  ),
)

settings-ArePlain : ArePlain settings
unfolding bytes_eq
settings-ArePlain = ground arith

pub file-HoldsSettings : HoldsSettings file 4 settings
file-HoldsSettings = record {
  document = document;
  top = mapping ((1, 2) ∷ (3, 4) ∷ []);
  readable = refl;
  initialized = refl;
  opened = refl;
  loaded = refl;
  rooted = refl;
  shows = settings-Shows;
  plain = (settings-ArePlain, λ e. ground (arith, e));
  shallow = omega arith;
}

parse-query_example :
    parse_and_query (λ n. true) (λ n. no_name) 4 file (codes ".c1.monitor")
    ≡ ok (some (codes "a:c1"))
unfolding value_at colon_joined bytes_eq
parse-query_example =
    parse-query (λ n. true) (λ k. refl) (λ n. no_name) 4 file settings (codes "c1")
      (codes "monitor" ∷ []) file-HoldsSettings (ground arith) (omega arith)
