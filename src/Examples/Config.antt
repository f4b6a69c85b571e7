-- ===== src/Examples/Config.antt =====
-- The configuration and the access checks (src/lib/string_tree.c, src/lib/util.c and
-- src/icmpd/subcmd_start.c) at concrete inputs.
use inter_container_messagin.Base.{
  ◌≡◌, refl, true, some, none, [], ◌∷◌, ◌++◌, Bytes, ok, arith, ◌⊎◌, bytes_eq,
}
use inter_container_messagin.Base.Word.{pos, negsuc}
use inter_container_messagin.ErrorCode.{ic_errno_command_denied}
use inter_container_messagin.StringTree.{
  Node, node, Nodes, nil, cons, query, query_node, query_children, query_leaf, matches,
}
use inter_container_messagin.StringTree.Path.{path_of}
use inter_container_messagin.StringTree.Query.{query-find}
use inter_container_messagin.StringTree.Find.{find, IsKeyed, leaf_strings, colon_joined}
use inter_container_messagin.Util.{split_string}
use inter_container_messagin.Util.Split.{split_string-behind}
use inter_container_messagin.Container.{Host, no_name, container_name, conf_file_query}
use inter_container_messagin.Daemon.Words.{build_argv, c_text, isspace}
use inter_container_messagin.Daemon.Words.Argv.{build_argv-words}
use inter_container_messagin.Daemon.Acl.{check_command, star}
use inter_container_messagin.Daemon.Acl.Granted.{
  IsConfigured, IsNameList, Among, BeginsWithOne, commands_name, acl_name,
}
use inter_container_messagin.Daemon.Acl.Command.{check_command-listed, leading_space-evades}
use inter_container_messagin.Examples.Text.{codes}

abbrev leaf : Bytes → Node
leaf s = node (some s) nil

-- The targets of `reboot`, the commands of `c1`, and those of `c2`, which may run all.
abbrev targets : Nodes
targets = cons (leaf (codes "admin")) (cons (leaf (codes "ops")) nil)

abbrev limits : Nodes
limits = cons (leaf (codes "re")) (cons (leaf (codes "ls")) nil)

abbrev all : Nodes
all = cons (leaf star) nil

-- container_name: NAME
-- commands: {reboot: {acl: [admin, ops]}}
-- c1: {commands: [re, ls]}
-- c2: {commands: "*"}
abbrev top : Bytes → Nodes
top name = cons (node (some (codes "container_name")) (cons (leaf name) nil)) (
    cons
      (node (some commands_name)
        (cons (node (some (codes "reboot")) (cons (node (some acl_name) targets) nil)) nil))
      (cons (node (some (codes "c1")) (cons (node (some commands_name) limits) nil))
        (cons (node (some (codes "c2")) (cons (node (some commands_name) all) nil)) nil)))

abbrev host : Bytes → Host
host name = record {
  room = λ n. true;
  hostname = λ n. no_name;
  tree = node (some (b'.' ∷ [])) (top name);
}

top-IsKeyed : (name : Bytes) → IsKeyed (top name)
unfolding bytes_eq
top-IsKeyed name = ground arith

configured : (name : Bytes) → IsConfigured (host name) (top name)
configured name = record { ample = λ n. refl; rooted = refl; keyed = top-IsKeyed name }

c1_named : container_name (host (codes "c1")) ≡ ok (some (codes "c1"))
unfolding container_name conf_file_query query query_node query_children query_leaf matches
c1_named = refl

c2_named : container_name (host (codes "c2")) ≡ ok (some (codes "c2"))
unfolding container_name conf_file_query query query_node query_children query_leaf matches
c2_named = refl

reboot_targets :
    (name : Bytes) → find commands_name (codes "reboot" ∷ acl_name ∷ []) (top name) ≡ some targets
unfolding find bytes_eq
reboot_targets name = refl

pub targets-IsNameList : IsNameList targets (codes "admin") (codes "ops" ∷ [])
unfolding leaf_strings
targets-IsNameList = record {
  names = refl;
  colonless = ground arith;
  ends_full = λ e. cc;
  not_star = λ e. cc;
}

pub limits-IsNameList : IsNameList limits (codes "re") (codes "ls" ∷ [])
unfolding leaf_strings
limits-IsNameList = record {
  names = refl;
  colonless = ground arith;
  ends_full = λ e. cc;
  not_star = λ e. cc;
}

query-find_example :
    query
      (λ n. true)
      (node (some (b'.' ∷ [])) (top []))
      (b'.' ∷ path_of commands_name (codes "reboot" ∷ acl_name ∷ []))
    ≡ ok (some (codes "admin:ops"))
unfolding find bytes_eq leaf_strings colon_joined
query-find_example =
    query-find (λ n. true) (λ n. refl) commands_name (codes "reboot" ∷ acl_name ∷ []) (top [])
      (ground arith) (top-IsKeyed [])

split_string-behind_example :
    split_string (λ n. true) (codes "re::ls") (codes ":")
    ≡ some (some (codes "re" ∷ [] ∷ codes "ls" ∷ []))
split_string-behind_example =
    split_string-behind (λ n. true) (λ n. refl) b':' (codes "re") ([] ∷ codes "ls" ∷ [])
      (ground arith) (λ e. cc)

build_argv-words_example :
    build_argv (λ n. true) (codes " ls  -l ") ≡ some (codes "ls" ∷ codes "-l" ∷ [])
unfolding isspace
build_argv-words_example =
    build_argv-words (λ n. true) (λ n. refl) (codes " ")
      ((codes "ls", codes "  ") ∷ (codes "-l", codes " ") ∷ []) (ground arith) (ground arith)

c1_limits : (name : Bytes) → find (codes "c1") (commands_name ∷ []) (top name) ≡ some limits
unfolding find bytes_eq
c1_limits name = refl

c2_limits : (name : Bytes) → find (codes "c2") (commands_name ∷ []) (top name) ≡ some all
unfolding find bytes_eq
c2_limits name = refl

no_empty_list : (name : Bytes) → find commands_name ([] ∷ acl_name ∷ []) (top name) ≡ none
unfolding find bytes_eq
no_empty_list name = refl

pub reboot_now : c_text (codes "reboot now" ++ (0 ∷ [])) ≡ ok (codes "reboot now")
unfolding c_text
reboot_now = refl

check_command-listed_example :
    (build_argv (λ n. true) (codes "reboot now") ≡ some (codes "reboot" ∷ codes "now" ∷ []))
    × ((BeginsWithOne (codes "reboot") (codes "re" ∷ codes "ls" ∷ [])
          × Among (codes "ops") (codes "admin" ∷ codes "ops" ∷ [])
          × (check_command (host (codes "c1")) (codes "reboot now" ++ (0 ∷ [])) (codes "ops") 7
              ≡ ok (pos 0, 7)))
        ⊎ (¬ (
              BeginsWithOne (codes "reboot") (codes "re" ∷ codes "ls" ∷ [])
              × Among (codes "ops") (codes "admin" ∷ codes "ops" ∷ []))
            × (check_command (host (codes "c1")) (codes "reboot now" ++ (0 ∷ [])) (codes "ops") 7
                ≡ ok (negsuc 0, ic_errno_command_denied))))
unfolding isspace
check_command-listed_example =
    check_command-listed (host (codes "c1")) (top (codes "c1")) (configured (codes "c1"))
      (codes "c1") c1_named (ground arith) (omega arith) limits targets (codes "re") (codes "admin")
      (codes "ls" ∷ []) (codes "ops" ∷ []) limits-IsNameList targets-IsNameList
      (codes "reboot now" ++ (0 ∷ [])) (codes "reboot") (codes " ") ((codes "now", []) ∷ [])
      (codes "ops") 7 (c1_limits (codes "c1")) (reboot_targets (codes "c1")) (ground arith)
      (ground arith) (omega arith) reboot_now

reboot_behind_space : c_text (codes " reboot" ++ (0 ∷ [])) ≡ ok (codes " reboot")
unfolding c_text
reboot_behind_space = refl

leading_space-evades_example :
    (check_command (host (codes "c2")) (codes " reboot" ++ (0 ∷ [])) (codes "web") 7
      ≡ ok (pos 0, 7))
    × (build_argv (λ n. true) (codes " reboot") ≡ some (codes "reboot" ∷ []))
unfolding isspace leaf_strings
leading_space-evades_example =
    leading_space-evades (host (codes "c2")) (top (codes "c2")) (configured (codes "c2"))
      (codes "c2") c2_named (ground arith) (omega arith) all (codes " reboot" ++ (0 ∷ []))
      (codes " ") (codes "reboot") [] [] (codes "web") 7 (c2_limits (codes "c2")) refl
      (no_empty_list (codes "c2")) (λ e. cc) (ground arith) (ground arith) reboot_behind_space
