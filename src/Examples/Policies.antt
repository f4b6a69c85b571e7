-- ===== src/Examples/Policies.antt =====
-- The access check on a loaded file (src/lib/yaml.c and src/icmpd/subcmd_start.c) at a concrete file.
use inter_container_messagin.Base.{
  ◌≡◌, ◌⊎◌, refl, true, some, List, [], ◌∷◌, ◌++◌, ok, arith, bytes_eq, get_elem?,
}
use inter_container_messagin.Base.Word.{pos}
use inter_container_messagin.ErrorCode.{ic_errno_command_denied}
use inter_container_messagin.StringTree.{Node, root}
use inter_container_messagin.Container.{no_name}
use inter_container_messagin.Yaml.{
  YamlNode, scalar, mapping, sequence, Document, File, conf_file_parse,
}
use inter_container_messagin.Yaml.Settings.{
  text, texts, section, Settings, end, entry, value_at, Shows, IsPlain,
}
use inter_container_messagin.Yaml.Query.{HoldsSettings}
use inter_container_messagin.Daemon.Words.{isspace}
use inter_container_messagin.Daemon.Acl.Granted.{Among, BeginsWithOne}
use inter_container_messagin.Message.{rc_ok, encode, to_le}
use inter_container_messagin.Transport.{Context}
use inter_container_messagin.Daemon.Exec.{Surroundings, execute_cmd}
use inter_container_messagin.Daemon.Exec.Reply.{reply_message}
use inter_container_messagin.Daemon.Serve.{handle_message}
use inter_container_messagin.Daemon.Serve.Enforced.{on_host, handle_message-enforced}
use inter_container_messagin.Examples.Systems.{web}
use inter_container_messagin.Examples.Requests.{around, idle}
use inter_container_messagin.Daemon.Acl.Loaded.{setting_at, IsLimiting}
use inter_container_messagin.Examples.Text.{codes}
use inter_container_messagin.Examples.Config.{limits-IsNameList, targets-IsNameList, reboot_now}

-- container_name: c1
-- c1: {commands: [re, ls]}
-- commands: {reboot: {acl: [admin, ops]}}
abbrev nodes : List YamlNode
nodes =
    mapping ((1, 2) ∷ (3, 4) ∷ (9, 10) ∷ [])
    ∷ scalar (codes "container_name")
    ∷ scalar (codes "c1")
    ∷ scalar (codes "c1")
    ∷ mapping ((5, 6) ∷ [])
    ∷ scalar (codes "commands")
    ∷ sequence (7 ∷ 8 ∷ [])
    ∷ scalar (codes "re")
    ∷ scalar (codes "ls")
    ∷ scalar (codes "commands")
    ∷ mapping ((11, 12) ∷ [])
    ∷ scalar (codes "reboot")
    ∷ mapping ((13, 14) ∷ [])
    ∷ scalar (codes "acl")
    ∷ sequence (15 ∷ 16 ∷ [])
    ∷ scalar (codes "admin")
    ∷ scalar (codes "ops")
    ∷ []

abbrev document : Document
document = record { get_node = get_elem? nodes; root_node = get_elem? nodes 0 }

abbrev pub policy : Settings
policy = entry (codes "container_name") (text (codes "c1")) (
    entry (codes "c1")
      (section (entry (codes "commands") (texts (codes "re" ∷ codes "ls" ∷ [])) end))
      (entry (codes "commands")
        (section (
          entry (codes "reboot")
            (section (entry (codes "acl") (texts (codes "admin" ∷ codes "ops" ∷ [])) end)) end))
        end))

abbrev pub file : File
file = record { readable = true; initialized = true; opened = true; loaded = some document }

policy-Shows : Shows document (mapping ((1, 2) ∷ (3, 4) ∷ (9, 10) ∷ [])) (section policy)
policy-Shows = (
  (1, 2) ∷ (3, 4) ∷ (9, 10) ∷ [],
  refl,
  (
    refl,
    (scalar (codes "c1"), refl, refl),
    (
      refl,
      (
        mapping ((5, 6) ∷ []),
        refl,
        (
          (5, 6) ∷ [],
          refl,
          (refl, (sequence (7 ∷ 8 ∷ []), refl, (7 ∷ 8 ∷ [], refl, (refl, (refl, tt)))), tt),
        ),
      ),
      (
        refl,
        (
          mapping ((11, 12) ∷ []),
          refl,
          (
            (11, 12) ∷ [],
            refl,
            (
              refl,
              (
                mapping ((13, 14) ∷ []),
                refl,
                (
                  (13, 14) ∷ [],
                  refl,
                  (
                    refl,
                    (sequence (15 ∷ 16 ∷ []), refl, (15 ∷ 16 ∷ [], refl, (refl, (refl, tt)))),
                    tt,
                  ),
                ),
              ),
              tt,
            ),
          ),
        ),
        tt,
      ),
    ),
  ),
)

policy-IsPlain : IsPlain (section policy)
unfolding bytes_eq
policy-IsPlain = ground arith

pub file-HoldsSettings : HoldsSettings file 5 policy
file-HoldsSettings = record {
  document = document;
  top = mapping ((1, 2) ∷ (3, 4) ∷ (9, 10) ∷ []);
  readable = refl;
  initialized = refl;
  opened = refl;
  loaded = refl;
  rooted = refl;
  shows = policy-Shows;
  plain = policy-IsPlain;
  shallow = omega arith;
}

pub policy-IsLimiting :
    IsLimiting policy
      (codes "c1")
      (codes "reboot")
      (codes "re")
      (codes "admin")
      (codes "ls" ∷ [])
      (codes "ops" ∷ [])
unfolding value_at setting_at bytes_eq
policy-IsLimiting = record {
  named = refl;
  dotless = ground arith;
  short = omega arith;
  limits = refl;
  targets = refl;
  limit_names = limits-IsNameList;
  target_names = targets-IsNameList;
}

-- The worker for "ops" on a host that this file configures
abbrev pub ops : Context
ops = record web { name = codes "ops" }

abbrev policed : Node → Surroundings
policed tree = on_host (around []) (λ n. no_name) (λ n. true) tree

handle_message-enforced_example :
    (tree : Node) × (conf_file_parse (λ n. true) 5 file root ≡ ok (tree, pos 0))
    × ((BeginsWithOne (codes "reboot") (codes "re" ∷ codes "ls" ∷ [])
          × Among (codes "ops") (codes "admin" ∷ codes "ops" ∷ [])
          × (handle_message
                (policed tree)
                ops
                (some (reply_message 1 (codes "reboot now" ++ (0 ∷ []))))
                27
                (idle 7)
              ≡ execute_cmd (policed tree) ops (codes "reboot now" ++ (0 ∷ [])) 11 (idle 7)))
        ⊎ (¬ (
              BeginsWithOne (codes "reboot") (codes "re" ∷ codes "ls" ∷ [])
              × Among (codes "ops") (codes "admin" ∷ codes "ops" ∷ []))
            × (handle_message
                  (policed tree)
                  ops
                  (some (reply_message 1 (codes "reboot now" ++ (0 ∷ []))))
                  27
                  (idle 7)
                ≡ ok (idle ic_errno_command_denied, rc_ok))))
unfolding isspace encode to_le
handle_message-enforced_example =
    handle_message-enforced (λ n. true) (λ n. no_name) 5 file policy (codes "c1") (codes "re")
      (codes "admin") (codes "ls" ∷ []) (codes "ops" ∷ []) (codes "reboot now" ++ (0 ∷ []))
      (codes "reboot") (codes " ") ((codes "now", []) ∷ []) (around []) ops (idle 7) (λ k. refl)
      file-HoldsSettings policy-IsLimiting (ground arith) (ground arith) (omega arith) reboot_now
      (omega arith)
