-- ===== src/Examples/Limited.antt =====
-- A command from the arguments of the client to what is printed (src/icmpc and src/icmpd), at concrete
-- inputs. Only the root directory is there when the client begins.
use inter_container_messagin.Base.{
  ap, ◌≡◌, ◌⊎◌, refl, true, some, List, [], ◌∷◌, ◌++◌, Bytes, ok, blocked, arith, replicate,
  bytes_eq,
}
use inter_container_messagin.Base.Word.{pos}
use inter_container_messagin.StringTree.{Node, node, root}
use inter_container_messagin.Container.{no_name}
use inter_container_messagin.Util.Mkdir.{make}
use inter_container_messagin.Util.Mkdir.Ancestors.{make_all}
use inter_container_messagin.Yaml.{conf_file_parse}
use inter_container_messagin.Yaml.Settings.{nodes_of}
use inter_container_messagin.Yaml.Query.{conf_file_parse-nodes_of}
use inter_container_messagin.Message.{rc_ok}
use inter_container_messagin.Transport.Provided.{missing}
use inter_container_messagin.Transport.Opened.{IsReady}
use inter_container_messagin.Daemon.Words.{isspace}
use inter_container_messagin.Daemon.Acl.Granted.{Among, BeginsWithOne}
use inter_container_messagin.Daemon.Exec.{Surroundings}
use inter_container_messagin.Daemon.Exec.Reply.{reply_message, PutsOut}
use inter_container_messagin.Daemon.Serve.Enforced.{on_host}
use inter_container_messagin.Program.{no_options, ran}
use inter_container_messagin.Client.{Client, Network}
use inter_container_messagin.Client.Answered.{answered_by}
use inter_container_messagin.Client.Session.{unlinked}
use inter_container_messagin.Client.Limited.{HasRoute}
use inter_container_messagin.Client.Main.{main}
use inter_container_messagin.Client.Main.Limited.{AskFor, command_arguments, main-limited}
use inter_container_messagin.Examples.Rings.{one_entry}
use inter_container_messagin.Examples.Systems.{system}
use inter_container_messagin.Examples.Requests.{around, idle, printed}
use inter_container_messagin.Examples.Sessions.{interrupting, delivered}
use inter_container_messagin.Examples.Policies.{
  policy, file, ops, file-HoldsSettings, policy-IsLimiting,
}
use inter_container_messagin.Examples.Text.{codes}

abbrev tree : Node
tree = node (some (codes ".")) (nodes_of policy)

tree-parsed : conf_file_parse (λ n. true) 5 file root ≡ ok (tree, pos 0)
tree-parsed = conf_file_parse-nodes_of (λ n. true) (λ k. refl) 5 file policy file-HoldsSettings

abbrev overseer : Surroundings
overseer = record (around (replicate 20 0)) { traffic = interrupting [] }

abbrev policed : Surroundings
policed = on_host overseer (λ n. no_name) (λ n. true) tree

abbrev network : Network (List Bytes)
network = record {
  room = λ n. true;
  block = some (replicate 27 170);
  stack = 4;
  file = λ name. file;
  system = system;
  list = 1;
  traffic = λ sent.
      interrupting
        (elim sent [ [] ↦ [] | msg ∷ more ↦ delivered (answered_by policed ops (idle 7) msg) ]);
}

abbrev fresh : Client (List Bytes)
fresh = record {
  errno = 0;
  stdout = [];
  transports = record { disk = codes "/" ∷ []; links = one_entry };
  sent = [];
}

abbrev between : List Bytes
between = codes "/opt/container/ops" ∷ codes "/opt/container/" ∷ codes "/opt/" ∷ codes "/" ∷ []

ready : IsReady system (codes "ops") 3 (codes "/" ∷ []) (codes "/opt/container/local" ∷ between)
unfolding bytes_eq make_all make
ready = record {
  between = between;
  provided = missing (record {
    ample = λ n. refl;
    named = λ e. cc;
    flat = ground arith;
    short = omega arith;
    absent = refl;
    made = refl;
  });
  local_provided = missing (record {
    ample = λ n. refl;
    named = λ e. cc;
    flat = ground arith;
    short = omega arith;
    absent = refl;
    made = refl;
  });
  memory = refl;
}

route :
    HasRoute network policed ops
      (idle 7)
      (codes "ops")
      10
      fresh
      3
      (codes "/opt/container/local" ∷ between)
route = record {
  block = replicate 27 170;
  sock = 8;
  ep = 5;
  interruptions = 1;
  memory = refl;
  sized = refl;
  ready = ready;
  made = refl;
  connected = refl;
  closes = refl;
  joined = record {
    there = λ msg. refl;
    back = λ msg. refl;
    answer = λ msg reply e. ap delivered e;
    silence = λ msg e. ap delivered e;
  };
}

puts : PutsOut policed (codes "reboot" ∷ codes "now" ∷ []) printed
puts = record {
  nul_block = 0 ∷ 0 ∷ 0 ∷ 0 ∷ [];
  reply_block = replicate 20 0;
  pipes = refl;
  child = refl;
  served = ((λ e. cc), refl, ((λ e. cc), refl, tt));
  short = omega arith;
  nul_memory = refl;
  nul_sized = refl;
  reply_memory = refl;
  reply_sized = refl;
}

-- icmpc commandline -r ops "reboot now"
ask :
    AskFor (codes "ops") (codes "reboot now") [] (b'r', codes "ops") ((1, codes "reboot now") ∷ [])
ask = record {
  flag_options = no_options;
  are_flags = refl;
  are_known = (refl, (refl, tt));
  request = refl;
}

main-limited_example :
    ((BeginsWithOne (codes "reboot") (codes "re" ∷ codes "ls" ∷ [])
        × Among (codes "ops") (codes "admin" ∷ codes "ops" ∷ []))
      × (main network fresh
            (command_arguments [] ((b'r', codes "ops") ∷ (1, codes "reboot now") ∷ []) [])
          ≡ ran (
              ok (
                record {
                  errno = 0;
                  stdout = codes "abc";
                  transports =
                      unlinked network 3 (codes "/opt/container/local" ∷ between) fresh.transports;
                  sent = reply_message 1 (codes "reboot now" ++ (0 ∷ [])) ∷ [];
                },
                rc_ok,
              ))))
    ⊎ (¬ (
          BeginsWithOne (codes "reboot") (codes "re" ∷ codes "ls" ∷ [])
          × Among (codes "ops") (codes "admin" ∷ codes "ops" ∷ []))
        × (main network fresh
              (command_arguments [] ((b'r', codes "ops") ∷ (1, codes "reboot now") ∷ []) [])
            ≡ ran blocked))
unfolding isspace
main-limited_example =
    main-limited network fresh (λ k. refl) overseer ops (idle 7) (λ n. true) (λ n. no_name) 5 file
      policy tree (codes "c1") (codes "re") (codes "admin") (codes "ls" ∷ []) (codes "ops" ∷ [])
      (codes "reboot") (codes " ") ((codes "now", []) ∷ []) (λ k. refl) file-HoldsSettings
      policy-IsLimiting tree-parsed (ground arith) (ground arith) (omega arith) (ground arith)
      printed 3 (codes "/opt/container/local" ∷ between) [] [] (b'r', codes "ops")
      ((1, codes "reboot now") ∷ []) (omega arith) route puts (ground arith) ask
