-- ===== src/Examples/Programs.antt =====
-- The main programs (src/icmpd/icmpd.c and src/icmpc/icmpc.c) at concrete arguments.
use inter_container_messagin.Base.{
  ◌+◌, ◌%◌, ◌≡◌, refl, true, none, some, [], ◌∷◌, ◌++◌, List, Bytes, ok, arith,
}
use inter_container_messagin.Program.{Argument, MainOptions, no_options, ran}
use inter_container_messagin.Daemon.Start.{pausing, run_start}
use inter_container_messagin.Daemon.Main.{daemon_case}
use inter_container_messagin.Daemon.Main.Started.{main-start}
use inter_container_messagin.Daemon.Main.Pausing.{main-pausing}
use inter_container_messagin.Daemon.Workers.{Workers}
use inter_container_messagin.Daemon.Workers.Recorded.{Records}
use inter_container_messagin.Client.{Client, Network, run_commandline, run_echo}
use inter_container_messagin.Client.Main.{client_case}
use inter_container_messagin.Client.Main.Requested.{main-request}
use inter_container_messagin.Examples.Loading.{file, settings, file-HoldsSettings}
use inter_container_messagin.Examples.Text.{codes}
use inter_container_messagin.Examples.Systems.{system, prepared, calm}
use inter_container_messagin.Examples.Starting.{machine, settings-IsMonitoring, processes-IsAble}
use inter_container_messagin.Daemon.Main as DaemonMain
use inter_container_messagin.Client.Main as ClientMain

abbrev verbose : Argument
verbose = record { opt = b'v'; optarg = []; behind = [] }

abbrev verbosely : MainOptions
verbosely = record no_options { verbose = true }

-- icmpd -v start -l a -d -l b
main-start_example :
    DaemonMain.main machine (
      verbose
      ∷ record {
        opt = 1;
        optarg = codes "start";
        behind = (b'l', codes "a") ∷ (b'd', []) ∷ (b'l', codes "b") ∷ [];
      }
      ∷ [])
    ≡ ran (
        run_start machine (record {
          conf_file = codes "/etc/icmpd.conf";
          log_file = some (codes "b");
          daemon = true;
        }))
unfolding daemon_case
main-start_example =
    main-start machine (verbose ∷ []) [] verbosely b'l' (codes "a")
      ((b'd', []) ∷ (b'l', codes "b") ∷ []) (verbosely, refl, refl) (refl, (refl, (refl, tt)))

-- icmpd -v start -l a -d -l b
main-pausing_example :
    (v : Workers) × (DaemonMain.main machine (
        (verbose ∷ [])
        ++ (record {
          opt = 1;
          optarg = codes "start";
          behind = (b'l', codes "a") ∷ (b'd', []) ∷ (b'l', codes "b") ∷ [];
        }
            ∷ []))
      ≡ ran (
          ok (
            pausing
              (record {
                container_name = codes "c1";
                monitored_container = codes "a" ∷ codes "c1" ∷ [];
              })
              (some v))))
    × Records (λ i. 100 + i % 4) (codes "c1") (codes "a" ∷ codes "c1" ∷ []) v
unfolding daemon_case
main-pausing_example =
    main-pausing machine (verbose ∷ []) [] verbosely (b'l', codes "a")
      ((b'd', []) ∷ (b'l', codes "b") ∷ []) settings (codes "c1") (codes "a") (codes "c1" ∷ [])
      (λ i. 100 + i % 4) (verbosely, refl, refl) (refl, (refl, (refl, tt))) (λ k. refl)
      (record {
        detached = refl;
        log_opened = λ path. refl;
        null_opened = refl;
        input_moved = refl;
        output_moved = refl;
        errors_moved = refl;
      })
      file-HoldsSettings settings-IsMonitoring processes-IsAble (omega arith)

abbrev network : Network (List Bytes)
network = record {
  room = λ n. true;
  block = none;
  stack = 4;
  file = λ name. file;
  system = system;
  list = 1;
  traffic = λ sent. calm [];
}

abbrev client : Client (List Bytes)
client = record { errno = 0; stdout = []; transports = prepared; sent = [] }

-- icmpc -v commandline -r me ls, and icmpc -v echo -r me ls
main-request_example :
    (ClientMain.main network client (
        verbose
        ∷ record {
          opt = 1;
          optarg = codes "commandline";
          behind = (b'r', codes "me") ∷ (1, codes "ls") ∷ [];
        }
        ∷ [])
      ≡ ran (
          run_commandline network
            (record { conf_file = none; requestor = some (codes "me"); input = some (codes "ls") })
            client))
    × (ClientMain.main network client (
          verbose
          ∷ record {
            opt = 1;
            optarg = codes "echo";
            behind = (b'r', codes "me") ∷ (1, codes "ls") ∷ [];
          }
          ∷ [])
        ≡ ran (
            run_echo network
              (record {
                conf_file = none;
                requestor = some (codes "me");
                input = some (codes "ls");
              })
              client))
unfolding client_case
main-request_example =
    main-request network client (verbose ∷ []) [] verbosely b'r' (codes "me") ((1, codes "ls") ∷ [])
      (verbosely, refl, refl) (refl, (refl, tt))
