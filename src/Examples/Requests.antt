-- ===== src/Examples/Requests.antt =====
-- Requests to the daemon (src/icmpd/subcmd_start.c) at concrete inputs.
use inter_container_messagin.Base.{
  ℕ, ◌≡◌, refl, true, false, some, none, [], ◌∷◌, ◌++◌, List, Bytes, ok, arith, Option, bytes_eq,
  ◌>>=◌, replicate,
}
use inter_container_messagin.Message.{encode, to_le, v1_header}
use inter_container_messagin.StringTree.{node, nil}
use inter_container_messagin.Container.{Host, no_name}
use inter_container_messagin.Nanomsg.{gave, failed}
use inter_container_messagin.Daemon.Exec.{Server, Surroundings, execute_cmd, send_data}
use inter_container_messagin.Daemon.Exec.Reply.{reply_message, execute_cmd-reply}
use inter_container_messagin.Daemon.Serve.{worker, worker_process}
use inter_container_messagin.Daemon.Serve.Loop.{handle_all, worker-handle_all}
use inter_container_messagin.Daemon.Serve.Process.{handle_messages, worker_process-messages}
use inter_container_messagin.Transport.Opened.{present-IsReady}
use inter_container_messagin.Examples.Systems.{system, prepared, web, calm}
use inter_container_messagin.Examples.Text.{codes}

-- A host without memory: no container name can be read there.
abbrev pub bare_host : Host
bare_host = record { room = λ n. false; hostname = λ n. no_name; tree = node none nil }

-- The command prints `a` and then `bc`.
abbrev pub printed : List (Option Bytes × Bytes)
printed = (some (0 ∷ []), codes "a") ∷ (some (0 ∷ 0 ∷ 0 ∷ []), codes "bc") ∷ []

abbrev pub around : Bytes → Surroundings
around block = record {
  host = bare_host;
  traffic = calm [];
  pipes = true;
  child = λ argv. printed;
  nul_block = some (0 ∷ 0 ∷ 0 ∷ 0 ∷ []);
  reply_block = some block;
}

abbrev pub idle : ℕ → Server
idle errno = record { errno = errno; sent = [] }

execute_cmd-reply_example :
    execute_cmd (around (replicate 20 170)) web (codes "ls" ++ (0 ∷ [])) 3 (idle 0)
    ≡ send_data (around (replicate 20 170)) web (reply_message 1 (codes "abc" ++ (0 ∷ []))) (idle 0)
execute_cmd-reply_example =
    execute_cmd-reply (around (replicate 20 170)) web (codes "ls" ++ (0 ∷ [])) 3 (idle 0) printed
      (0 ∷ 0 ∷ 0 ∷ 0 ∷ []) (replicate 20 170) refl refl ((λ e. cc), refl, ((λ e. cc), refl, tt))
      (omega arith) refl refl refl refl

-- A failed receive, and an echo request.
abbrev pub greeting : Bytes
greeting = encode (v1_header 0 2) ++ codes "hi"

abbrev inputs : List Surroundings
inputs =
    record (around []) { traffic = calm (failed 11 ∷ []) }
    ∷ record (around (replicate 18 170)) { traffic = calm (failed 4 ∷ gave greeting ∷ []) }
    ∷ []

worker-handle_all_example :
    worker web 3 inputs (idle 0) ≡ (handle_all web inputs (idle 0) >>= λ s. ok (some s))
worker-handle_all_example = worker-handle_all web inputs (idle 0) 3 (omega arith)

worker_process-messages_example :
    worker_process system 1
      (codes "web")
      prepared
      2
      (record (around (replicate 18 170)) { traffic = calm (failed 4 ∷ gave greeting ∷ []) } ∷ [])
      (idle 0)
    ≡ (handle_messages web
          ((
            record (around (replicate 18 170)) { traffic = calm (failed 4 ∷ gave greeting ∷ []) },
            greeting,
          )
            ∷ [])
          (idle 0)
        >>= λ s. ok (some s))
unfolding bytes_eq encode to_le
worker_process-messages_example =
    worker_process-messages system 1 3 8 5 (codes "web") prepared prepared.disk
      ((
        record (around (replicate 18 170)) { traffic = calm (failed 4 ∷ gave greeting ∷ []) },
        greeting,
      )
        ∷ [])
      1 2 (idle 0) (present-IsReady system (codes "web") 3 prepared.disk refl refl refl) refl refl
      refl (refl, omega arith, tt) (omega arith)
