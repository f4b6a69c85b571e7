-- ===== src/Examples/Sessions.antt =====
-- A client and a daemon (src/icmpc and src/icmpd) at concrete inputs.
use inter_container_messagin.Base.{
  List, length, Option, Run, ap, ◌≡◌, refl, true, some, none, [], ◌∷◌, ◌++◌, Bytes, ok, arith,
  replicate, bytes_eq, Holds,
}
use inter_container_messagin.Message.{rc_ok}
use inter_container_messagin.StringTree.{node, nil}
use inter_container_messagin.Container.{Host, fits}
use inter_container_messagin.Daemon.Exec.{Surroundings}
use inter_container_messagin.Daemon.Exec.Reply.{reply_message}
use inter_container_messagin.Client.{Client, Network, handle_protocol_echo, exchange}
use inter_container_messagin.Client.Listed.{HasListed, exchange-HasListed}
use inter_container_messagin.Client.Answered.{answered_by}
use inter_container_messagin.Client.Session.{AreJoined, unlinked, echo-session}
use inter_container_messagin.Nanomsg.{Call, gave, failed}
use inter_container_messagin.Transport.{Traffic}
use inter_container_messagin.Transport.Opened.{IsReady, present-IsReady}
use inter_container_messagin.Examples.Rings.{one_entry-IsRing}
use inter_container_messagin.Examples.Systems.{system, prepared, web, calm}
use inter_container_messagin.Examples.Loading.{file}
use inter_container_messagin.Examples.Text.{codes}
use inter_container_messagin.Examples.Requests.{around, idle}

-- A host without a configuration, called `c9`.
abbrev pub open_host : Host
open_host = record {
  room = λ n. true;
  hostname = λ n. fits (codes "c9" ++ (0 ∷ []));
  tree = node (some (codes ".")) nil;
}

abbrev daemon : Bytes → Surroundings
daemon block = record (around block) { host = open_host }

abbrev pub interrupting : List (Call Bytes) → Traffic
interrupting calls = record (calm calls) { sending = λ sock msg. failed 4 ∷ gave (length msg) ∷ [] }

abbrev served : Bytes → Surroundings
served reply_block = record (daemon reply_block) { traffic = interrupting [] }

-- What comes back for a message, behind an interruption
abbrev pub delivered : Run (Option Bytes) → List (Call Bytes)
delivered (ok (some reply)) = failed 4 ∷ gave reply ∷ []
delivered (ok none) = failed 4 ∷ []
delivered other = []

abbrev answers : Bytes → Bytes → List (Call Bytes)
answers reply_block msg = delivered (answered_by (served reply_block) web (idle 0) msg)

abbrev network : Bytes → Bytes → Network (List Bytes)
network block reply_block = record {
  room = λ n. true;
  block = some block;
  stack = 4;
  file = λ name. file;
  system = system;
  list = 1;
  traffic = λ sent. interrupting (elim sent [ [] ↦ [] | msg ∷ more ↦ answers reply_block msg ]);
}

abbrev fresh : Client (List Bytes)
fresh = record { errno = 0; stdout = []; transports = prepared; sent = [] }

joined :
    (block reply_block : Bytes)
    → AreJoined (network block reply_block) 8 (served reply_block) web (idle 0) 1 []
joined block reply_block = record {
  there = λ msg. refl;
  back = λ msg. refl;
  answer = λ msg reply e. ap delivered e;
  silence = λ msg e. ap delivered e;
}

ready : IsReady system (codes "web") 3 prepared.disk prepared.disk
unfolding bytes_eq
ready = present-IsReady system (codes "web") 3 prepared.disk refl refl refl

echo-session_example :
    handle_protocol_echo
      (network (replicate 19 170) (replicate 19 0))
      (some (codes "web"))
      (codes "hi")
      fresh
    ≡ ok (
      record {
        errno = 0;
        stdout = codes "hi" ++ (10 ∷ []);
        transports =
            unlinked (network (replicate 19 170) (replicate 19 0)) 3 prepared.disk prepared;
        sent = reply_message 0 (codes "hi" ++ (0 ∷ [])) ∷ [];
      },
      rc_ok,
    )
echo-session_example =
    echo-session (network (replicate 19 170) (replicate 19 0)) (served (replicate 19 0)) web
      (idle 0) (codes "web") (replicate 19 170) fresh 3 8 5 1 refl prepared.disk ready refl refl
      refl (joined (replicate 19 170) (replicate 19 0)) (codes "hi") (replicate 19 0) (ground arith)
      (omega arith) refl refl refl

-- The daemon does not answer a command that it refuses.
exchange-HasListed_example :
    Holds
      (HasListed 1 (2 ∷ []))
      (exchange (network (replicate 19 170) []) 1 [] (some (codes "web")) (codes "ls") fresh)
exchange-HasListed_example =
    exchange-HasListed (network (replicate 19 170) []) (2 ∷ [])
      ((λ e. absurd (omega (arith, e))), ((λ e. absurd (omega (arith, e))), tt)) 1 []
      (some (codes "web")) (codes "ls") fresh one_entry-IsRing
