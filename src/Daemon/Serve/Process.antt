-- ===== src/Daemon/Serve/Process.antt =====
-- The process that `create_worker` of src/icmpd/subcmd_start.c forks for a container.
use inter_container_messagin.Base.{
  bind_congr, ℕ, ◌^◌, ◌<◌, ◌≡◌, refl, ap, ◌∙◌, some, List, [], ◌∷◌, ◌++◌, Bytes, Run, ok, ◌>>=◌,
  length, arith,
}
use inter_container_messagin.Nanomsg.{gave, nn_rep}
use inter_container_messagin.Nanomsg.Retry.{interrupted}
use inter_container_messagin.Transport.{System, Context, Transports, channel, master_transport_ops}
use inter_container_messagin.Transport.Opened.{IsReady, opened, transport_create_master-opened}
use inter_container_messagin.Transport.Carried.{transport_receive_data-received}
use inter_container_messagin.Daemon.Exec.{Server, Surroundings}
use inter_container_messagin.Daemon.Serve.{handle_message, worker_process}
use inter_container_messagin.Daemon.Serve.Loop.{handle_all, finished, worker-handle_all}

-- Messages, each with what surrounds the request; the rounds in which they are received
abbrev pub rounds : List (Surroundings × Bytes) → List Surroundings
rounds [] = []
rounds ((w, msg) ∷ ms) = w ∷ rounds ms

length-rounds : (ms : List (Surroundings × Bytes)) → length (rounds ms) ≡ length ms
length-rounds [] = refl
length-rounds ((w, msg) ∷ ms) = ground (arith, length-rounds ms)

-- Each is shorter than 2 ^ 31 bytes and comes in over a socket, after a number of interruptions.
abbrev pub AreReceived : ℕ → ℕ → List (Surroundings × Bytes) → Type 0
AreReceived sock k [] = Unit
AreReceived sock k ((w, msg) ∷ ms) =
    (w.traffic.receiving sock ≡ interrupted w.traffic.eintr k ++ (gave msg ∷ []))
    × (length msg < 2 ^ 31)
    × AreReceived sock k ms

-- Each is handled once, in order, whatever the results are.
unfoldable pub handle_messages : Context → List (Surroundings × Bytes) → Server → Run Server
handle_messages tr [] s = ok s
handle_messages tr ((w, msg) ∷ ms) s =
    handle_message w tr (some msg) (length msg) s >>= λ (s', rc). handle_messages tr ms s'

handle_all-messages :
    (tr : Context) (k : ℕ) (ms : List (Surroundings × Bytes)) (s : Server)
    → AreReceived tr.sock k ms
    → handle_all tr (rounds ms) s ≡ handle_messages tr ms s
unfolding handle_all handle_messages
handle_all-messages tr k [] s are = refl
handle_all-messages tr k ((w, msg) ∷ ms) s (is, small, are) =
    rw (transport_receive_data-received w.traffic tr k msg is small) (
      bind_congr (handle_message w tr (some msg) (length msg) s) _ _
        (λ (s', rc). handle_all-messages tr k ms s' are))

module _ {S : Type 0} (sys : System S) (list link sock ep : ℕ) (name : Bytes) (ts : Transports S)
    (disk : S) where
  -- The process for a container binds a socket to the channel of that container, and then handles
  -- every message of fewer than 2 ^ 31 bytes that comes in over it, once and in order, whatever the
  -- results are and however often it is interrupted, unless handling one faults, exits or stays in a
  -- call. The directories of the channel must be there, or can be made, and the calls that open the
  -- transport succeed; one round for each message and one to wait are fuel enough.
  pub worker_process-messages :
      (ms : List (Surroundings × Bytes)) (k fuel : ℕ) (s : Server)
      → IsReady sys name link ts.disk disk
      → sys.library.socket nn_rep ≡ gave sock
      → sys.library.set_send_timeout sock 100 ≡ gave tt
      → sys.library.bind sock (channel name) ≡ gave ep
      → AreReceived sock k ms
      → length ms < fuel
      → worker_process sys list name ts fuel (rounds ms) s
        ≡ finished
            (handle_messages (opened name sock ep (master_transport_ops sys.library) link) ms s)
  unfolding worker_process
  worker_process-messages ms k fuel s ready made timed bound are h =
      let tr = opened name sock ep (master_transport_ops sys.library) link in
      rw (transport_create_master-opened sys list link sock ep name ts disk ready made timed bound)
        (worker-handle_all tr (rounds ms) s fuel (omega (arith, length-rounds ms))
          ∙ ap finished (handle_all-messages tr k ms s are))
