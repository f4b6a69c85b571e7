-- ===== src/Transport/Opened.antt =====
-- The creation of a transport by src/lib/transport.c when its directories are there or can be made,
-- and all calls succeed.
use inter_container_messagin.Base.{ℕ, ◌≡◌, refl, none, some, ◌++◌, Bytes, ok}
use inter_container_messagin.Bcll.{bcll_add}
use inter_container_messagin.Nanomsg.{
  gave, nn_req, nn_rep, create_slave_socket, create_master_socket, add_slave_endpoint,
  add_master_endpoint,
}
use inter_container_messagin.Transport.Provided.{Provided, present, channel_directory-Provided}
use inter_container_messagin.Transport.{
  System, Ops, Context, Transports, channel_prefix, path_text, local, channel, master_transport_ops,
  slave_transport_ops, open_channel, transport_create, transport_create_slave,
  transport_create_master,
}

-- The directory of the channel, and then the local one, are there or can be made, and there is memory.
pub record IsReady {S : Type 0} (sys : System S) (name : Bytes) (link : ℕ) (s s' : S) : Type 0 where
  pub between : S
  pub provided : Provided sys name s between
  pub local_provided : Provided sys local between s'
  pub memory : sys.context ≡ some link

-- It is ready when both directories are there.
pub present-IsReady :
    {S : Type 0} (sys : System S) (name : Bytes) (link : ℕ) (s : S)
    → sys.access (path_text (channel_prefix ++ name)) s ≡ none
    → sys.access (path_text (channel_prefix ++ local)) s ≡ none
    → sys.context ≡ some link
    → IsReady sys name link s s
present-IsReady sys name link s first second memory = record {
  between = s;
  provided = present first;
  local_provided = present second;
  memory = memory;
}

abbrev pub opened : Bytes → ℕ → ℕ → Ops → ℕ → Context
opened name sock ep ops link = record {
  name = name;
  sock = sock;
  endpoint = ep;
  ops = ops;
  link = link;
  tx_vec = none;
}

module _ {S : Type 0} (sys : System S) (list link sock ep : ℕ) (name : Bytes) (ts : Transports S)
    (disk : S) (ready : IsReady sys name link ts.disk disk) where
  -- A slave transport has a request socket without a timeout, connected to the channel of its name.
  pub transport_create_slave-opened :
      sys.library.socket nn_req ≡ gave sock
      → sys.library.connect sock (channel name) ≡ gave ep
      → transport_create_slave sys list (some name) ts
        ≡ ok (
          some (opened name sock ep (slave_transport_ops sys.library) link),
          record { disk = disk; links = bcll_add ts.links list link },
        )
  unfolding transport_create open_channel create_slave_socket add_master_endpoint
  transport_create_slave-opened made joined =
      rw (channel_directory-Provided sys name ts.disk ready.between ready.provided) (
        rw (channel_directory-Provided sys local ready.between disk ready.local_provided)
          (rw (ready.memory, made) (rw joined refl)))

  -- A master transport has a reply socket with a send timeout of 100 ms, bound to that channel.
  pub transport_create_master-opened :
      sys.library.socket nn_rep ≡ gave sock
      → sys.library.set_send_timeout sock 100 ≡ gave tt
      → sys.library.bind sock (channel name) ≡ gave ep
      → transport_create_master sys list (some name) ts
        ≡ ok (
          some (opened name sock ep (master_transport_ops sys.library) link),
          record { disk = disk; links = bcll_add ts.links list link },
        )
  unfolding transport_create open_channel create_master_socket add_slave_endpoint
  transport_create_master-opened made timed bound =
      rw (channel_directory-Provided sys name ts.disk ready.between ready.provided) (
        rw (channel_directory-Provided sys local ready.between disk ready.local_provided)
          (rw (ready.memory, made) (rw timed (rw bound refl))))
