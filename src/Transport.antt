-- ===== src/Transport.antt =====
-- The transports of src/lib/transport.c: the directories and the socket behind one, the list of all,
-- and what is sent and received over one. Files and sockets are the system's.
pub mod Listed
pub mod Vectors
pub mod Provided
pub mod Opened
pub mod Made
pub mod Carried
pub mod Append
pub mod Appended
pub mod Reach
use inter_container_messagin.Base.{
  ℕ, zero, Bool, true, false, not, Option, none, some, List, [], ◌∷◌, ◌++◌, Bytes, Run, ok, ◌>>=◌,
  ◌==◌, if◌then◌else◌, take, length,
}
use inter_container_messagin.Base.Word.{ℤ, pos, is_neg}
use inter_container_messagin.Util.Mkdir.{FileSystem, mkdir_path}
use inter_container_messagin.Bcll.{Store, bcll_add, bcll_del}
use inter_container_messagin.Vector.{Vector}
use inter_container_messagin.Nanomsg.{
  Call, Target, Reception, fresh, buffer, send_data, receive_data, Library, create_slave_socket,
  create_master_socket, destroy_socket, add_slave_endpoint, add_master_endpoint, delete_endpoint,
}

-- ICMP_CHANNEL_PREFIX, "/opt/container/"
abbrev pub channel_prefix : Bytes
channel_prefix =
    b'/' ∷ b'o' ∷ b'p' ∷ b't' ∷ b'/' ∷ b'c' ∷ b'o' ∷ b'n' ∷ b't' ∷ b'a' ∷ b'i' ∷ b'n' ∷ b'e' ∷ b'r'
    ∷ b'/' ∷ []

-- "ipc://" and "/ocp-channel"
abbrev pub ipc : Bytes
ipc = b'i' ∷ b'p' ∷ b'c' ∷ b':' ∷ b'/' ∷ b'/' ∷ []

abbrev pub ocp_channel : Bytes
ocp_channel = b'/' ∷ b'o' ∷ b'c' ∷ b'p' ∷ b'-' ∷ b'c' ∷ b'h' ∷ b'a' ∷ b'n' ∷ b'n' ∷ b'e' ∷ b'l' ∷ []

abbrev pub local : Bytes
local = b'l' ∷ b'o' ∷ b'c' ∷ b'a' ∷ b'l' ∷ []

-- What `snprintf` leaves in `path[PATH_MAX]`, with PATH_MAX 4096
abbrev pub path_text : Bytes → Bytes
path_text text = take 4095 text

-- The path of the channel of a container
abbrev pub channel : Bytes → Bytes
channel name = path_text (ipc ++ (channel_prefix ++ (name ++ ocp_channel)))

-- `ic_transport_ops_t`, but for the operations on data: they are the same for every transport, and
-- are called below.
pub record Ops : Type 0 where
  pub create : ℕ → Run ℕ
  pub destroy : ℕ → Run (Unit {0})
  pub add_endpoint : ℕ → Bytes → Run ℕ
  pub delete_endpoint : ℕ → ℕ → Run (Unit {0})

abbrev pub master_transport_ops : Library → Ops
master_transport_ops lib = record {
  create = create_master_socket lib;
  destroy = destroy_socket lib;
  add_endpoint = add_slave_endpoint lib;
  delete_endpoint = delete_endpoint lib;
}

abbrev pub slave_transport_ops : Library → Ops
slave_transport_ops lib = record {
  create = create_slave_socket lib;
  destroy = destroy_socket lib;
  add_endpoint = add_master_endpoint lib;
  delete_endpoint = delete_endpoint lib;
}

-- The system under one call: `access` for writing and the error number ENOENT, the address of the link
-- in the context that `eee_malloc` gives, and the calls of nanomsg.
pub record System (S : Type 0) : Type 0 where
  pub room : ℕ → Bool
  pub files : FileSystem S
  pub access : Bytes → S → Option ℕ
  pub enoent : ℕ
  pub context : Option ℕ
  pub library : Library

-- `ic_transport_context_t`; the address of `link` stands for it, and `tx_vec` is `none` while it is
-- indeterminate.
pub record Context : Type 0 where
  pub name : Bytes
  pub sock : ℕ
  pub endpoint : ℕ
  pub ops : Ops
  pub link : ℕ
  pub tx_vec : Option (Option (Vector (Unit {0})))

-- The file system, and the links of the transports
pub record Transports (S : Type 0) : Type 0 where
  pub disk : S
  pub links : Store

-- What becomes of messages: EINTR, `errno` in front of a call, and the outcomes of `nn_send` and
-- `nn_recv` on a socket.
pub record Traffic : Type 0 where
  pub eintr : ℕ
  pub errno : ℕ
  pub sending : ℕ → Bytes → List (Call ℕ)
  pub receiving : ℕ → List (Call Bytes)

module _ {S : Type 0} (sys : System S) where
  -- The body of the loop over the names: the flag is false where NULL is returned.
  unfoldable pub channel_directory : Bytes → S → Run (S × Bool)
  channel_directory name s =
      let path = path_text (channel_prefix ++ name) in
      let made = mkdir_path sys.files sys.room path s >>= λ (s', rc). elim rc [
        | pos zero ↦ ok (s', true)
        | other ↦ ok (s', false)
      ] in
      elim (sys.access path s) [
        | none ↦ ok (s, true)
        | some e ↦ if e == sys.enoent then made else ok (s, false)
      ]

  -- `ic_transport_create` behind the allocation of the context
  unfoldable pub open_channel :
      ℕ → Bytes → Bool → Transports S → ℕ → Run (Option Context × Transports S)
  open_channel list name master ts link =
      let ops =
        if master then master_transport_ops sys.library else slave_transport_ops sys.library in
      ops.create (if master then 100 else 0) >>= λ sock.
      ops.add_endpoint sock (channel name) >>= λ ep. ok (
        some (record {
          name = name;
          sock = sock;
          endpoint = ep;
          ops = ops;
          link = link;
          tx_vec = none;
        }),
        record ts { links = bcll_add ts.links list link },
      )

  -- `ic_transport_create`; `list` is the address of `transport_list`, and `none` a NULL name or NULL.
  unfoldable pub transport_create :
      ℕ → Option Bytes → Bool → Transports S → Run (Option Context × Transports S)
  unfolding channel_directory open_channel
  transport_create list none master ts = ok (none, ts)
  transport_create list (some name) master ts = channel_directory name ts.disk >>= λ (disk, there).
      if not there
      then ok (none, record ts { disk = disk })
      else (channel_directory local disk >>= λ (disk', there').
          if not there' then ok (none, record ts { disk = disk' }) else elim sys.context [
            | none ↦ ok (none, record ts { disk = disk' })
            | some link ↦ open_channel list name master (record ts { disk = disk' }) link
          ])

  abbrev pub transport_create_master :
      ℕ → Option Bytes → Transports S → Run (Option Context × Transports S)
  transport_create_master list name ts = transport_create list name true ts

  abbrev pub transport_create_slave :
      ℕ → Option Bytes → Transports S → Run (Option Context × Transports S)
  transport_create_slave list name ts = transport_create list name false ts

unfoldable pub transport_destroy : {S : Type 0} → Context → Transports S → Run (Transports S)
transport_destroy ctx ts = ctx.ops.delete_endpoint ctx.sock ctx.endpoint >>= λ _.
    ctx.ops.destroy ctx.sock >>= λ _. ok (record ts { links = bcll_del ts.links ctx.link })

abbrev pub transport_name : Context → Bytes
transport_name ctx = ctx.name

-- What a reception into a pointer to NULL, with a length of 0, has left in the two variables
abbrev pub message_of : Reception → Option Bytes
message_of r = elim r.message [ buffer msg ↦ some msg | _ ↦ none ]

abbrev pub len_of : Reception → ℕ
len_of r = elim r.len [ none ↦ 0 | some len ↦ len ]

module _ (traffic : Traffic) (ctx : Context) where
  unfoldable pub transport_send_data : Bytes → Run ℤ
  transport_send_data msg =
      send_data traffic.eintr (length msg) traffic.errno (traffic.sending ctx.sock msg)

  unfoldable pub transport_receive_data : Target → Option ℕ → Run Reception
  transport_receive_data target len =
      receive_data traffic.eintr target len traffic.errno (traffic.receiving ctx.sock)

  -- No handler is `none`, and a message without one is not freed.
  unfoldable pub transport_handle_data :
      {S : Type 0} → Option (Option Bytes → ℕ → S → Run (S × ℤ)) → S → Run (S × ℤ)
  unfolding transport_receive_data
  transport_handle_data handler s = transport_receive_data fresh (some 0) >>= λ r.
      if is_neg r.rc
      then ok (s, r.rc)
      else elim handler [ none ↦ ok (s, r.rc) | some h ↦ h (message_of r) (len_of r) s ]
