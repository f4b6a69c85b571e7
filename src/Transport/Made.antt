-- ===== src/Transport/Made.antt =====
-- The directories that `ic_transport_create` of src/lib/transport.c makes where they are missing.
use inter_container_messagin.Base.{ℕ, ◌≤◌, ◌≡◌, ◌≢◌, true, some, [], ◌++◌, Bytes, ok, length, arith}
use inter_container_messagin.Base.Word.{pos}
use inter_container_messagin.Util.Mkdir.Ancestors.{NoSlash, make_all}
use inter_container_messagin.Bcll.{bcll_add}
use inter_container_messagin.Nanomsg.{gave, nn_rep}
use inter_container_messagin.Transport.{
  System, Transports, channel_prefix, path_text, local, channel, master_transport_ops,
  transport_create_master,
}
use inter_container_messagin.Transport.Opened.{opened, transport_create_master-opened}
use inter_container_messagin.Transport.Provided.{missing, channel_directories}

-- Where the directories of a channel and of the local one are missing, the creation of a master
-- transport makes them, with all directories on the way; its socket is bound to the channel, and the
-- transport is the first of the list. The calls succeed and memory suffices;
-- the name is not empty, has no slash and at most 4000 bytes.
pub transport_create_master-made :
    {S : Type 0} (sys : System S) (list link sock ep : ℕ) (name : Bytes) (ts : Transports S)
    (disk disk' : S)
    → ((n : ℕ) → sys.room n ≡ true)
    → name ≢ []
    → NoSlash name
    → length name ≤ 4000
    → sys.access (path_text (channel_prefix ++ name)) ts.disk ≡ some sys.enoent
    → make_all sys.files (channel_directories name) ts.disk ≡ (disk, pos 0)
    → sys.access (path_text (channel_prefix ++ local)) disk ≡ some sys.enoent
    → make_all sys.files (channel_directories local) disk ≡ (disk', pos 0)
    → sys.context ≡ some link
    → sys.library.socket nn_rep ≡ gave sock
    → sys.library.set_send_timeout sock 100 ≡ gave tt
    → sys.library.bind sock (channel name) ≡ gave ep
    → transport_create_master sys list (some name) ts
      ≡ ok (
        some (opened name sock ep (master_transport_ops sys.library) link),
        record { disk = disk'; links = bcll_add ts.links list link },
      )
transport_create_master-made sys list link sock ep name ts disk disk' ample ne flat short absent
      first local_absent second memory =
    transport_create_master-opened sys list link sock ep name ts disk' (record {
      between = disk;
      provided = missing (record {
        ample = ample;
        named = ne;
        flat = flat;
        short = short;
        absent = absent;
        made = first;
      });
      local_provided = missing (record {
        ample = ample;
        named = λ e. cc;
        flat = ground arith;
        short = omega arith;
        absent = local_absent;
        made = second;
      });
      memory = memory;
    })
