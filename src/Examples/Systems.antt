-- ===== src/Examples/Systems.antt =====
-- Systems under the examples: a file system, the nanomsg library and what becomes of messages.
use inter_container_messagin.Base.{
  true, none, some, List, [], ◌∷◌, ◌++◌, Bytes, bytes_eq, ◌||◌, Bool, false, if◌then◌else◌, length,
}
use inter_container_messagin.Util.Mkdir.{FileSystem}
use inter_container_messagin.Nanomsg.{Call, gave, Library}
use inter_container_messagin.Transport.{
  System, Context, Transports, Traffic, channel_prefix, local, master_transport_ops,
}
use inter_container_messagin.Transport.Opened.{opened}
use inter_container_messagin.Examples.Text.{codes}
use inter_container_messagin.Examples.Rings.{one_entry}

-- A file system that is the list of its directories; EEXIST is 17 and ENOENT 2.
abbrev pub is_there : Bytes → List Bytes → Bool
is_there name [] = false
is_there name (d ∷ ds) = bytes_eq name d || is_there name ds

abbrev pub directories : FileSystem (List Bytes)
directories = record {
  mkdir = λ name ds. if is_there name ds then (ds, some 17) else (name ∷ ds, none);
  eexist = 17;
}

-- EINTR is 4, and a socket has the number 8.
abbrev pub library : Library
library = record {
  eintr = 4;
  socket = λ protocol. gave 8;
  set_recv_timeout = λ sock timeout. gave tt;
  set_send_timeout = λ sock timeout. gave tt;
  bind = λ sock url. gave 5;
  connect = λ sock url. gave 5;
  shutdown = λ sock ep. gave tt;
  close = λ sock. gave tt;
  close_again = λ sock. gave tt;
}

abbrev pub system : System (List Bytes)
system = record {
  room = λ n. true;
  files = directories;
  access = λ name ds. if is_there name ds then none else some 2;
  enoent = 2;
  context = some 3;
  library = library;
}

-- The directories of "web" and "local" are there.
abbrev pub prepared : Transports (List Bytes)
prepared = record {
  disk = (channel_prefix ++ codes "web") ∷ (channel_prefix ++ local) ∷ [];
  links = one_entry;
}

-- A worker's transport, and sockets that take every message whole
abbrev pub web : Context
web = opened (codes "web") 8 5 (master_transport_ops library) 3

abbrev pub calm : List (Call Bytes) → Traffic
calm calls = record {
  eintr = 4;
  errno = 0;
  sending = λ sock msg. gave (length msg) ∷ [];
  receiving = λ sock. calls;
}
