-- ===== src/Examples/Channels.antt =====
-- Directories and transports (src/lib/util.c and src/lib/transport.c) at concrete inputs.
use inter_container_messagin.Base.{
  ℕ, ◌≡◌, refl, true, false, none, some, List, [], ◌∷◌, Bytes, ok, arith, Holds, bytes_eq,
}
use inter_container_messagin.Base.Word.{pos}
use inter_container_messagin.ErrorCode.{success}
use inter_container_messagin.Util.Mkdir.{mkdir_path, make}
use inter_container_messagin.Util.Mkdir.Ancestors.{mkdir_path-make_all, make_all}
use inter_container_messagin.Nanomsg.{gave, failed, iov_data, Library}
use inter_container_messagin.Vector.{Vector, desc}
use inter_container_messagin.Transport.{
  transport_create_master, master_transport_ops, Context, Transports, transport_create,
}
use inter_container_messagin.Transport.{slave_transport_ops}
use inter_container_messagin.Bcll.{bcll_add, bcll_del}
use inter_container_messagin.Transport.Made.{transport_create_master-made}
use inter_container_messagin.Transport.Opened.{
  opened, present-IsReady, transport_create_slave-opened,
}
use inter_container_messagin.Transport.Carried.{transport_destroy-closed}
use inter_container_messagin.Transport.Reach.{IsKept, create, destroy, start, later, Reach-IsKept}
use inter_container_messagin.Examples.Systems.{prepared, directories, library, system}
use inter_container_messagin.Transport.Append.{AppendFaults, transport_create-AppendFaults}
use inter_container_messagin.Transport.Vectors.{send_vector_data-pieces_of, send_vector_data, piece}
use inter_container_messagin.Examples.Text.{codes}
use inter_container_messagin.Examples.Rings.{one_entry, one_entry-IsRing}

mkdir_path-make_all_example :
    mkdir_path directories (λ n. true) (codes "/opt/c1") (codes "/" ∷ codes "/opt/" ∷ [])
    ≡ ok (codes "/opt/c1" ∷ codes "/" ∷ codes "/opt/" ∷ [], pos 0)
unfolding bytes_eq make_all make
mkdir_path-make_all_example =
    mkdir_path-make_all directories (λ n. true) (λ n. refl) (codes "opt" ∷ codes "c1" ∷ [])
      (codes "/" ∷ codes "/opt/" ∷ []) (ground arith)

-- Only the root directory is there, and one transport is open.
abbrev transports : Transports (List Bytes)
transports = record { disk = codes "/" ∷ []; links = one_entry }

-- A slave transport whose socket is closed at the second try
abbrev stubborn : Library
stubborn = record library { close = λ sock. failed 4 }

abbrev context : Context
context = opened (codes "c1") 8 5 (slave_transport_ops stubborn) 2

abbrev buffers : ℕ → Vector (Unit {0})
buffers len = record {
  nr_vector = 2;
  budget = some (desc (some (codes "ab")) 2 ∷ desc (some (codes "c")) len ∷ []);
  budget_size = 4096;
  obj_size = 0;
  ctor = none;
  dtor = none;
  ctor_arg = none;
  flag_alloc = false;
  flag_zero_init = false;
}

send_vector_data-pieces_of_example :
    send_vector_data 4 true (some (buffers 1)) (failed 4 ∷ gave 3 ∷ [])
    ≡ ok (pos 3, success, piece (some (codes "ab")) 2 ∷ piece (some (codes "c")) 1 ∷ [])
unfolding iov_data
send_vector_data-pieces_of_example =
    send_vector_data-pieces_of (buffers 1) refl (omega arith)
      ((codes "ab", 2) ∷ (codes "c", 1) ∷ [])
      (desc (some (codes "ab")) 2 ∷ desc (some (codes "c")) 1 ∷ []) 4 (failed 4 ∷ gave 3 ∷ []) refl
      refl (refl, omega arith, (refl, omega arith, tt))

transport_create-AppendFaults_example :
    Holds AppendFaults (transport_create system 1 (some (codes "c1")) true transports)
transport_create-AppendFaults_example =
    transport_create-AppendFaults system 1 (some (codes "c1")) true transports

-- A transport that is open, and one that is created next
abbrev old : Context
old = opened (codes "c1") 8 5 (slave_transport_ops library) 2

abbrev next : Context
next = opened (codes "web") 8 5 (slave_transport_ops library) 3

Reach-IsKept_example : IsKept 1 (record {
  live = old ∷ [];
  state = record prepared { links = bcll_del (bcll_add one_entry 1 3) 3 };
})
unfolding bytes_eq
Reach-IsKept_example =
    Reach-IsKept {p = record { live = old ∷ []; state = prepared }} one_entry-IsRing (
      later
        (later start (
          create system (some (codes "web")) false
            ((λ e. absurd (omega (arith, e))), ((λ e. absurd (omega (arith, e))), tt))
            (transport_create_slave-opened system 1 3 8 5 (codes "web") prepared prepared.disk
              (present-IsReady system (codes "web") 3 prepared.disk refl refl refl) refl refl)))
        (destroy [] next (old ∷ []) refl (
          transport_destroy-closed library (codes "web") 8 5 3
            (record prepared { links = bcll_add one_entry 1 3 }) refl)))

-- Only the root is there: the other four directories are made.
transport_create_master-made_example :
    transport_create_master system 1 (some (codes "c1")) transports
    ≡ ok (
      some (opened (codes "c1") 8 5 (master_transport_ops library) 3),
      record {
        disk =
            codes "/opt/container/local"
            ∷ codes "/opt/container/c1"
            ∷ codes "/opt/container/"
            ∷ codes "/opt/"
            ∷ codes "/"
            ∷ [];
        links = bcll_add one_entry 1 3;
      },
    )
unfolding bytes_eq make_all make
transport_create_master-made_example =
    transport_create_master-made system 1 3 8 5 (codes "c1") transports
      (codes "/opt/container/c1" ∷ codes "/opt/container/" ∷ codes "/opt/" ∷ codes "/" ∷ [])
      (codes "/opt/container/local"
        ∷ codes "/opt/container/c1"
        ∷ codes "/opt/container/"
        ∷ codes "/opt/"
        ∷ codes "/"
        ∷ [])
      (λ n. refl) (λ e. cc) (ground arith) (omega arith) refl refl refl refl refl refl refl refl
