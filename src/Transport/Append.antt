-- ===== src/Transport/Append.antt =====
-- `ic_transport_append_vector_data` of src/lib/transport.c, and what its vector holds. An address is a
-- number, and `struct nn_iovec` takes 16 bytes.
use inter_container_messagin.Base.{
  ℕ, zero, suc, ◌+◌, ◌-◌, ◌^◌, ◌<◌, ◌≤◌, ◌≡◌, refl, ap, ◌∙◌, Bool, true, false, Option, none, some,
  List, ◌++◌, Bytes, Run, ok, fault, ◌>>=◌, Holds, Holds-behind, Holds-weaken, Bool-cases, inl, inr,
  leb, if◌then◌else◌, length, drop, drop-all, length-append, append-nil, ◌/◌, set, get_elem?, arith,
}
use inter_container_messagin.Base.Word.{ℤ, pos, to_int}
use inter_container_messagin.ErrorCode.{Status, success, failure}
use inter_container_messagin.Message.{rc_ok, rc_error, to_le}
use inter_container_messagin.Vector.{Slot, object, Vector, expand}
use inter_container_messagin.Vector.Slots.{slot_index, slot_at}
use inter_container_messagin.Vector.Lifetime.{vector_create}
use inter_container_messagin.Transport.{
  System, Context, Transports, channel_directory, open_channel, transport_create, local, channel,
  master_transport_ops, slave_transport_ops,
}

abbrev pub sizeof_iovec : ℕ
sizeof_iovec = 16

-- `iov_base` and `iov_len` in memory
abbrev pub iovec : ℕ → ℕ → Bytes
iovec base len = to_le 8 base ++ to_le 8 len

-- A write through the pointer that `vector_get_obj` returns for an index: NULL and a descriptor end
-- in a fault.
unfoldable pub write_obj : Vector (Unit {0}) → ℤ → Bytes → Run (Vector (Unit {0}))
write_obj v index bytes = elim (slot_index v index) [
  | none ↦ fault
  | some i ↦ slot_at v i >>= λ s. elim s [
    | object (some old) ↦
        if leb (length bytes) (length old)
        then ok (record v {
          budget = elim v.budget [
            | none ↦ none
            | some slots ↦ some (set slots i (object (some (bytes ++ drop (length bytes) old))))
          ];
        })
        else fault
    | _ ↦ fault
  ]
]

-- The end of `ic_transport_append_vector_data`: the last object takes the buffer and its length.
unfoldable pub fill_last : Context → Vector (Unit {0}) → ℕ → ℕ → Run (Context × (Status × ℤ))
unfolding write_obj
fill_last ctx v base len = write_obj v (to_int (v.nr_vector - 1)) (iovec base len) >>= λ v'.
    ok (record ctx { tx_vec = some (some v') }, (success, rc_ok))

-- `ic_transport_append_vector_data`, with the allocations of the vector. A `tx_vec` that was never set
-- is read.
unfoldable pub append_vector_data :
    Bool → Bool → (ℕ → Option Bytes) → Context → ℕ → ℕ → Run (Context × (Status × ℤ))
unfolding fill_last
append_vector_data block realloc blocks ctx base len = elim ctx.tx_vec [
  | none ↦ fault
  | some none ↦
      vector_create block realloc blocks 1 sizeof_iovec none none none true false
      >>= λ (created, status). elim created [
        | none ↦ ok (ctx, (status, rc_error))
        | some v ↦ fill_last ctx v base len
      ]
  | some (some v) ↦ expand v realloc blocks (pos 1) none >>= λ (v', status).
      let ctx' : Context = record ctx { tx_vec = some (some v') } in
      elim status [
        | failure e ↦ ok (ctx', (failure e, rc_error))
        | success ↦ fill_last ctx' v' base len
      ]
]

-- What `ic_transport_create` returns, if anything, has a `tx_vec` that was not set.
abbrev pub IsUnset : {S : Type 0} → Option Context × Transports S → Type 0
IsUnset (none, ts) = Unit
IsUnset (some ctx, ts) = ctx.tx_vec ≡ none

module _ {S : Type 0} (sys : System S) (list : ℕ) where
  open_channel-IsUnset :
      (name : Bytes) (master : Bool) (ts : Transports S) (link : ℕ)
      → Holds IsUnset (open_channel sys list name master ts link)
  unfolding open_channel
  open_channel-IsUnset name master ts link =
      let ops =
        if master then master_transport_ops sys.library else slave_transport_ops sys.library in
      Holds-behind _ (ops.create (if master then 100 else 0)) _
        (λ sock. Holds-behind _ (ops.add_endpoint sock (channel name)) _ (λ ep. refl))

  created-IsUnset :
      (name : Bytes) (master : Bool) (ts : Transports S) (context : Option ℕ)
      → Holds IsUnset (elim context [
        | none ↦ ok (none, ts)
        | some link ↦ open_channel sys list name master ts link
      ])
  created-IsUnset name master ts none = tt
  created-IsUnset name master ts (some link) = open_channel-IsUnset name master ts link

  pub transport_create-IsUnset :
      (name : Option Bytes) (master : Bool) (ts : Transports S)
      → Holds IsUnset (transport_create sys list name master ts)
  unfolding transport_create
  transport_create-IsUnset none master ts = tt
  transport_create-IsUnset (some name) master ts =
      Holds-behind _ (channel_directory sys name ts.disk) _ (λ (disk, there).
        elim (Bool-cases there) [
          | inr e ↦ rw e tt
          | inl e ↦ rw e (
              Holds-behind _ (channel_directory sys local disk) _ (λ (disk', there').
                elim (Bool-cases there') [
                  | inr e' ↦ rw e' tt
                  | inl e' ↦
                      rw e' (created-IsUnset name master (record ts { disk = disk' }) sys.context)
                ]))
        ])

-- To append faults on a transport, whatever the allocations give.
abbrev pub AppendFaults : {S : Type 0} → Option Context × Transports S → Type 0
AppendFaults (none, ts) = Unit
AppendFaults (some ctx, ts) =
    (block realloc : Bool) (blocks : ℕ → Option Bytes) (base len : ℕ)
    → append_vector_data block realloc blocks ctx base len ≡ fault

IsUnset-AppendFaults : {S : Type 0} (r : Option Context × Transports S) → IsUnset r → AppendFaults r
unfolding append_vector_data
IsUnset-AppendFaults (none, ts) u = tt
IsUnset-AppendFaults (some ctx, ts) u = λ block realloc blocks base len. rw u refl

-- Every transport that `ic_transport_create` returns makes `ic_transport_append_vector_data` fault.
pub transport_create-AppendFaults :
    {S : Type 0} (sys : System S) (list : ℕ) (name : Option Bytes) (master : Bool)
    (ts : Transports S)
    → Holds AppendFaults (transport_create sys list name master ts)
transport_create-AppendFaults sys list name master ts =
    Holds-weaken IsUnset AppendFaults IsUnset-AppendFaults
      (transport_create sys list name master ts) (transport_create-IsUnset sys list name master ts)

length-to_le : (n x : ℕ) → length (to_le n x) ≡ n
unfolding to_le
length-to_le zero x = refl
length-to_le (suc n) x = ground (arith, length-to_le n (x / 256))

pub length-iovec : (base len : ℕ) → length (iovec base len) ≡ 16
length-iovec base len =
    omega
      (arith, length-append (to_le 8 base) (to_le 8 len), length-to_le 8 base, length-to_le 8 len)

replaced : (old new : Bytes) → length old ≡ length new → new ++ drop (length new) old ≡ new
replaced old new e = ap (λ b. new ++ b) (drop-all (length new) old (omega arith)) ∙ append-nil new

module _ (v : Vector (Unit {0})) (slots : List Slot) (old new : Bytes) (last : ℕ)
    (held : v.budget ≡ some slots) (counted : v.nr_vector ≡ last + 1)
    (fits : v.nr_vector ≤ length slots) (small : v.nr_vector < 2 ^ 31)
    (there : get_elem? slots last ≡ some (object (some old)))
    (sized : length old ≡ length new) where
  pub write_obj_lem :
      write_obj v (to_int (v.nr_vector - 1)) new
      ≡ ok (record v { budget = some (set slots last (object (some new))) })
  unfolding write_obj slot_index slot_at
  write_obj_lem = ground (arith, replaced old new sized)
