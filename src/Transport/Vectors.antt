-- ===== src/Transport/Vectors.antt =====
-- The vectors of buffers of src/lib/transport.c: what `ic_transport_send_vector_data` sends of one.
use inter_container_messagin.Base.{
  ℕ, suc, ◌+◌, ◌^◌, ◌≤◌, ◌<◌, ◌≡◌, refl, ap, ◌∙◌, Bool, true, false, some, List, [], ◌∷◌, Bytes, ok,
  fault, ◌>>=◌, ◌==◌, if◌then◌else◌, arith, length, get_elem?, zero, Option, none, Run,
}
use inter_container_messagin.Base.Word.{to_int, to_ulong, to_long, ℤ}
use inter_container_messagin.ErrorCode.{
  success, Status, failure, ic_errno_invalid_parameter, ic_errno_out_of_mem,
}
use inter_container_messagin.Vector.{Slot, desc, Vector}
use inter_container_messagin.Vector.Slots.{get_obj}
use inter_container_messagin.Vector.Lifetime.{get_obj_len}
use inter_container_messagin.Nanomsg.{Call, iov_data}
use inter_container_messagin.Message.{rc_error}

-- An element of the vector for `nn_sendmsg`: a buffer and a length, or the address of the variable
-- `buf`, which ends with the round of the loop.
pub data Piece : Type 0 where
  piece : Option Bytes → ℕ → Piece
  dangling : Piece

-- Whether `nn_sendmsg` follows that address: it takes a buffer of length NN_MSG only when it is the
-- only one, and fails with EINVAL when there are several.
abbrev pub is_followed : List Piece → Bool
is_followed (dangling ∷ []) = true
is_followed _ = false

module _ {Arg : Type 0} (v : Vector Arg) where
  -- The loop of `ic_transport_send_vector_data` over `n` objects from object `i`
  unfoldable pub gather : ℕ → ℕ → Run (List Piece)
  gather i zero = ok []
  gather i (suc n) = get_obj_len v (to_int i) >>= λ (len, _). get_obj v (to_int i) >>= λ (buf, _).
      gather (suc i) n >>= λ rest.
      ok ((if to_ulong len == 0 then dangling else piece buf (to_ulong len)) ∷ rest)

-- `ic_transport_send_vector_data`: the result of the send, and the pieces that were handed to it.
-- `block` says whether the array for them can be allocated.
unfoldable pub send_vector_data :
    {Arg : Type 0} → ℕ → Bool → Option (Vector Arg) → List (Call ℕ) → Run (ℤ × Status × List Piece)
unfolding gather
send_vector_data eintr block none calls = ok (rc_error, failure ic_errno_invalid_parameter, [])
send_vector_data eintr block (some v) calls =
    if block
    then (gather v 0 v.nr_vector >>= λ pieces.
        if is_followed pieces
        then fault
        else (iov_data eintr calls >>= λ rc. ok (rc, success, pieces)))
    else ok (rc_error, failure ic_errno_out_of_mem, [])

-- The slots from a number on are descriptors of these buffers and lengths.
abbrev pub AreAt : List Slot → ℕ → List (Bytes × ℕ) → Type 0
AreAt slots i [] = Unit
AreAt slots i ((buf, len) ∷ bufs) =
    (get_elem? slots i ≡ some (desc (some buf) len)) × (len < 2 ^ 64) × AreAt slots (suc i) bufs

-- What is handed over for each: an empty buffer is not
abbrev pub pieces_of : List (Bytes × ℕ) → List Piece
pieces_of [] = []
pieces_of ((buf, len) ∷ bufs) =
    (if len == 0 then dangling else piece (some buf) len) ∷ pieces_of bufs

abbrev pub is_one_empty : List (Bytes × ℕ) → Bool
is_one_empty ((buf, len) ∷ []) = len == 0
is_one_empty _ = false

is_followed-pieces_of : (bufs : List (Bytes × ℕ)) → is_followed (pieces_of bufs) ≡ is_one_empty bufs
is_followed-pieces_of [] = refl
is_followed-pieces_of ((buf, len) ∷ []) = ground arith
is_followed-pieces_of ((buf, len) ∷ other ∷ bufs) = ground arith

to_ulong-to_long : (len : ℕ) → len < 2 ^ 64 → to_ulong (to_long len) ≡ len
to_ulong-to_long len small = ground arith

module _ {Arg : Type 0} (v : Vector Arg) (variable : (v.obj_size == 0) ≡ true)
    (counted : v.nr_vector < 2 ^ 31) where
  slot_read :
      (i len : ℕ) (buf : Bytes) (slots : List Slot)
      → v.budget ≡ some slots
      → i < v.nr_vector
      → len < 2 ^ 64
      → get_elem? slots i ≡ some (desc (some buf) len)
      → (get_obj_len v (to_int i) ≡ ok (to_long len, success))
        × (get_obj v (to_int i) ≡ ok (some buf, success))
  unfolding get_obj_len get_obj
  slot_read i len buf slots b h l e = ground arith

  gather-pieces_of :
      (i : ℕ) (bufs : List (Bytes × ℕ)) (slots : List Slot)
      → v.budget ≡ some slots
      → i + length bufs ≤ v.nr_vector
      → AreAt slots i bufs
      → gather v i (length bufs) ≡ ok (pieces_of bufs)
  unfolding gather
  gather-pieces_of i [] slots b h at = refl
  gather-pieces_of i ((buf, len) ∷ bufs) slots b h (e, small, at) =
      let (measured, there) = slot_read i len buf slots b (omega arith) small e in
      rw measured (
        rw there (
          rw (gather-pieces_of (suc i) bufs slots b (omega arith) at)
            (rw (to_ulong-to_long len small) refl)))

  -- For a vector of fewer than 2 ^ 31 descriptors, its buffers are handed to the send in order, each
  -- with its length, and the result is that of the send, if the array for them can be allocated. For
  -- an empty buffer the address of a variable that is gone is handed over instead; when it is the
  -- only buffer, the send follows that address, which is a fault.
  pub send_vector_data-pieces_of :
      (bufs : List (Bytes × ℕ)) (slots : List Slot) (eintr : ℕ) (calls : List (Call ℕ))
      → v.budget ≡ some slots
      → v.nr_vector ≡ length bufs
      → AreAt slots 0 bufs
      → send_vector_data eintr true (some v) calls ≡ (
          if is_one_empty bufs
          then fault
          else (iov_data eintr calls >>= λ rc. ok (rc, success, pieces_of bufs)))
  unfolding send_vector_data
  send_vector_data-pieces_of bufs slots eintr calls b n at =
      rw (ap (λ k. gather v 0 k) n ∙ gather-pieces_of 0 bufs slots b (omega arith) at)
        (rw (is_followed-pieces_of bufs) refl)
