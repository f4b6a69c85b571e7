-- ===== src/Nanomsg/Retry.antt =====
-- The loops of src/lib/nanomsg.c that repeat an interrupted call.
use inter_container_messagin.Base.{
  ℕ, zero, suc, ◌-◌, ◌^◌, ◌<◌, ◌≡◌, ◌≢◌, refl, ◌||◌, some, ok, blocked, List, ◌∷◌, ◌++◌, Bytes,
  ◌==◌, if◌then◌else◌, ltb, [], length, replicate, arith, ◌∙◌,
}
use inter_container_messagin.Base.Word.{pos}
use inter_container_messagin.Message.{rc_ok, rc_error}
use inter_container_messagin.Nanomsg.{
  Call, gave, failed, send_data, iov_data, fresh, buffer, receive_data,
}

-- A number of interrupted calls.
abbrev pub interrupted : {A : Type 0} → ℕ → ℕ → List (Call A)
interrupted eintr k = replicate k (failed eintr)

send-interrupted :
    (eintr k data_len errno : ℕ) (last : Call ℕ) (calls : List (Call ℕ))
    → data_len < 2 ^ 64 - 1
    → send_data eintr data_len errno (interrupted eintr k ++ (last ∷ calls))
      ≡ send_data eintr data_len (if k == 0 then errno else eintr) (last ∷ calls)
unfolding send_data
send-interrupted eintr zero data_len errno last calls small = refl
send-interrupted eintr (suc k) data_len errno last calls small =
    ground (arith, send-interrupted eintr k data_len eintr last calls small)

iov-interrupted :
    (eintr k : ℕ) (last : Call ℕ) (calls : List (Call ℕ))
    → iov_data eintr (interrupted eintr k ++ (last ∷ calls)) ≡ iov_data eintr (last ∷ calls)
unfolding iov_data
iov-interrupted eintr zero last calls = refl
iov-interrupted eintr (suc k) last calls = ground (arith, iov-interrupted eintr k last calls)

receive-interrupted :
    (eintr k expected errno : ℕ) (msg : Bytes) (calls : List (Call Bytes))
    → length msg < 2 ^ 31
    → receive_data eintr fresh (some expected) errno (interrupted eintr k ++ (gave msg ∷ calls))
      ≡ receive_data eintr fresh (some expected) errno (gave msg ∷ calls)
unfolding receive_data
receive-interrupted eintr zero expected errno msg calls small = refl
receive-interrupted eintr (suc k) expected errno msg calls small =
    ground (arith, receive-interrupted eintr k expected eintr msg calls small)

-- Interruptions alone do not end a reception.
pub receive-waiting :
    (eintr k expected errno : ℕ)
    → receive_data eintr fresh (some expected) errno (interrupted eintr k) ≡ blocked
unfolding receive_data
receive-waiting eintr zero expected errno = refl
receive-waiting eintr (suc k) expected errno =
    ground (arith, receive-waiting eintr k expected eintr)

module _ (eintr k : ℕ) where
  -- However often `nn_send` is interrupted, the call that is not decides: a message of fewer than
  -- 2 ^ 31 bytes that is taken whole gives 0, and another error -1, for any length below
  -- 2 ^ 64 - 2 ^ 31. The length of a longer message does not fit an `int`: taken whole it is reported
  -- as an error, or behind an interruption sent again. `errno` is not EINTR from an earlier call.
  pub send_data-retries :
      (data_len errno e : ℕ) (calls : List (Call ℕ))
      → data_len < 2 ^ 64 - 2 ^ 31
      → e ≢ eintr
      → errno ≢ eintr
      → (send_data eintr data_len errno (interrupted eintr k ++ (gave data_len ∷ []))
          ≡ (if ltb data_len (2 ^ 31) then ok rc_ok else if k == 0 then ok rc_error else blocked))
        × (send_data eintr data_len errno (interrupted eintr k ++ (failed e ∷ calls)) ≡ ok rc_error)
  unfolding send_data
  send_data-retries data_len errno e calls small ne old = (
    send-interrupted eintr k data_len errno (gave data_len) [] (omega arith) ∙ ground arith,
    send-interrupted eintr k data_len errno (failed e) calls (omega arith) ∙ ground arith,
  )

  pub send_data-whole :
      (data_len errno : ℕ) (calls : List (Call ℕ))
      → data_len < 2 ^ 31
      → send_data eintr data_len errno (interrupted eintr k ++ (gave data_len ∷ calls)) ≡ ok rc_ok
  unfolding send_data
  send_data-whole data_len errno calls small =
      send-interrupted eintr k data_len errno (gave data_len) calls (omega arith) ∙ ground arith

  -- A call that sends less than the message fails, but not behind an interrupted one: `errno` then
  -- still says EINTR, and the message is sent again.
  pub short_send-repeats :
      (data_len errno n : ℕ) (calls : List (Call ℕ))
      → data_len < 2 ^ 64 - 1
      → errno ≢ eintr
      → n ≢ data_len
      → n < 2 ^ 31
      → send_data eintr data_len errno (interrupted eintr k ++ (gave n ∷ calls))
        ≡ (if k == 0 then ok rc_error else send_data eintr data_len eintr calls)
  unfolding send_data
  short_send-repeats data_len errno n calls small ne short little =
      send-interrupted eintr k data_len errno (gave n) calls small ∙ ground arith

  -- The same for a vector of buffers, sent or received: its length, or -1.
  pub iov_data-retries :
      (e len : ℕ) (calls : List (Call ℕ))
      → e ≢ eintr
      → (iov_data eintr (interrupted eintr k ++ (gave len ∷ calls)) ≡ ok (pos len))
        × (iov_data eintr (interrupted eintr k ++ (failed e ∷ calls)) ≡ ok rc_error)
  unfolding iov_data
  iov_data-retries e len calls ne = (
    iov-interrupted eintr k (gave len) calls,
    iov-interrupted eintr k (failed e) calls ∙ ground arith,
  )

  -- A message of fewer than 2 ^ 31 bytes that is received into a pointer to NULL, however often that
  -- was interrupted, is left there. The result is 0, with its length, if any or just this length was
  -- expected, and otherwise -1, with the expected length left as it was.
  pub receive_data-retries :
      (expected errno : ℕ) (msg : Bytes) (calls : List (Call Bytes))
      → length msg < 2 ^ 31
      → receive_data eintr fresh (some expected) errno (interrupted eintr k ++ (gave msg ∷ calls))
        ≡ ok (
            if expected == 0 || expected == length msg
            then record { rc = rc_ok; message = buffer msg; len = some (length msg) }
            else record { rc = rc_error; message = buffer msg; len = some expected })
  unfolding receive_data
  receive_data-retries expected errno msg calls small =
      receive-interrupted eintr k expected errno msg calls small ∙ ground arith
