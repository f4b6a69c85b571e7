-- ===== src/Stream/Bounds.antt =====
-- The bounds checks of src/lib/buffer_stream.c against the positions that they are meant to admit.
use inter_container_messagin.Base.{
  ℕ, ◌+◌, ◌-◌, ◌^◌, ◌≤◌, ◌<◌, ◌≡◌, Bool, Option, none, some, arith, ltb, leb, length, if◌then◌else◌,
  ok, Bytes, take, drop, ◌++◌,
}
use inter_container_messagin.Base.Word.{ℤ, pos, negsuc, IsLong}
use inter_container_messagin.ErrorCode.{bs_out_of_range, Status, success, failure}
use inter_container_messagin.Stream.{Stream, seek_at, bs_get, bs_put}

-- The object is as long as the stream says, and the position does not lie behind its end.
pub record IsValid (bs : Stream) : Type 0 where
  pub sized : length bs.buf ≡ bs.buf_len
  pub within : bs.current ≤ bs.buf_len
  pub small : bs.buf_len < 2 ^ 63

-- The position that an offset names: from the end if it is negative.
unfoldable pub position : ℕ → ℤ → Option ℕ
position len (pos n) = some n
position len (negsuc n) = if ltb n len then some (len - n - 1) else none

-- The stream behind a read of `in_len` bytes that may be made.
unfoldable pub got : Stream → ℕ → Bool → Option ℕ → Stream × Status × Option ℕ
got bs in_len post none = (bs, failure bs_out_of_range, none)
got bs in_len post (some n) =
    if leb (n + in_len) bs.buf_len
    then (record bs { current = if post then n + in_len else n }, success, some n)
    else (bs, failure bs_out_of_range, none)

-- A read of fewer than 2 ^ 63 bytes is admitted exactly when the offset names a position from which
-- that many bytes lie in the buffer; it moves the position there, or behind the bytes read, and a
-- refused one leaves the stream alone.
pub bs_get-got :
    (bs : Stream) (in_len : ℕ) (post : Bool) (offset : ℤ)
    → IsValid bs
    → in_len < 2 ^ 63
    → IsLong offset
    → bs_get bs in_len post offset ≡ got bs in_len post (position bs.buf_len offset)
unfolding bs_get got position
bs_get-got bs in_len post (pos n) v h l = ground arith
bs_get-got bs in_len post (negsuc n) v h l = ground arith

-- What a seek to a position does.
unfoldable pub sought : Stream → Option ℕ → Stream × Status
sought bs none = (bs, failure bs_out_of_range)
sought bs (some n) =
    if ltb n bs.buf_len then (record bs { current = n }, success) else (bs, failure bs_out_of_range)

-- A seek goes to the position that the offset names, if that lies in front of the end, and otherwise
-- fails and leaves the stream alone. So the end itself cannot be sought.
pub seek_at-sought :
    (bs : Stream) (offset : ℤ)
    → IsValid bs
    → IsLong offset
    → seek_at bs offset ≡ sought bs (position bs.buf_len offset)
unfolding seek_at sought position
seek_at-sought bs (pos n) v l = ground arith
seek_at-sought bs (negsuc n) v l = ground arith

-- What a write at a position does.
unfoldable pub written : Stream → Bytes → ℕ → Bool → Option ℕ → Stream × Status
written bs out out_len post none = (bs, failure bs_out_of_range)
written bs out out_len post (some n) =
    if leb (n + out_len) bs.buf_len
    then (
      record {
        buf = take n bs.buf ++ (take out_len out ++ drop (n + out_len) bs.buf);
        buf_len = bs.buf_len;
        current = if post then n + out_len else n;
      },
      success,
    )
    else (bs, failure bs_out_of_range)

-- A write of at most as many bytes as the source holds never faults. It is admitted exactly when
-- the offset names a position from which that many bytes lie in the buffer, and then leaves the
-- bytes in front of it and behind it alone; a refused one changes nothing.
pub bs_put-written :
    (bs : Stream) (out : Bytes) (out_len : ℕ) (post : Bool) (offset : ℤ)
    → IsValid bs
    → out_len ≤ length out
    → out_len < 2 ^ 63
    → IsLong offset
    → bs_put bs (some out) out_len post offset
      ≡ ok (written bs out out_len post (position bs.buf_len offset))
unfolding bs_put written position
bs_put-written bs out out_len post (pos n) v m h l = ground arith
bs_put-written bs out out_len post (negsuc n) v m h l = ground arith
