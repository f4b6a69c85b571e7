-- ===== src/Stream.antt =====
-- The buffer stream of src/lib/buffer_stream.c and src/include/buffer_stream.h: a buffer with a
-- current position. Offsets are `long`, lengths `unsigned long`, and the sums of the bounds checks
-- wrap as they do in C. What `eee_malloc` returns is an argument: `none` for NULL, else the block
-- with its indeterminate bytes. The fields `in`, `out` and `parent` are used by no function.
pub mod Bounds
pub mod Contents
use inter_container_messagin.Base.{
  ℕ, ◌+◌, ◌-◌, ◌%◌, ◌^◌, Bool, true, false, not, ◌&&◌, ◌||◌, Option, none, some, ◌++◌, Bytes, Run,
  ok, fault, ◌>>=◌, leb, ltb, ◌==◌, if◌then◌else◌, length, take, drop,
}
use inter_container_messagin.Base.Word.{ℤ, is_neg, to_ulong, to_long, add_ulong, ltb_ℤ}
use inter_container_messagin.ErrorCode.{
  bs_invalid_parameter, bs_out_of_range, bs_out_of_mem, Status, success, failure,
}

-- `buf` is the allocated object: a NULL buffer has no bytes.
pub record Stream : Type 0 where
  pub buf : Bytes
  pub buf_len : ℕ
  pub current : ℕ

-- `memcpy(dst + at, src, n)`, a fault when it leaves one of the objects
abbrev pub memcpy : Bytes → ℕ → Bytes → ℕ → Run Bytes
memcpy dst at src n =
    if leb (at + n) (length dst) && leb n (length src)
    then ok (take at dst ++ (take n src ++ drop (at + n) dst))
    else fault

abs_offset : Stream → ℤ → ℤ
abs_offset bs offset =
    if is_neg offset then to_long (add_ulong bs.buf_len (to_ulong offset)) else offset

abbrev pub init : Bytes → ℕ → Stream
init buf buf_len = record { buf = buf; buf_len = buf_len; current = 0 }

abbrev pub tell : Stream → ℕ
tell bs = bs.current

abbrev pub size : Stream → ℕ
size bs = bs.buf_len

abbrev pub is_empty : Stream → Bool
is_empty bs = size bs == 0

abbrev pub remain : Stream → ℕ
remain bs = (bs.buf_len + 2 ^ 64 - bs.current) % 2 ^ 64

abbrev pub head : Stream → Bytes
head bs = bs.buf

unfoldable pub seek : Stream → ℤ → Stream × Status
seek bs offset =
    let new_offset : ℤ = to_long (add_ulong bs.current (to_ulong offset)) in
    if is_neg new_offset || not (ltb_ℤ new_offset (to_long bs.buf_len))
    then (bs, failure bs_invalid_parameter)
    else (record bs { current = add_ulong bs.current (to_ulong offset) }, success)

-- the body of `bs_seek_at`, at the absolute offset
seek_to : Stream → ℤ → Stream × Status
seek_to bs offset =
    if is_neg offset || leb bs.buf_len (to_ulong offset)
    then (bs, failure bs_out_of_range)
    else (record bs { current = to_ulong offset }, success)

unfoldable pub seek_at : Stream → ℤ → Stream × Status
unfolding seek_to abs_offset
seek_at bs offset = seek_to bs (abs_offset bs offset)

-- `block` is what `eee_malloc(out_buflen)` returns, if it is called. The old buffer is not freed.
unfoldable pub reserve_at : Option Bytes → Stream → ℕ → ℤ → Run (Stream × Status)
unfolding seek_at
reserve_at block bs ext_len offset =
    let out_buflen : ℕ = add_ulong (to_ulong offset) ext_len in
    if ltb bs.buf_len out_buflen
    then elim block [
      | none ↦ ok (bs, failure bs_out_of_mem)
      | some out_buf ↦ memcpy out_buf 0 bs.buf bs.buf_len >>= λ filled.
          ok (seek_at (record bs { buf = filled; buf_len = out_buflen }) offset)
    ]
    else ok (seek_at bs offset)

unfoldable pub reserve : Option Bytes → Stream → ℕ → Run (Stream × Status)
unfolding reserve_at
reserve block bs ext_len = reserve_at block bs ext_len (to_long bs.current)

-- the position of `__bs_get_at` and `__bs_put_at` behind an access
moved : Bool → Stream → ℕ → ℕ → Stream
moved post bs offset len = record bs { current = if post then add_ulong offset len else offset }

refused : Stream → ℕ → ℤ → Bool
refused bs len offset = is_neg offset || ltb bs.buf_len (add_ulong (to_ulong offset) len)

-- `__bs_get_at` at the absolute offset. The pointer stored in `*in` is given as its offset in the
-- buffer.
get_from : Stream → ℕ → Bool → ℤ → Stream × Status × Option ℕ
get_from bs in_len post offset =
    if refused bs in_len offset
    then (bs, failure bs_out_of_range, none)
    else (moved post bs (to_ulong offset) in_len, success, some (to_ulong offset))

unfoldable pub bs_get : Stream → ℕ → Bool → ℤ → Stream × Status × Option ℕ
unfolding get_from abs_offset refused moved
bs_get bs in_len post offset = get_from bs in_len post (abs_offset bs offset)

abbrev pub post_get_at : Stream → ℕ → ℤ → Stream × Status × Option ℕ
post_get_at bs in_len offset = bs_get bs in_len true offset

abbrev pub get_at : Stream → ℕ → ℤ → Stream × Status × Option ℕ
get_at bs in_len offset = bs_get bs in_len false offset

abbrev pub post_get : Stream → ℕ → Stream × Status × Option ℕ
post_get bs in_len = bs_get bs in_len true (to_long bs.current)

abbrev pub get : Stream → ℕ → Stream × Status × Option ℕ
get bs in_len = bs_get bs in_len false (to_long bs.current)

-- `__bs_put_at` at the absolute offset; `none` is a NULL `out`.
put_to : Stream → Option Bytes → ℕ → Bool → ℤ → Run (Stream × Status)
put_to bs none out_len post offset = ok (
    if refused bs out_len offset
    then (bs, failure bs_out_of_range)
    else (moved post bs (to_ulong offset) out_len, success))
put_to bs (some out) out_len post offset =
    if refused bs out_len offset
    then ok (bs, failure bs_out_of_range)
    else memcpy bs.buf (to_ulong offset) out out_len >>= λ filled.
        ok (moved post (record bs { buf = filled }) (to_ulong offset) out_len, success)

unfoldable pub bs_put : Stream → Option Bytes → ℕ → Bool → ℤ → Run (Stream × Status)
unfolding put_to abs_offset refused moved
bs_put bs out out_len post offset = put_to bs out out_len post (abs_offset bs offset)

abbrev pub post_put_at : Stream → Option Bytes → ℕ → ℤ → Run (Stream × Status)
post_put_at bs out out_len offset = bs_put bs out out_len true offset

abbrev pub put_at : Stream → Option Bytes → ℕ → ℤ → Run (Stream × Status)
put_at bs out out_len offset = bs_put bs out out_len false offset

abbrev pub post_put : Stream → Option Bytes → ℕ → Run (Stream × Status)
post_put bs out out_len = bs_put bs out out_len true (to_long bs.current)

abbrev pub put : Stream → Option Bytes → ℕ → Run (Stream × Status)
put bs out out_len = bs_put bs out out_len false (to_long bs.current)

-- `bs_reserve` and `bs_post_put` of the same bytes, as `execute_cmd` of src/icmpd/subcmd_start.c calls
-- them, with neither result looked at.
unfoldable pub append_bytes : Option Bytes → Stream → Bytes → Run (Stream × Status)
append_bytes block bs out =
    reserve block bs (length out) >>= λ r. post_put r.0 (some out) (length out)
