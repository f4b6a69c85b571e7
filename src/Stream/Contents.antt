-- ===== src/Stream/Contents.antt =====
-- What a stream of src/lib/buffer_stream.c holds: validity under its operations, and growth by
-- `bs_reserve` and `bs_post_put`, the way `execute_cmd` of src/icmpd/subcmd_start.c collects the
-- output of a command.
use inter_container_messagin.Base.{
  ℕ, ◌+◌, ◌^◌, ◌≤◌, ◌<◌, ◌≡◌, ◌≢◌, refl, Bool, true, Option, none, some, arith, length, Run, ok,
  fault, exited, blocked, Bytes, take, drop, ◌++◌, [], ◌∷◌, append-nil, take-append, length-append,
  length-take, length-drop, take-all, drop-all, ◌∙◌,
}
use inter_container_messagin.Base.Word.{ℤ, pos, negsuc, IsLong, to_long}
use inter_container_messagin.ErrorCode.{bs_out_of_range, Status, success, failure}
use inter_container_messagin.Stream.{
  Stream, append_bytes, seek, seek_at, reserve, bs_get, bs_put, post_put,
}
use inter_container_messagin.Stream.Bounds.{
  IsValid, position, got, sought, written, bs_get-got, seek_at-sought, bs_put-written,
}

-- A block that `eee_malloc(n)` may return.
abbrev pub IsBlock : ℕ → Option Bytes → Type 0
IsBlock n none = Unit {0}
IsBlock n (some b) = length b ≡ n

-- The result is no fault, and the stream in it is valid.
abbrev pub Keeps : Run (Stream × Status) → Type 0
Keeps fault = ⊥
Keeps exited = ⊥
Keeps blocked = ⊥
Keeps (ok r) = IsValid r.0

got-IsValid :
    (bs : Stream) (in_len : ℕ) (post : Bool) (at : Option ℕ)
    → IsValid bs
    → IsValid (got bs in_len post at).0
unfolding got
got-IsValid bs in_len post none v = v
got-IsValid bs in_len post (some n) v = ground arith

sought-IsValid : (bs : Stream) (at : Option ℕ) → IsValid bs → IsValid (sought bs at).0
unfolding sought
sought-IsValid bs none v = v
sought-IsValid bs (some n) v = ground arith

length-splice :
    (bs : Stream) (n : ℕ) (out : Bytes)
    → n + length out ≤ length bs.buf
    → length (take n bs.buf ++ (out ++ drop (n + length out) bs.buf)) ≡ length bs.buf
length-splice bs n out h = omega (
  arith,
  length-append (take n bs.buf) (out ++ drop (n + length out) bs.buf),
  length-append out (drop (n + length out) bs.buf),
  length-take n bs.buf,
  length-drop (n + length out) bs.buf,
)

written-IsValid :
    (bs : Stream) (out : Bytes) (post : Bool) (at : Option ℕ)
    → IsValid bs
    → IsValid (written bs out (length out) post at).0
unfolding written
written-IsValid bs out post none v = v
written-IsValid bs out post (some n) v =
    rw (take-all (length out) out (omega arith)) (ground (arith, length-splice bs n out))

-- A seek from the current position stays in front of the end, whatever the sum wraps to.
seek-IsValid : (bs : Stream) (offset : ℤ) → IsValid bs → IsLong offset → IsValid (seek bs offset).0
unfolding seek
seek-IsValid bs (pos n) v l = ground arith
seek-IsValid bs (negsuc n) v l = ground arith

-- Reads and writes of fewer than 2 ^ 63 bytes, the writes of a whole source, and seeks to an offset
-- or by one keep the stream valid, whatever offset they are given, and do not fault.
pub access-IsValid :
    (bs : Stream) (in_len : ℕ) (out : Bytes) (post : Bool) (offset : ℤ)
    → IsValid bs
    → in_len < 2 ^ 63
    → length out < 2 ^ 63
    → IsLong offset
    → IsValid (bs_get bs in_len post offset).0
      × IsValid (seek bs offset).0
      × IsValid (seek_at bs offset).0
      × Keeps (bs_put bs (some out) (length out) post offset)
access-IsValid bs in_len out post offset v hi ho l = (
  rw (bs_get-got bs in_len post offset v hi l) (got-IsValid bs in_len post _ v),
  seek-IsValid bs offset v l,
  rw (seek_at-sought bs offset v l) (sought-IsValid bs _ v),
  rw (bs_put-written bs out (length out) post offset v (omega arith) ho l)
      (written-IsValid bs out post _ v),
)

-- A stream that holds these bytes and stands at their end.
abbrev pub full : Bytes → Stream
full held = record { buf = held; buf_len = length held; current = length held }

reserve_end :
    (held out block : Bytes)
    → out ≢ []
    → length held + length out < 2 ^ 63
    → length block ≡ length held + length out
    → reserve (some block) (full held) (length out)
      ≡ ok (
        record {
          buf = held ++ drop (length held) block;
          buf_len = length held + length out;
          current = length held;
        },
        success,
      )
unfolding reserve seek_at
reserve_end held [] block ne h l = absurd (ne refl)
reserve_end held (x ∷ out) block ne h l = ground (arith, take-all (length held) held)

to_long-pos : (n : ℕ) → n < 2 ^ 63 → to_long n ≡ pos n
to_long-pos n h = ground arith

put_end :
    (held room out : Bytes)
    → length room ≡ length out
    → length held + length out < 2 ^ 63
    → post_put
        (record { buf = held ++ room; buf_len = length held + length out; current = length held })
        (some out)
        (length out)
      ≡ ok (full (held ++ out), success)
put_end held room out h l =
    bs_put-written
      (record { buf = held ++ room; buf_len = length held + length out; current = length held }) out
      (length out) true (to_long (length held))
      (record { sized = omega (arith, length-append held room); within = omega arith; small = l })
      (omega arith) (omega arith) (rw (to_long-pos (length held) (omega arith)) (omega arith))
    ∙ rw (to_long-pos (length held) (omega arith)) (
        unfold written position in
        ground (
          arith,
          take-append (length held) held room,
          take-all (length out) out,
          drop-all (length held + length out) (held ++ room),
          length-append held room,
          length-append held out,
          append-nil out,
        ))

-- Reserving room at the end of a stream and writing there appends the bytes, whatever the new block
-- held, provided that `eee_malloc` returns one of the size asked for.
pub append_bytes-full :
    (held out block : Bytes)
    → out ≢ []
    → length held + length out < 2 ^ 63
    → IsBlock (length held + length out) (some block)
    → append_bytes (some block) (full held) out ≡ ok (full (held ++ out), success)
unfolding append_bytes
append_bytes-full held out block ne h l =
    rw (reserve_end held out block ne h l) (
      put_end held (drop (length held) block) out (omega (arith, length-drop (length held) block))
        h)

-- When `eee_malloc` fails, the write behind the failed reservation is refused: the stream is as it
-- was, and the bytes are dropped.
pub append_bytes-null :
    (held out : Bytes)
    → out ≢ []
    → length held + length out < 2 ^ 63
    → append_bytes none (full held) out ≡ ok (full held, failure bs_out_of_range)
unfolding append_bytes reserve bs_put
append_bytes-null held [] ne h = absurd (ne refl)
append_bytes-null held (x ∷ out) ne h = ground arith
