-- ===== src/Examples/Streams.antt =====
-- The stream (src/lib/buffer_stream.c) and the error codes at concrete inputs.
use inter_container_messagin.Base.{◌≡◌, refl, true, some, none, [], ◌∷◌, ok, arith}
use inter_container_messagin.Base.Word.{pos, negsuc}
use inter_container_messagin.ErrorCode.{success, failure, bs_out_of_range}
use inter_container_messagin.Stream.{Stream, bs_get, bs_put, seek, seek_at, append_bytes}
use inter_container_messagin.Stream.Bounds.{
  IsValid, position, got, written, bs_get-got, bs_put-written,
}
use inter_container_messagin.Stream.Contents.{Keeps, full, access-IsValid, append_bytes-null}

-- Four bytes, with the position behind the first.
abbrev four : Stream
four = record { buf = 1 ∷ 2 ∷ 3 ∷ 4 ∷ []; buf_len = 4; current = 1 }

four-IsValid : IsValid four
four-IsValid = record { sized = refl; within = omega arith; small = omega arith }

-- A write of two bytes from the second to last position.
put_run :
    bs_put four (some (8 ∷ 9 ∷ [])) 2 true (negsuc 1)
    ≡ ok (record { buf = 1 ∷ 2 ∷ 8 ∷ 9 ∷ []; buf_len = 4; current = 4 }, success)
unfolding bs_put
put_run = refl

bs_get-got_example : bs_get four 2 true (negsuc 2) ≡ got four 2 true (position 4 (negsuc 2))
bs_get-got_example = bs_get-got four 2 true (negsuc 2) four-IsValid (omega arith) (omega arith)

bs_put-written_example :
    bs_put four (some (8 ∷ 9 ∷ [])) 2 true (pos 1)
    ≡ ok (written four (8 ∷ 9 ∷ []) 2 true (position 4 (pos 1)))
bs_put-written_example =
    bs_put-written four (8 ∷ 9 ∷ []) 2 true (pos 1) four-IsValid (omega arith) (omega arith)
      (omega arith)

access-IsValid_example :
    IsValid (bs_get four 2 true (pos 1)).0
    × IsValid (seek four (pos 1)).0
    × IsValid (seek_at four (pos 1)).0
    × Keeps (bs_put four (some (8 ∷ [])) 1 true (pos 1))
access-IsValid_example =
    access-IsValid four 2 (8 ∷ []) true (pos 1) four-IsValid (omega arith) (omega arith)
      (omega arith)

append_bytes-null_example :
    append_bytes none (full (1 ∷ [])) (5 ∷ 6 ∷ []) ≡ ok (full (1 ∷ []), failure bs_out_of_range)
append_bytes-null_example = append_bytes-null (1 ∷ []) (5 ∷ 6 ∷ []) (λ e. cc) (omega arith)
