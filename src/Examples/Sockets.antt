-- ===== src/Examples/Sockets.antt =====
-- The wrappers of src/lib/nanomsg.c at concrete inputs; EINTR is 4, and 11 another error.
use inter_container_messagin.Base.{◌≡◌, [], ◌∷◌, ok, arith}
use inter_container_messagin.Message.{rc_ok, rc_error}
use inter_container_messagin.Nanomsg.{gave, failed, send_data}
use inter_container_messagin.Nanomsg.Retry.{send_data-retries}

send_data-retries_example :
    (send_data 4 20 0 (failed 4 ∷ failed 4 ∷ gave 20 ∷ []) ≡ ok rc_ok)
    × (send_data 4 20 0 (failed 4 ∷ failed 4 ∷ failed 11 ∷ []) ≡ ok rc_error)
send_data-retries_example =
    send_data-retries 4 2 20 0 11 [] (omega arith) (λ e. absurd (omega (arith, e)))
      (λ e. absurd (omega (arith, e)))
