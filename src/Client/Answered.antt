-- ===== src/Client/Answered.antt =====
-- What the daemon of src/icmpd answers to one message, as its client sees it.
use inter_container_messagin.Base.{
  ℕ, ◌-◌, ◌^◌, ◌<◌, ◌≡◌, refl, ap, Option, none, some, List, [], ◌∷◌, ◌++◌, Bytes, Run, ok, ◌>>=◌,
  length, get_elem?, arith, length-append,
}
use inter_container_messagin.Base.Word.{negsuc}
use inter_container_messagin.Message.{rc_ok}
use inter_container_messagin.Transport.{Context, transport_name, transport_send_data}
use inter_container_messagin.Daemon.Acl.{check_command}
use inter_container_messagin.Daemon.Exec.{Server, Surroundings, send_data}
use inter_container_messagin.Daemon.Exec.Reply.{reply_message}
use inter_container_messagin.Daemon.Serve.{handle_payload, handle_message}
use inter_container_messagin.Daemon.Serve.Requests.{handle_message-payload, handle_payload-failed}

get_elem?-end : {A : Type 0} (xs : List A) (x : A) → get_elem? (xs ++ (x ∷ [])) (length xs) ≡ some x
get_elem?-end [] x = refl
get_elem?-end (y ∷ xs) x = get_elem?-end xs x

-- What the daemon answers to a message: the first one that it sends while handling it.
unfoldable pub answered_by : Surroundings → Context → Server → Bytes → Run (Option Bytes)
answered_by w tr s msg = handle_message w tr (some msg) (length msg) s >>= λ (s', rc).
    ok (get_elem? s'.sent (length s.sent))

pub answered :
    (w : Surroundings) (tr : Context) (s : Server) (payload : Bytes) (cc errno : ℕ) (msg : Bytes)
    → length payload < 2 ^ 32 - 16
    → cc < 2
    → transport_send_data w.traffic tr msg ≡ ok rc_ok
    → handle_payload w tr cc payload (length payload) s
      ≡ send_data w tr msg (record s { errno = errno })
    → answered_by w tr s (reply_message cc payload) ≡ ok (some msg)
unfolding answered_by send_data
answered w tr s payload cc errno msg small known sent h =
    rw (handle_message-payload w tr s payload cc small known)
      (rw h (rw sent (ap ok (get_elem?-end s.sent msg))))

get_elem?-behind : {A : Type 0} (xs : List A) → get_elem? xs (length xs) ≡ none
get_elem?-behind [] = refl
get_elem?-behind (x ∷ xs) = get_elem?-behind xs

-- Nothing is sent for a command that the check refuses, denied or not.
pub unanswered :
    (w : Surroundings) (tr : Context) (s : Server) (cmdline : Bytes) (errno n : ℕ)
    → length cmdline < 2 ^ 32 - 17
    → check_command w.host (cmdline ++ (0 ∷ [])) (transport_name tr) s.errno ≡ ok (negsuc n, errno)
    → answered_by w tr s (reply_message 1 (cmdline ++ (0 ∷ []))) ≡ ok none
unfolding answered_by
unanswered w tr s cmdline errno n small checked =
    let long = length-append cmdline (0 ∷ []) in
    rw (handle_message-payload w tr s (cmdline ++ (0 ∷ [])) 1 (omega (arith, long)) (omega arith)) (
      rw
        (handle_payload-failed w tr (cmdline ++ (0 ∷ [])) (length (cmdline ++ (0 ∷ []))) errno n s
          checked)
        (ap ok (get_elem?-behind s.sent)))
