-- ===== src/Client/Exchange.antt =====
-- What one exchange of the client in src/icmpc prints.
use inter_container_messagin.Base.{
  ℕ, ◌+◌, ◌-◌, ◌^◌, ◌<◌, ◌≡◌, ◌≢◌, refl, ap, ◌∙◌, true, some, [], ◌∷◌, ◌++◌, Bytes, ok, blocked,
  length, arith, length-append,
}
use inter_container_messagin.Message.{marshalled, marshal, rc_ok}
use inter_container_messagin.Message.Receive.{unmarshal}
use inter_container_messagin.Message.Marshal.{marshal_lem}
use inter_container_messagin.Message.RoundTrip.{received}
use inter_container_messagin.Nanomsg.{fresh, buffer}
use inter_container_messagin.Transport.{
  Context, Transports, transport_create_slave, transport_destroy, transport_send_data,
  transport_receive_data,
}
use inter_container_messagin.Daemon.Words.{c_text}
use inter_container_messagin.Daemon.Exec.Reply.{reply_message}
use inter_container_messagin.Client.{
  Client, Network, note_client, print_result, client_send, exchange,
}

-- Bytes without a NUL.
abbrev pub IsText : Bytes → Type 0
IsText [] = Unit
IsText (c ∷ cs) = (c ≢ 0) × IsText cs

pub c_text-IsText : (text rest : Bytes) → IsText text → c_text (text ++ (0 ∷ rest)) ≡ ok text
unfolding c_text
c_text-IsText [] rest t = refl
c_text-IsText (c ∷ cs) rest (ne, t) = ground (arith, c_text-IsText cs rest t)

module _ {S : Type 0} (net : Network S) (cc : ℕ) (tail name input block : Bytes) (known : cc < 2)
    (memory : net.block ≡ some block) (sized : length block ≡ length input + 17)
    (small : length input < 2 ^ 61) where
  abbrev pub request : Bytes
  request = reply_message cc (input ++ (0 ∷ []))

  request_made :
      marshal net.block (some (input ++ (0 ∷ []))) (length input + 1) cc true true
      ≡ ok (marshalled (some request) (some (16 + length (input ++ (0 ∷ [])))))
  request_made =
      let long = length-append input (0 ∷ []) in
      let ne : (input ++ (0 ∷ [])) ≢ [] = λ e. absurd (omega (arith, long, ap length e)) in
      rw memory (
        rw (← long) (
          marshal_lem (input ++ (0 ∷ [])) block cc true true ne (omega (arith, long))
            (omega (arith, long)) known refl))

  printed :
      (text : Bytes) (c : Client S)
      → IsText text
      → length text < 2 ^ 32 - 17
      → unmarshal note_client
          (some (print_result tail))
          (some (reply_message cc (text ++ (0 ∷ []))))
          (length (reply_message cc (text ++ (0 ∷ []))))
          cc
          c
        ≡ ok (record c { stdout = c.stdout ++ (text ++ tail) }, rc_ok)
  unfolding print_result
  printed text c t short =
      let long = length-append text (0 ∷ []) in
      received note_client (λ s. refl) (print_result tail) (text ++ (0 ∷ [])) cc
        (omega (arith, long)) known cc c
      ∙ ground (arith, c_text-IsText text [] t)

  -- A transport that is created takes the request, an answer for the same command whose payload is a
  -- text and a NUL comes back over it once the request is sent, and it can be destroyed: then the
  -- client prints the text, with what its format adds, and returns 0.
  pub exchange-prints :
      (text : Bytes) (c : Client S) (tr : Context) (ts ts' : Transports S)
      → transport_create_slave net.system net.list (some name) c.transports ≡ ok (some tr, ts)
      → transport_send_data (net.traffic c.sent) tr request ≡ ok rc_ok
      → transport_receive_data (net.traffic (c.sent ++ (request ∷ []))) tr fresh (some 0)
        ≡ ok (record {
          rc = rc_ok;
          message = buffer (reply_message cc (text ++ (0 ∷ [])));
          len = some (length (reply_message cc (text ++ (0 ∷ []))));
        })
      → transport_destroy tr ts ≡ ok ts'
      → IsText text
      → length text < 2 ^ 32 - 17
      → exchange net cc tail (some name) input c
        ≡ ok (
          record c {
            stdout = c.stdout ++ (text ++ tail);
            transports = ts';
            sent = c.sent ++ (request ∷ []);
          },
          rc_ok,
        )
  unfolding exchange client_send print_result
  exchange-prints text c tr ts ts' created sent answered destroyed t short =
      let long = length-append text (0 ∷ []) in
      let handled =
        printed text (record c { transports = ts; sent = c.sent ++ (request ∷ []) }) t short in
      rw request_made (rw created (rw sent (rw answered (rw handled (rw destroyed refl)))))

  -- When nothing comes in over it behind the request, the client does not return.
  pub exchange-blocked :
      (c : Client S) (tr : Context) (ts : Transports S)
      → transport_create_slave net.system net.list (some name) c.transports ≡ ok (some tr, ts)
      → transport_send_data (net.traffic c.sent) tr request ≡ ok rc_ok
      → transport_receive_data (net.traffic (c.sent ++ (request ∷ []))) tr fresh (some 0) ≡ blocked
      → exchange net cc tail (some name) input c ≡ blocked
  unfolding exchange client_send
  exchange-blocked c tr ts created sent waits =
      rw request_made (rw created (rw sent (rw waits refl)))
