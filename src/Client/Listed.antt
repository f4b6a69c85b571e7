-- ===== src/Client/Listed.antt =====
-- The list of transports behind an exchange of the client in src/icmpc: what it opens it closes.
use inter_container_messagin.Base.{
  ℕ, zero, suc, List, ◌+◌, true, false, Option, none, some, [], ◌∷◌, ◌++◌, Bytes, Run, ok, fault,
  ◌>>=◌, Holds, Holds->>=, Holds-behind, length,
}
use inter_container_messagin.Base.Word.{ℤ, pos, negsuc}
use inter_container_messagin.Message.{Marshalled, refused, marshalled, marshal, rc_error, rc_ok}
use inter_container_messagin.Message.Receive.{unmarshal}
use inter_container_messagin.Message.Preserves.{unmarshal-Holds}
use inter_container_messagin.Nanomsg.{fresh}
use inter_container_messagin.Transport.{
  Context, Traffic, Transports, transport_create_slave, transport_destroy, transport_send_data,
  transport_receive_data, message_of, len_of,
}
use inter_container_messagin.Transport.Listed.{
  IsListed, IsListedFirst, IsNew, transport_create-IsListedFirst, transport_destroy-IsListed,
}
use inter_container_messagin.Daemon.Words.{c_text}
use inter_container_messagin.Client.{
  Client, Network, note_client, print_result, client_send, exchange, send_request, receive_result,
  disconnect,
}

-- The transports behind a call are these.
abbrev pub HasListed : {S : Type 0} → ℕ → List ℕ → Client S × ℤ → Type 0
HasListed list xs r = IsListed list xs r.0.transports

module _ {S : Type 0} (list : ℕ) where
  print_result-HasListed :
      (tail : Bytes) (xs : List ℕ) (cc : ℕ) (payload : Bytes) (len : ℕ) (c : Client S)
      → IsListed list xs c.transports
      → Holds (HasListed list xs) (print_result tail cc payload len c)
  unfolding print_result
  print_result-HasListed tail xs cc payload len c h = Holds-behind _ (c_text payload) _ (λ text. h)

module _ {S : Type 0} (list : ℕ) (xs : List ℕ) where
  disconnect-HasListed :
      (tr : Context) (r : Client S × ℤ)
      → HasListed list (tr.link ∷ xs) r
      → Holds (HasListed list xs) (disconnect tr r)
  unfolding disconnect
  disconnect-HasListed tr (c, rc) h =
      Holds->>= _ _ (transport_destroy tr c.transports) _
        (transport_destroy-IsListed list tr [] xs c.transports h) (λ ts l. l)

  -- What becomes of an answer.
  by_answer :
      (cc : ℕ) (tail : Bytes) (tr : Context) (c : Client S) (m : Option Bytes) (n : ℕ) (rc : ℤ)
      → IsListed list (tr.link ∷ xs) c.transports
      → Holds (HasListed list xs) (elim rc [
        | pos zero ↦ unmarshal note_client (some (print_result tail)) m n cc c >>= disconnect tr
        | failure ↦ disconnect tr (c, failure)
      ])
  unfolding unmarshal
  by_answer cc tail tr c none n (pos zero) h = disconnect-HasListed tr (c, rc_error) h
  by_answer cc tail tr c (some msg) n (pos zero) h =
      Holds->>= (HasListed list (tr.link ∷ xs)) _ _ _
        (unmarshal-Holds note_client (λ (c' : Client S). IsListed list (tr.link ∷ xs) c'.transports)
          (λ (c' : Client S). IsListed list (tr.link ∷ xs) c'.transports) (λ c' e. e)
          (λ status c' e. e) (print_result tail)
          (λ cc' payload len c' e.
            print_result-HasListed list tail (tr.link ∷ xs) cc' payload len c' e)
          msg n cc c h)
        (λ r e. disconnect-HasListed tr r e)
  by_answer cc tail tr c m n (pos (suc k)) h = disconnect-HasListed tr (c, pos (suc k)) h
  by_answer cc tail tr c m n (negsuc k) h = disconnect-HasListed tr (c, negsuc k) h

  receive_result-HasListed :
      (traffic : Traffic) (cc : ℕ) (tail : Bytes) (tr : Context) (c : Client S)
      → IsListed list (tr.link ∷ xs) c.transports
      → Holds (HasListed list xs) (receive_result traffic cc tail tr c)
  unfolding receive_result
  receive_result-HasListed traffic cc tail tr c h =
      Holds-behind _ (transport_receive_data traffic tr fresh (some 0)) _
        (λ r. by_answer cc tail tr c (message_of r) (len_of r) r.rc h)

  by_sending :
      (net : Network S) (cc : ℕ) (tail : Bytes) (tr : Context) (r : Client S × ℤ)
      → HasListed list (tr.link ∷ xs) r
      → Holds (HasListed list xs) (elim r.1 [
        | pos zero ↦ receive_result (net.traffic r.0.sent) cc tail tr r.0
        | failure ↦ disconnect tr (r.0, failure)
      ])
  by_sending net cc tail tr (c, pos zero) h =
      receive_result-HasListed (net.traffic c.sent) cc tail tr c h
  by_sending net cc tail tr (c, pos (suc k)) h = disconnect-HasListed tr (c, pos (suc k)) h
  by_sending net cc tail tr (c, negsuc k) h = disconnect-HasListed tr (c, negsuc k) h

  by_sent :
      (c : Client S) (msg : Bytes) (rc : ℤ)
      → IsListed list xs c.transports
      → Holds (HasListed list xs) (elim rc as (λ x. Run (Client S × ℤ)) [
        | pos zero ↦ ok (record c { sent = c.sent ++ (msg ∷ []) }, rc_ok)
        | other ↦ ok (c, other)
      ])
  by_sent c msg (pos zero) h = h
  by_sent c msg (pos (suc k)) h = h
  by_sent c msg (negsuc k) h = h

client_send-HasListed :
    {S : Type 0} (list : ℕ) (xs : List ℕ) (net : Network S) (tr : Context) (msg : Bytes)
    (c : Client S)
    → IsListed list xs c.transports
    → Holds (HasListed list xs) (client_send net tr msg c)
unfolding client_send
client_send-HasListed list xs net tr msg c h =
    Holds-behind _ (transport_send_data (net.traffic c.sent) tr msg) _
      (λ rc. by_sent list xs c msg rc h)

module _ {S : Type 0} (net : Network S) (xs : List ℕ)
    (new : IsNew net.list xs net.system.context) where
  by_created :
      (cc : ℕ) (tail msg : Bytes) (c : Client S) (r : Option Context × Transports S)
      → IsListedFirst net.list xs r
      → Holds (HasListed net.list xs) (
          let c' = record c { transports = r.1 } in
          elim r.0 [
            | none ↦ ok (c', rc_error)
            | some tr ↦ client_send net tr msg c' >>= λ (c'', rc). elim rc [
              | pos zero ↦ receive_result (net.traffic c''.sent) cc tail tr c''
              | failure ↦ disconnect tr (c'', failure)
            ]
          ])
  by_created cc tail msg c (none, ts) l = l
  by_created cc tail msg c (some tr, ts) l =
      Holds->>= (HasListed net.list (tr.link ∷ xs)) _
        (client_send net tr msg (record c { transports = ts })) _
        (client_send-HasListed net.list (tr.link ∷ xs) net tr msg (record c { transports = ts }) l)
        (λ r h. by_sending net.list xs net cc tail tr r h)

  send_request-HasListed :
      (cc : ℕ) (tail : Bytes) (name : Option Bytes) (msg : Bytes) (c : Client S)
      → IsListed net.list xs c.transports
      → Holds (HasListed net.list xs) (send_request net cc tail name msg c)
  unfolding send_request
  send_request-HasListed cc tail name msg c l =
      Holds->>= (IsListedFirst net.list xs) _
        (transport_create_slave net.system net.list name c.transports) _
        (transport_create-IsListedFirst net.system net.list xs name false c.transports l new)
        (λ r first. by_created cc tail msg c r first)

  -- Whatever fails in an exchange and whatever is received, if it returns, the list holds the
  -- transports that it held before, in their order: the one that the exchange created is destroyed
  -- again. The memory of its context is that of no other and not that of the list.
  pub exchange-HasListed :
      (cc : ℕ) (tail : Bytes) (name : Option Bytes) (input : Bytes) (c : Client S)
      → IsListed net.list xs c.transports
      → Holds (HasListed net.list xs) (exchange net cc tail name input c)
  unfolding exchange
  exchange-HasListed cc tail name input c l =
      Holds-behind _ (marshal net.block (some (input ++ (0 ∷ []))) (length input + 1) cc true true)
        _ (λ m. sent m)
    where
      sent :
          (m : Marshalled)
          → Holds (HasListed net.list xs) (elim m [
            | marshalled (some msg) (some len) ↦ send_request net cc tail name msg c
            | marshalled _ _ ↦ fault
            | refused ↦ ok (c, rc_error)
          ])
      sent refused = l
      sent (marshalled none len) = tt
      sent (marshalled (some msg) none) = tt
      sent (marshalled (some msg) (some len)) = send_request-HasListed cc tail name msg c l
