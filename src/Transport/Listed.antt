-- ===== src/Transport/Listed.antt =====
-- The list of transports in src/lib/transport.c: those that were created and not destroyed.
use inter_container_messagin.Base.{
  ℕ, ◌≢◌, Bool, Option, none, some, List, ◌∷◌, ◌++◌, Bytes, ok, if◌then◌else◌, inl, inr, Bool-cases,
  Holds, Holds-behind,
}
use inter_container_messagin.Bcll.Ring.{bcll_add-IsRing, bcll_del-IsRing}
use inter_container_messagin.Bcll.Chain.{IsRing, Apart}
use inter_container_messagin.Transport.{
  System, Context, Transports, channel_directory, open_channel, transport_create, transport_destroy,
  local, channel, master_transport_ops, slave_transport_ops,
}

-- The list holds these links; a transport that was created is its first.
abbrev pub IsListed : {S : Type 0} → ℕ → List ℕ → Transports S → Type 0
IsListed list xs ts = IsRing ts.links list xs

abbrev pub IsListedFirst : {S : Type 0} → ℕ → List ℕ → Option Context × Transports S → Type 0
IsListedFirst list xs (none, ts) = IsListed list xs ts
IsListedFirst list xs (some ctx, ts) = IsListed list (ctx.link ∷ xs) ts

-- A new context does not lie where the list or another one is.
abbrev pub IsNew : ℕ → List ℕ → Option ℕ → Type 0
IsNew list xs none = Unit
IsNew list xs (some link) = (list ≢ link) × Apart link xs

module _ {S : Type 0} (sys : System S) (list : ℕ) (xs : List ℕ) where
  open_channel-IsListedFirst :
      (name : Bytes) (master : Bool) (ts : Transports S) (context : Option ℕ)
      → IsListed list xs ts
      → IsNew list xs context
      → Holds (IsListedFirst list xs) (elim context [
        | none ↦ ok (none, ts)
        | some link ↦ open_channel sys list name master ts link
      ])
  unfolding open_channel
  open_channel-IsListedFirst name master ts none l new = l
  open_channel-IsListedFirst name master ts (some link) l (ne, out) =
      let ops =
        if master then master_transport_ops sys.library else slave_transport_ops sys.library in
      Holds-behind _ (ops.create (if master then 100 else 0)) _ (λ sock.
        Holds-behind _ (ops.add_endpoint sock (channel name)) _
          (λ ep. (bcll_add-IsRing ts.links list link xs l ne out).0))

  -- Whatever fails in the creation of a transport, if it returns, a NULL result leaves the list as
  -- it was, and a transport that is returned is the first of the list, in front of the others. The
  -- memory of a new context is that of no other and not that of the list.
  pub transport_create-IsListedFirst :
      (name : Option Bytes) (master : Bool) (ts : Transports S)
      → IsListed list xs ts
      → IsNew list xs sys.context
      → Holds (IsListedFirst list xs) (transport_create sys list name master ts)
  unfolding transport_create
  transport_create-IsListedFirst none master ts l new = l
  transport_create-IsListedFirst (some name) master ts l new =
      Holds-behind _ (channel_directory sys name ts.disk) _ (λ (disk, there).
        elim (Bool-cases there) [
          | inr e ↦ rw e l
          | inl e ↦ rw e (
              Holds-behind _ (channel_directory sys local disk) _ (λ (disk', there').
                elim (Bool-cases there') [
                  | inr e' ↦ rw e' l
                  | inl e' ↦ rw e' (
                      open_channel-IsListedFirst name master (record ts { disk = disk' })
                        sys.context l new)
                ]))
        ])

-- A transport that is destroyed leaves the list, and the others stay in their order.
pub transport_destroy-IsListed :
    {S : Type 0} (list : ℕ) (ctx : Context) (front behind : List ℕ) (ts : Transports S)
    → IsListed list (front ++ (ctx.link ∷ behind)) ts
    → Holds (IsListed list (front ++ behind)) (transport_destroy ctx ts)
unfolding transport_destroy
transport_destroy-IsListed list ctx front behind ts l =
    Holds-behind _ (ctx.ops.delete_endpoint ctx.sock ctx.endpoint) _ (λ u.
      Holds-behind _ (ctx.ops.destroy ctx.sock) _
        (λ u'. bcll_del-IsRing ts.links list ctx.link front behind l))
