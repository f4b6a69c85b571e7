-- ===== src/Transport/Reach.antt =====
-- The list of transports in src/lib/transport.c through any sequence of calls that create and destroy
-- transports.
use inter_container_messagin.Base.{
  ℕ, ◌≡◌, refl, ap, sym, ◌∙◌, Bool, Option, none, some, List, [], ◌∷◌, ◌++◌, Bytes, ok, Holds-ok,
}
use mathlib.Core.Path.{subst}
use inter_container_messagin.Transport.{
  System, Context, Transports, transport_create, transport_destroy,
}
use inter_container_messagin.Transport.Listed.{
  IsListed, IsListedFirst, IsNew, transport_create-IsListedFirst, transport_destroy-IsListed,
}

-- A process: the transports that its callers hold, the last created first, and the state behind them
pub record Process (S : Type 0) : Type 0 where
  pub live : List Context
  pub state : Transports S

abbrev pub links_of : List Context → List ℕ
links_of [] = []
links_of (ctx ∷ ctxs) = ctx.link ∷ links_of ctxs

-- One call that returns. A creation that fails leaves nothing to hold, and any transport that is held
-- may be destroyed; the memory of a new context is not in use.
pub data Step {S : Type 0} (list : ℕ) (p : Process S) : Process S → Type 0 where
  create :
      (sys : System S) (name : Option Bytes) (master : Bool) {ctx : Context} {ts : Transports S}
      → IsNew list (links_of p.live) sys.context
      → transport_create sys list name master p.state ≡ ok (some ctx, ts)
      → Step list p (record { live = ctx ∷ p.live; state = ts })
  create_fails :
      (sys : System S) (name : Option Bytes) (master : Bool) {ts : Transports S}
      → IsNew list (links_of p.live) sys.context
      → transport_create sys list name master p.state ≡ ok (none, ts)
      → Step list p (record p { state = ts })
  destroy :
      (front : List Context) (ctx : Context) (behind : List Context) {ts : Transports S}
      → p.live ≡ front ++ (ctx ∷ behind)
      → transport_destroy ctx p.state ≡ ok ts
      → Step list p (record { live = front ++ behind; state = ts })

pub data Reach {S : Type 0} (list : ℕ) (p : Process S) : Process S → Type 0 where
  start : Reach list p p
  later : {q r : Process S} → Reach list p q → Step list q r → Reach list p r

-- The list holds the transports that are held, and no other.
abbrev pub IsKept : {S : Type 0} → ℕ → Process S → Type 0
IsKept list p = IsListed list (links_of p.live) p.state

links_of-append :
    (front behind : List Context) → links_of (front ++ behind) ≡ links_of front ++ links_of behind
links_of-append [] behind = refl
links_of-append (ctx ∷ front) behind = ap (λ xs. ctx.link ∷ xs) (links_of-append front behind)

Step-IsKept :
    {S : Type 0} {list : ℕ} {p q : Process S} → Step list p q → IsKept list p → IsKept list q
Step-IsKept {list} {p} (create sys name master {ctx} {ts} new e) kept =
    Holds-ok (IsListedFirst list (links_of p.live)) (transport_create sys list name master p.state)
      (some ctx, ts) e
      (transport_create-IsListedFirst sys list (links_of p.live) name master p.state kept new)
Step-IsKept {list} {p} (create_fails sys name master {ts} new e) kept =
    Holds-ok (IsListedFirst list (links_of p.live)) (transport_create sys list name master p.state)
      (none, ts) e
      (transport_create-IsListedFirst sys list (links_of p.live) name master p.state kept new)
Step-IsKept {list} {p} (destroy front ctx behind {ts} held e) kept =
    subst (λ xs. IsListed list xs ts) (sym (links_of-append front behind))
      (Holds-ok (IsListed list (links_of front ++ links_of behind)) (transport_destroy ctx p.state)
        ts e
        (transport_destroy-IsListed list ctx (links_of front) (links_of behind) p.state (
          subst (λ xs. IsListed list xs p.state)
            (ap links_of held ∙ links_of-append front (ctx ∷ behind)) kept)))

-- After any sequence of calls that create and destroy transports, the list holds exactly those that
-- were created and not destroyed, the last first and each once, if it did so in the beginning.
pub Reach-IsKept :
    {S : Type 0} {list : ℕ} {p q : Process S} → IsKept list p → Reach list p q → IsKept list q
Reach-IsKept kept start = kept
Reach-IsKept kept (later r st) = Step-IsKept st (Reach-IsKept kept r)
