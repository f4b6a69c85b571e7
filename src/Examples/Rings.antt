-- ===== src/Examples/Rings.antt =====
-- Lists of links (src/include/bcll.h) at concrete addresses.
use inter_container_messagin.Base.{[], ◌∷◌, arith}
use inter_container_messagin.Bcll.{Store, bcll_init, bcll_add}
use inter_container_messagin.Bcll.Ring.{bcll_init-IsRing, bcll_add-IsRing}
use inter_container_messagin.Bcll.Chain.{IsRing}

abbrev blank : Store
blank n = record { next = 0; prev = 0 }

-- The head 1 with the entry 2
abbrev pub one_entry : Store
one_entry = bcll_add (bcll_init blank 1) 1 2

pub one_entry-IsRing : IsRing one_entry 1 (2 ∷ [])
one_entry-IsRing =
    (bcll_add-IsRing (bcll_init blank 1) 1 2 [] (bcll_init-IsRing blank 1)
      (λ e. absurd (omega (arith, e))) tt).0
