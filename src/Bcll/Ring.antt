-- ===== src/Bcll/Ring.antt =====
-- Rings of links (src/include/bcll.h): adding and removing an entry is adding and removing it in the
-- list of addresses.
use inter_container_messagin.Base.{ℕ, ◌≢◌, List, [], ◌∷◌, ◌++◌, arith, append-nil}
use inter_container_messagin.Bcll.{Store, bcll_init, bcll_add, bcll_add_tail, bcll_del}
use inter_container_messagin.Bcll.Chain.{
  Apart, Apart-mid, Apart-snoc, Apart-without, Distinct-snoc, Distinct-without, IsRing, insert,
  prev-end, remove,
}

-- `bcll_init` makes a ring without entries, whatever the pointers were.
pub bcll_init-IsRing : (h : Store) (head : ℕ) → IsRing (bcll_init h head) head []
unfolding bcll_init
bcll_init-IsRing h head = record { chain = (ground arith, ground arith); distinct = (tt, tt) }

module _ (h : Store) (head : ℕ) where
  -- A new entry that is added to a ring is its first one, and one added at the tail its last one;
  -- the others stay in their order.
  pub bcll_add-IsRing :
      (entry : ℕ) (xs : List ℕ)
      → IsRing h head xs
      → head ≢ entry
      → Apart entry xs
      → IsRing (bcll_add h head entry) head (entry ∷ xs)
        × IsRing (bcll_add_tail h head entry) head (xs ++ (entry ∷ []))
  unfolding bcll_add bcll_add_tail
  bcll_add-IsRing entry xs ring ne out =
      let (hx, dx) = ring.distinct in
      (
        record {
          chain = insert h entry head [] xs head ne ne tt out (hx, dx) hx ring.chain;
          distinct = ((ne, hx), (out, dx));
        },
        record {
          chain = rw (prev-end h head head xs ring.chain) (
              insert h entry head xs [] head ne ne out tt (rw (append-nil xs) (hx, dx))
                (rw (append-nil xs) hx) (rw (append-nil xs) ring.chain));
          distinct = (Apart-snoc head entry xs hx ne, Distinct-snoc entry xs dx out);
        },
      )

  -- An entry that is removed from a ring is no longer in it; the others stay in their order.
  pub bcll_del-IsRing :
      (entry : ℕ) (ys zs : List ℕ)
      → IsRing h head (ys ++ (entry ∷ zs))
      → IsRing (bcll_del h entry) head (ys ++ zs)
  bcll_del-IsRing entry ys zs ring =
      let (hx, dx) = ring.distinct in
      record {
        chain =
            remove h entry head ys zs head (Apart-mid head entry ys zs hx)
              (Apart-mid head entry ys zs hx) (hx, dx) hx ring.chain;
        distinct = (Apart-without head entry ys zs hx, Distinct-without entry ys zs dx);
      }
