-- ===== src/Bcll.antt =====
-- The bidirectional circular lists of src/include/bcll.h, in a store that maps the address of a link
-- to its two pointers.
pub mod Chain
pub mod Ring
use inter_container_messagin.Base.{ℕ, ◌==◌, if◌then◌else◌}

pub record Link : Type 0 where
  pub next : ℕ
  pub prev : ℕ

abbrev pub Store : Type 0
Store = ℕ → Link

-- `at->next = to` and `at->prev = to`
unfoldable pub set_next : Store → ℕ → ℕ → Store
set_next h at to n = if n == at then record { next = to; prev = (h n).prev } else h n

unfoldable pub set_prev : Store → ℕ → ℕ → Store
set_prev h at to n = if n == at then record { next = (h n).next; prev = to } else h n

-- `bcll_init`
unfoldable pub bcll_init : Store → ℕ → Store
unfolding set_next set_prev
bcll_init h head = set_next (set_prev h head head) head head

-- `__bcll_add`: the four assignments in their order
unfoldable pub add_behind : Store → ℕ → ℕ → Store
unfolding set_next set_prev
add_behind h head entry =
    let next = (h head).next in
    set_prev (set_next (set_next (set_prev h next entry) entry next) head entry) entry head

unfoldable pub bcll_add : Store → ℕ → ℕ → Store
unfolding add_behind
bcll_add h head entry = add_behind h head entry

unfoldable pub bcll_add_tail : Store → ℕ → ℕ → Store
unfolding add_behind
bcll_add_tail h head entry = add_behind h (h head).prev entry

unfoldable pub bcll_del : Store → ℕ → Store
unfolding set_next set_prev
bcll_del h entry =
    let h1 = set_next h (h entry).prev (h entry).next in set_prev h1 (h1 entry).next (h1 entry).prev

unfoldable pub bcll_del_init : Store → ℕ → Store
unfolding bcll_del bcll_init
bcll_del_init h entry = bcll_init (bcll_del h entry) entry
