-- ===== src/Util.antt =====
-- src/lib/util.c: `ic_util_split_string`. `room n` says whether an allocation of `n` bytes succeeds;
-- the result is `none` for NULL, and the count stored in `*nr` is the length of the list. The loop
-- runs on fuel, and an outer `none` means that the fuel ran out.
pub mod Split
pub mod Mkdir
use Prim.Native.Nat.{min}
use inter_container_messagin.Base.{
  ℕ, zero, suc, ◌+◌, ◌*◌, Bool, true, false, ◌&&◌, Option, none, some, List, [], ◌∷◌, ◌++◌, Bytes,
  ◌==◌, if◌then◌else◌, length, take, drop,
}

-- The first bytes of a string are those of another.
unfoldable pub is_prefix : Bytes → Bytes → Bool
is_prefix [] s = true
is_prefix (d ∷ ds) [] = false
is_prefix (d ∷ ds) (c ∷ cs) = d == c && is_prefix ds cs

-- `strstr`, as an offset
unfoldable pub strstr : Bytes → Bytes → Option ℕ
unfolding is_prefix
strstr [] delim = if is_prefix delim [] then some 0 else none
strstr (c ∷ cs) delim =
    let later : Option ℕ = elim (strstr cs delim) [ none ↦ none | some p ↦ some (suc p) ] in
    if is_prefix delim (c ∷ cs) then some 0 else later

-- `len`, and the bytes that `in` moves on by beyond it
abbrev pub piece_length : Bytes → Option ℕ → ℕ
piece_length input none = length input
piece_length input (some p) = p

abbrev pub delim_skip : Bytes → Option ℕ → ℕ
delim_skip delim none = 0
delim_skip delim (some p) = length delim

abbrev pub pieces : Option (List Bytes) → List Bytes
pieces none = []
pieces (some ps) = ps

unfoldable pub split_loop :
    (ℕ → Bool) → Bytes → Option (List Bytes) → Bytes → ℕ → Option (Option (List Bytes))
split_loop room delim out [] fuel = some out
split_loop room delim out (c ∷ cs) zero = none
split_loop room delim out (c ∷ cs) (suc fuel) =
    let input : Bytes = c ∷ cs in
    let p = strstr input delim in
    let len = piece_length input p in
    let rest =
      split_loop room delim (some (pieces out ++ (take len input ∷ [])))
        (drop (len + delim_skip delim p) input) fuel in
    if room (min (length input) (len + 1) + 1) && room (8 * (length (pieces out) + 1))
    then rest
    else some none

-- `ic_util_split_string`; each round takes a byte off the input, if the delimiter is not empty.
unfoldable pub split_string : (ℕ → Bool) → Bytes → Bytes → Option (Option (List Bytes))
unfolding split_loop
split_string room input delim = split_loop room delim none input (length input)
