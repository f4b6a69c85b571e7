-- ===== src/Util/Split.antt =====
-- `ic_util_split_string` of src/lib/util.c: what is split, put together again.
use Prim.Native.Nat.{min}
use inter_container_messagin.Base.{
  ℕ, zero, suc, ◌+◌, ◌*◌, ◌≤◌, ◌≡◌, ◌≢◌, refl, ap, ◌∙◌, Bool, true, false, Option, none, some, List,
  [], ◌∷◌, ◌++◌, Bytes, ◌==◌, length, take, drop, arith, length-append, append_assoc, take-append,
  append-nil, take-all, drop-all,
}
use inter_container_messagin.Util.{
  strstr, piece_length, delim_skip, pieces, split_loop, split_string,
}

-- A byte that does not occur.
abbrev pub Lacks : ℕ → Bytes → Type 0
Lacks d [] = Unit
Lacks d (c ∷ cs) = ((d == c) ≡ false) × Lacks d cs

abbrev pub AllLack : ℕ → List Bytes → Type 0
AllLack d [] = Unit
AllLack d (s ∷ ss) = Lacks d s × AllLack d ss

-- Strings, each behind the delimiter.
abbrev pub behind : Bytes → List Bytes → Bytes
behind delim [] = []
behind delim (s ∷ ss) = delim ++ (s ++ behind delim ss)

-- The last of the strings is not empty.
abbrev pub EndsFull : Bytes → List Bytes → Type 0
EndsFull s [] = s ≢ []
EndsFull s (t ∷ ts) = EndsFull t ts

strstr-none : (d : ℕ) (s : Bytes) → Lacks d s → strstr s (d ∷ []) ≡ none
unfolding strstr
strstr-none d [] h = refl
strstr-none d (c ∷ s) (h, hs) = rw (h, strstr-none d s hs)

strstr-some :
    (d : ℕ) (s rest : Bytes) → Lacks d s → strstr (s ++ (d ∷ rest)) (d ∷ []) ≡ some (length s)
unfolding strstr
strstr-some d [] rest h = ground arith
strstr-some d (c ∷ s) rest (h, hs) = rw (h, strstr-some d s rest hs)

drop_past : (d : ℕ) (s rest : Bytes) → drop (length s + 1) (s ++ (d ∷ rest)) ≡ rest
drop_past d [] rest = refl
drop_past d (c ∷ s) rest =
    let e : suc (length s) + 1 ≡ suc (length s + 1) = omega arith in rw e (drop_past d s rest)

split_end :
    (room : ℕ → Bool) (delim : Bytes) (out : Option (List Bytes)) (fuel : ℕ)
    → split_loop room delim out [] fuel ≡ some out
unfolding split_loop
split_end room delim out fuel = refl

module _ (room : ℕ → Bool) (ample : (n : ℕ) → room n ≡ true) (d : ℕ) where
  -- One round, by where the delimiter is found.
  split_round :
      (out : Option (List Bytes)) (c : ℕ) (cs : Bytes) (fuel : ℕ) {o : Option ℕ}
      → strstr (c ∷ cs) (d ∷ []) ≡ o
      → split_loop room (d ∷ []) out (c ∷ cs) (suc fuel)
        ≡ split_loop room
            (d ∷ [])
            (some (pieces out ++ (take (piece_length (c ∷ cs) o) (c ∷ cs) ∷ [])))
            (drop (piece_length (c ∷ cs) o + delim_skip (d ∷ []) o) (c ∷ cs))
            fuel
  unfolding split_loop
  split_round out c cs fuel {o} h = rw (
    h,
    ample (min (suc (length cs)) (piece_length (c ∷ cs) o + 1) + 1),
    ample (8 * (length (pieces out) + 1)),
  )

  split_front :
      (out : Option (List Bytes)) (s rest : Bytes) (fuel : ℕ)
      → Lacks d s
      → split_loop room (d ∷ []) out (s ++ (d ∷ rest)) (suc fuel)
        ≡ split_loop room (d ∷ []) (some (pieces out ++ (s ∷ []))) rest fuel
  split_front out [] rest fuel l = split_round out d rest fuel (strstr-some d [] rest l)
  split_front out (c ∷ s) rest fuel l =
      split_round out c (s ++ (d ∷ rest)) fuel (strstr-some d (c ∷ s) rest l)
      ∙ rw (take-append (length s) s (d ∷ rest) refl, drop_past d (c ∷ s) rest)

  split_loop-behind :
      (out : Option (List Bytes)) (s : Bytes) (ts : List Bytes) (fuel : ℕ)
      → AllLack d (s ∷ ts)
      → EndsFull s ts
      → length (s ++ behind (d ∷ []) ts) ≤ fuel
      → split_loop room (d ∷ []) out (s ++ behind (d ∷ []) ts) fuel
        ≡ some (some (pieces out ++ (s ∷ ts)))
  split_loop-behind out [] [] fuel l e f = absurd (e refl)
  split_loop-behind out (c ∷ s) [] zero l e f = absurd (omega arith)
  split_loop-behind out (c ∷ s) [] (suc fuel) l e f = rw append-nil (
      split_round out c s fuel (strstr-none d (c ∷ s) l.0)
      ∙ rw
          (take-all (length s) s (omega arith), drop-all (suc (length s) + 0) (c ∷ s) (omega arith))
          (split_end room (d ∷ []) (some (pieces out ++ ((c ∷ s) ∷ []))) fuel))
  split_loop-behind out s (t ∷ ts) zero l e f =
      absurd (omega (arith, length-append s (d ∷ (t ++ behind (d ∷ []) ts))))
  split_loop-behind out s (t ∷ ts) (suc fuel) l e f =
      split_front out s (t ++ behind (d ∷ []) ts) fuel l.0
      ∙ split_loop-behind (some (pieces out ++ (s ∷ []))) t ts fuel l.1 e
          (omega (arith, length-append s (d ∷ (t ++ behind (d ∷ []) ts))))
      ∙ ap (λ x. some (some x)) (append_assoc (pieces out) (s ∷ []) (t ∷ ts))

  -- Strings that do not contain the delimiter, a single byte, and of which the last is not empty, are
  -- what splitting gives back when they are joined by that delimiter, memory sufficing. The fuel, one
  -- round for each byte of the input, is enough.
  pub split_string-behind :
      (s : Bytes) (ts : List Bytes)
      → AllLack d (s ∷ ts)
      → EndsFull s ts
      → split_string room (s ++ behind (d ∷ []) ts) (d ∷ []) ≡ some (some (s ∷ ts))
  unfolding split_string
  split_string-behind s ts l e = split_loop-behind none s ts _ l e (omega arith)
