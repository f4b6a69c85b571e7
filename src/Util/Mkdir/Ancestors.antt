-- ===== src/Util/Mkdir/Ancestors.antt =====
-- The directories that `ic_util_mkdir` of src/lib/util.c makes: all on the way to the one asked for.
use inter_container_messagin.Base.{
  ℕ, zero, suc, ◌+◌, ◌≤◌, ◌<◌, ◌≡◌, ◌≢◌, refl, ap, ◌∙◌, Bool, true, false, List, [], ◌∷◌, ◌++◌,
  Bytes, Run, ok, ◌==◌, length, drop, arith, append-nil, append_assoc, length-append, drop-append,
}
use inter_container_messagin.Base.Word.{ℤ, pos, negsuc}
use inter_container_messagin.Util.Mkdir.{
  FileSystem, slashes, component, make, round, mkdir_loop, mkdir_path,
}

-- Names without a slash
abbrev pub NoSlash : Bytes → Type 0
NoSlash [] = Unit
NoSlash (c ∷ cs) = ((c == b'/') ≡ false) × NoSlash cs

abbrev pub AreNames : List Bytes → Type 0
AreNames [] = Unit
AreNames (n ∷ ns) = (n ≢ []) × NoSlash n × AreNames ns

-- An absolute path through names
abbrev pub absolute : List Bytes → Bytes
absolute [] = []
absolute (n ∷ ns) = b'/' ∷ (n ++ absolute ns)

-- The directories on the way, each with a slash at its end but for the last
abbrev pub on_the_way : Bytes → List Bytes → List Bytes
on_the_way front [] = front ∷ []
on_the_way front (n ∷ ns) = (front ++ (b'/' ∷ [])) ∷ on_the_way (front ++ (b'/' ∷ n)) ns

-- `make` on one after the other, up to the first failure
unfoldable pub make_all : {S : Type 0} → FileSystem S → List Bytes → S → S × ℤ
make_all fs [] s = (s, pos 0)
make_all fs (n ∷ ns) s =
    let (s', rc) = make fs n s in
    let rest = make_all fs ns s' in elim rc [ pos k ↦ rest | negsuc k ↦ (s', negsuc 0) ]

slashes-front :
    (n : Bytes) (ns : List Bytes)
    → n ≢ []
    → NoSlash n
    → slashes (b'/' ∷ (n ++ absolute ns)) ≡ b'/' ∷ []
unfolding slashes
slashes-front [] ns ne h = absurd (ne refl)
slashes-front (c ∷ cs) ns ne (h, hs) = rw h

component-front : (n : Bytes) (ns : List Bytes) → NoSlash n → component (n ++ absolute ns) ≡ n
unfolding component
component-front [] [] h = refl
component-front [] (m ∷ ms) h = refl
component-front (c ∷ cs) ns (h, hs) = rw (h, component-front cs ns hs)

module _ {S : Type 0} (fs : FileSystem S) (room : ℕ → Bool) (ample : (n : ℕ) → room n ≡ true) where
  loop-cut :
      (fuel : ℕ) (front rest run dir part left : Bytes) (s : S)
      → slashes rest ≡ run
      → drop (length run) rest ≡ dir
      → component dir ≡ part
      → drop (length part) dir ≡ left
      → mkdir_loop fs room (suc fuel) front rest s
        ≡ round fs room
            (front ++ run)
            part
            (mkdir_loop fs room fuel ((front ++ run) ++ part) left)
            s
  unfolding mkdir_loop
  loop-cut fuel front rest run dir part left s er ed ep el =
      ap
        (λ r.
          let d = drop (length r) rest in
          cut (front ++ r) (component d) (drop (length (component d)) d))
        er
      ∙ ap (λ d. cut (front ++ run) (component d) (drop (length (component d)) d)) ed
      ∙ ap (λ p. cut (front ++ run) p (drop (length p) dir)) ep
      ∙ ap (λ l. cut (front ++ run) part l) el
    where
      cut : Bytes → Bytes → Bytes → Run (S × ℤ)
      cut name p l = round fs room name p (mkdir_loop fs room fuel (name ++ p) l) s

  -- A round that is the last one, and one that is not
  round-last :
      (name : Bytes) (again : S → Run (S × ℤ)) (s : S)
      → round fs room name [] again s ≡ ok (make_all fs (name ∷ []) s)
  unfolding round make_all
  round-last name again s = rw (ample (length name + 1)) (ends (make fs name s))
    where
      ends :
          (r : S × ℤ)
          → ◌≡◌ {A = Run (S × ℤ)}
              (elim r.1 [ pos n ↦ ok (r.0, pos 0) | negsuc n ↦ ok (r.0, negsuc 0) ])
              (ok (elim r.1 [ pos k ↦ (r.0, pos 0) | negsuc k ↦ (r.0, negsuc 0) ]))
      ends (s', pos n) = refl
      ends (s', negsuc n) = refl

  round-next :
      (name part : Bytes) (again : S → Run (S × ℤ)) (more : List Bytes) (s : S)
      → part ≢ []
      → ((s' : S) → again s' ≡ ok (make_all fs more s'))
      → round fs room name part again s ≡ ok (make_all fs (name ∷ more) s)
  unfolding round make_all
  round-next name [] again more s ne h = absurd (ne refl)
  round-next name (c ∷ cs) again more s ne h = rw (ample (length name + 1)) (goes (make fs name s))
    where
      goes :
          (r : S × ℤ)
          → elim r.1 [ pos n ↦ again r.0 | negsuc n ↦ ok (r.0, negsuc 0) ]
            ≡ ok (elim r.1 [ pos k ↦ make_all fs more r.0 | negsuc k ↦ (r.0, negsuc 0) ])
      goes (s', pos n) = h s'
      goes (s', negsuc n) = refl

  loop-make_all :
      (fuel : ℕ) (front : Bytes) (ns : List Bytes) (s : S)
      → length ns < fuel
      → AreNames ns
      → mkdir_loop fs room fuel front (absolute ns) s ≡ ok (make_all fs (on_the_way front ns) s)
  loop-make_all zero front ns s h an = absurd (omega arith)
  loop-make_all (suc fuel) front [] s h an =
      loop-cut fuel front [] [] [] [] [] s (unfold slashes in refl) refl (unfold component in refl)
        refl
      ∙ round-last (front ++ []) _ s
      ∙ ap (λ n. ok (make_all fs (n ∷ []) s)) (append-nil front)
  loop-make_all (suc fuel) front (n ∷ ns) s h (ne, sl, an) =
      loop-cut fuel front (absolute (n ∷ ns)) (b'/' ∷ []) (n ++ absolute ns) n (absolute ns) s
        (slashes-front n ns ne sl) refl (component-front n ns sl)
        (drop-append _ n (absolute ns) refl)
      ∙ round-next (front ++ (b'/' ∷ [])) n _ (on_the_way (front ++ (b'/' ∷ n)) ns) s ne (λ s'.
        ap (λ f. mkdir_loop fs room fuel f (absolute ns) s') (append_assoc front (b'/' ∷ []) n)
        ∙ loop-make_all fuel (front ++ (b'/' ∷ n)) ns s' (omega arith) an)

  length-absolute : (ns : List Bytes) → length ns ≤ length (absolute ns)
  length-absolute [] = omega arith
  length-absolute (n ∷ ns) = omega (arith, length-absolute ns, length-append n (absolute ns))

  -- On an absolute path `ic_util_mkdir` makes the root, each directory on the way and the last one, in
  -- this order, and returns 0; directories that exist are passed over, and any other error ends it
  -- with -1 before it makes more. Memory must suffice.
  pub mkdir_path-make_all :
      (ns : List Bytes) (s : S)
      → AreNames ns
      → mkdir_path fs room (absolute ns) s ≡ ok (make_all fs (on_the_way [] ns) s)
  unfolding mkdir_path
  mkdir_path-make_all ns s an =
      loop-make_all (length (absolute ns) + 1) [] ns s (omega (arith, length-absolute ns)) an
