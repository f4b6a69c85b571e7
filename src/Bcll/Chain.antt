-- ===== src/Bcll/Chain.antt =====
-- Chains of links, of which the rings of src/include/bcll.h are made.
use inter_container_messagin.Base.{ℕ, ◌≡◌, ◌≢◌, sym, ◌∙◌, List, [], ◌∷◌, ◌++◌, arith}
use inter_container_messagin.Bcll.{Store, add_behind, bcll_del}

-- The address is not in the list, and no address is in it twice.
abbrev pub Apart : ℕ → List ℕ → Type 0
Apart n [] = Unit
Apart n (x ∷ xs) = (n ≢ x) × Apart n xs

abbrev pub Distinct : List ℕ → Type 0
Distinct [] = Unit
Distinct (x ∷ xs) = Apart x xs × Distinct xs

-- The pointers lead from `a` along the addresses to `b`, and back.
abbrev pub Chain : Store → ℕ → List ℕ → ℕ → Type 0
Chain h a [] b = ((h a).next ≡ b) × ((h b).prev ≡ a)
Chain h a (x ∷ xs) b = ((h a).next ≡ x) × ((h x).prev ≡ a) × Chain h x xs b

-- A list with this head and these entries.
pub record IsRing (h : Store) (head : ℕ) (xs : List ℕ) : Type 0 where
  pub chain : Chain h head xs head
  pub distinct : Distinct (head ∷ xs)

-- The last address of `a ∷ xs`
abbrev last : ℕ → List ℕ → ℕ
last a [] = a
last a (x ∷ xs) = last x xs

-- Two stores that agree on what a chain uses, behind its first address.
frame :
    (h h' : Store) (a : ℕ) (xs : List ℕ) (b : ℕ) (p q : ℕ)
    → ((n : ℕ) → n ≢ p → n ≢ q → (h' n).next ≡ (h n).next)
    → (u v : ℕ) → ((n : ℕ) → n ≢ u → n ≢ v → (h' n).prev ≡ (h n).prev)
    → a ≢ p
    → a ≢ q
    → Apart p xs
    → Apart q xs
    → Apart u xs
    → Apart v xs
    → b ≢ u
    → b ≢ v
    → Chain h a xs b
    → Chain h' a xs b
frame h h' a [] b p q nx u v pv ap' aq xp xq xu xv bu bv (e, f) = (nx a ap' aq ∙ e, pv b bu bv ∙ f)
frame h h' a (x ∷ xs) b p q nx u v pv ap' aq (xp, xps) (xq, xqs) (xu, xus) (xv, xvs) bu bv
      (e, f, g) =
    (
      nx a ap' aq ∙ e,
      pv x (λ r. xu (sym r)) (λ r. xv (sym r)) ∙ f,
      frame h h' x xs b p q nx u v pv (λ r. xp (sym r)) (λ r. xq (sym r)) xps xqs xus xvs bu bv g,
    )

last-Apart : (n y : ℕ) (ys zs : List ℕ) → n ≢ y → Apart n (ys ++ zs) → n ≢ last y ys
last-Apart n y [] zs ne ap' = ne
last-Apart n y (x ∷ xs) zs ne (nx, nxs) = last-Apart n x xs zs nx nxs

-- The address that follows the front part
abbrev first : List ℕ → ℕ → ℕ
first [] b = b
first (z ∷ zs) b = z

next-last :
    (h : Store) (y : ℕ) (ys zs : List ℕ) (b : ℕ)
    → Chain h y (ys ++ zs) b
    → (h (last y ys)).next ≡ first zs b
next-last h y [] [] b (e, f) = e
next-last h y [] (z ∷ zs) b (e, f, g) = e
next-last h y (x ∷ xs) zs b (e, f, g) = next-last h x xs zs b g

first-Apart : (n b : ℕ) (ys zs : List ℕ) → n ≢ b → Apart n (ys ++ zs) → n ≢ first zs b
first-Apart n b [] [] ne ap' = ne
first-Apart n b [] (z ∷ zs) ne (nz, nzs) = nz
first-Apart n b (y ∷ ys) zs ne (ny, nys) = first-Apart n b ys zs ne nys

-- The entry goes in behind the last address of the front part.
pub insert :
    (h : Store) (entry a : ℕ) (ys zs : List ℕ) (b : ℕ)
    → a ≢ entry
    → b ≢ entry
    → Apart entry ys
    → Apart entry zs
    → Distinct (a ∷ (ys ++ zs))
    → Apart b (ys ++ zs)
    → Chain h a (ys ++ zs) b
    → Chain (add_behind h (last a ys) entry) a (ys ++ (entry ∷ zs)) b
unfolding add_behind
insert h entry a [] [] b ae be ey ez d bd (e, f) =
    (ground arith, ground arith, (ground arith, ground arith))
insert h entry a [] (z ∷ zs) b ae be ey (ez, ezs) ((az, azs), (dz, dzs)) (bz, bzs) (e, f, g) = (
  ground arith,
  ground arith,
  (
    ground arith,
    ground arith,
    frame h (add_behind h a entry) z zs b a entry (λ n p q. ground arith) z entry
        (λ n p q. ground arith) (λ r. az (sym r)) (λ r. ez (sym r)) azs ezs dz ezs bz be g,
  ),
)
insert h entry a (y ∷ ys) zs b ae be (ey, eys) ez ((ay, ays), (dy, dys)) (by', bys) (e, f, g) = (
  ground (arith, last-Apart a y ys zs ay ays),
  ground (arith, next-last h y ys zs b g, first-Apart y b ys zs (λ r. by' (sym r)) dy),
  insert h entry y ys zs b (λ r. ey (sym r)) be eys ez (dy, dys) bys g,
)

pub Apart-mid : (n x : ℕ) (ys zs : List ℕ) → Apart n (ys ++ (x ∷ zs)) → n ≢ x
Apart-mid n x [] zs (nx, nzs) = nx
Apart-mid n x (y ∷ ys) zs (ny, nys) = Apart-mid n x ys zs nys

pub Apart-without : (n x : ℕ) (ys zs : List ℕ) → Apart n (ys ++ (x ∷ zs)) → Apart n (ys ++ zs)
Apart-without n x [] zs (nx, nzs) = nzs
Apart-without n x (y ∷ ys) zs (ny, nys) = (ny, Apart-without n x ys zs nys)

last-mid : (y x : ℕ) (ys zs : List ℕ) → Distinct (y ∷ (ys ++ (x ∷ zs))) → last y ys ≢ x
last-mid y x [] zs ((yx, yzs), d) = yx
last-mid y x (z ∷ ys) zs (yz, d) = last-mid z x ys zs d

-- The pointers of an address in a chain
around_mid :
    (h : Store) (y x : ℕ) (ys zs : List ℕ) (b : ℕ)
    → Chain h y (ys ++ (x ∷ zs)) b
    → ((h x).prev ≡ last y ys) × ((h x).next ≡ first zs b)
around_mid h y x [] [] b (e, f, (g, k)) = (f, g)
around_mid h y x [] (z ∷ zs) b (e, f, (g, k, l)) = (f, g)
around_mid h y x (z ∷ ys) zs b (e, f, g) = around_mid h z x ys zs b g

-- The entry behind the front part is taken out.
pub remove :
    (h : Store) (entry a : ℕ) (ys zs : List ℕ) (b : ℕ)
    → a ≢ entry
    → b ≢ entry
    → Distinct (a ∷ (ys ++ (entry ∷ zs)))
    → Apart b (ys ++ (entry ∷ zs))
    → Chain h a (ys ++ (entry ∷ zs)) b
    → Chain (bcll_del h entry) a (ys ++ zs) b
unfolding bcll_del
remove h entry a [] [] b ae be d bd (e, f, (e', f')) = (ground arith, ground arith)
remove h entry a [] (z ∷ zs) b ae be ((ae', (az, azs)), ((ez, ezs), (dz, dzs))) (be', (bz, bzs))
      (e, f, (e', f', g)) =
    (
      ground arith,
      ground arith,
      frame h (bcll_del h entry) z zs b a a (λ n p q. ground arith) z z (λ n p q. ground arith)
          (λ r. az (sym r)) (λ r. az (sym r)) azs azs dz dz bz bz g,
    )
remove h entry a (y ∷ ys) zs b ae be ((ay, ays), (dy, dys)) (by', bys) (e, f, g) = (
  ground (arith, around_mid h y entry ys zs b g, last-Apart a y ys (entry ∷ zs) ay ays),
  ground (
    arith,
    around_mid h y entry ys zs b g,
    last-mid y entry ys zs (dy, dys),
    first-Apart y b ys zs (λ r. by' (sym r)) (Apart-without y entry ys zs dy),
  ),
  remove h entry y ys zs b (Apart-mid y entry ys zs dy) be (dy, dys) bys g,
)

pub prev-end : (h : Store) (a b : ℕ) (xs : List ℕ) → Chain h a xs b → (h b).prev ≡ last a xs
prev-end h a b [] (e, f) = f
prev-end h a b (x ∷ xs) (e, f, g) = prev-end h x b xs g

pub Apart-snoc : (n x : ℕ) (xs : List ℕ) → Apart n xs → n ≢ x → Apart n (xs ++ (x ∷ []))
Apart-snoc n x [] ap' ne = (ne, tt)
Apart-snoc n x (y ∷ ys) (ny, nys) ne = (ny, Apart-snoc n x ys nys ne)

pub Distinct-snoc : (x : ℕ) (xs : List ℕ) → Distinct xs → Apart x xs → Distinct (xs ++ (x ∷ []))
Distinct-snoc x [] d ap' = (tt, tt)
Distinct-snoc x (y ∷ ys) (yy, d) (xy, xys) =
    (Apart-snoc y x ys yy (λ r. xy (sym r)), Distinct-snoc x ys d xys)

pub Distinct-without : (x : ℕ) (ys zs : List ℕ) → Distinct (ys ++ (x ∷ zs)) → Distinct (ys ++ zs)
Distinct-without x [] zs (a, d) = d
Distinct-without x (y ∷ ys) zs (a, d) = (Apart-without y x ys zs a, Distinct-without x ys zs d)
