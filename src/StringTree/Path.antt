-- ===== src/StringTree/Path.antt =====
-- Dotted paths, and how src/lib/string_tree.c takes a name off their front.
use inter_container_messagin.Base.{
  suc, ◌≡◌, refl, ap, false, ◌&&◌, List, [], ◌∷◌, ◌++◌, Bytes, arith, ◌==◌, length, drop, bytes_eq,
  drop-append,
}
use inter_container_messagin.StringTree.{same_prefix, segment_length, matches}

abbrev pub NoDot : Bytes → Type 0
NoDot [] = Unit
NoDot (c ∷ cs) = ((c == b'.') ≡ false) × NoDot cs

abbrev pub NoDots : List Bytes → Type 0
NoDots [] = Unit
NoDots (s ∷ ss) = NoDot s × NoDots ss

-- What follows a name on a path: nothing, or the other names, each behind a dot.
abbrev pub dotted : List Bytes → Bytes
dotted [] = []
dotted (s ∷ ss) = b'.' ∷ (s ++ dotted ss)

-- The path that begins with a name.
abbrev pub path_of : Bytes → List Bytes → Bytes
path_of s ss = s ++ dotted ss

pub segment_length-path_of :
    (s : Bytes) (ss : List Bytes) → NoDot s → segment_length (path_of s ss) ≡ length s
unfolding segment_length
segment_length-path_of [] [] h = refl
segment_length-path_of [] (t ∷ ts) h = refl
segment_length-path_of (c ∷ s) ss (h, hs) = rw h (ap suc (segment_length-path_of s ss hs))

same_prefix-eq :
    (s t rest : Bytes)
    → (same_prefix s (t ++ rest) (length t) && length s == length t) ≡ bytes_eq s t
unfolding same_prefix bytes_eq
same_prefix-eq [] [] rest = refl
same_prefix-eq [] (y ∷ t) rest = ground arith
same_prefix-eq (x ∷ s) [] rest = ground arith
same_prefix-eq (x ∷ s) (y ∷ t) rest = ground (arith, same_prefix-eq s t rest)

-- A node's string is compared with the first name of the path as a whole.
pub matches-path_of :
    (s t : Bytes) (ss : List Bytes) → NoDot t → matches s (path_of t ss) ≡ bytes_eq s t
unfolding matches
matches-path_of s t ss h = rw (segment_length-path_of t ss h) (same_prefix-eq s t (dotted ss))

pub drop-path_of :
    (s : Bytes) (ss : List Bytes)
    → NoDot s
    → drop (segment_length (path_of s ss)) (path_of s ss) ≡ dotted ss
drop-path_of s ss h = drop-append _ s (dotted ss) (segment_length-path_of s ss h)
