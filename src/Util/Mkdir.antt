-- ===== src/Util/Mkdir.antt =====
-- `ic_util_mkdir` of src/lib/util.c. The file system is the system's: `mkdir` is the call on a name,
-- which gives its error number if it fails, and `S` is what it works on.
pub mod Ancestors
use inter_container_messagin.Base.{
  ℕ, zero, suc, ◌+◌, Bool, Option, none, some, [], ◌∷◌, ◌++◌, Bytes, Run, ok, fault, ◌==◌,
  if◌then◌else◌, length, drop,
}
use inter_container_messagin.Base.Word.{ℤ, pos, negsuc}

-- `mkdir` and EEXIST
pub record FileSystem (S : Type 0) : Type 0 where
  pub mkdir : Bytes → S → S × Option ℕ
  pub eexist : ℕ

-- The slashes at the front, `strspn(dir, "/")` of them
unfoldable pub slashes : Bytes → Bytes
slashes [] = []
slashes (c ∷ cs) = let more = slashes cs in if c == b'/' then c ∷ more else []

-- The bytes in front of the first slash, `strcspn(dir, "/")` of them
unfoldable pub component : Bytes → Bytes
component [] = []
component (c ∷ cs) = let more = component cs in if c == b'/' then [] else c ∷ more

module _ {S : Type 0} (fs : FileSystem S) where
  -- One `mkdir`, which an existing directory does not fail; an empty name is passed over.
  unfoldable pub make : Bytes → S → S × ℤ
  make [] s = (s, pos 0)
  make (c ∷ cs) s =
      let (s', error) = fs.mkdir (c ∷ cs) s in
      elim error [
        | none ↦ (s', pos 0)
        | some e ↦ if e == fs.eexist then (s', pos 0) else (s', negsuc 0)
      ]

  -- A round on the name of a directory, with the component that follows it; the loop ends behind the
  -- last one.
  unfoldable pub round : (ℕ → Bool) → Bytes → Bytes → (S → Run (S × ℤ)) → S → Run (S × ℤ)
  unfolding make
  round room name part again s =
      if room (length name + 1)
      then (let (s', rc) = make name s in
          elim rc [
            | pos n ↦ elim part [ [] ↦ ok (s', pos 0) | _ ↦ again s' ]
            | negsuc n ↦ ok (s', negsuc 0)
          ])
      else fault

  -- The loop: `front` is what lies in front of `dir_delim`, `rest` what follows it. The end of the
  -- fuel is not reached within one round for each byte, and one more.
  unfoldable pub mkdir_loop : (ℕ → Bool) → ℕ → Bytes → Bytes → S → Run (S × ℤ)
  unfolding round slashes component
  mkdir_loop room zero front rest s = fault
  mkdir_loop room (suc fuel) front rest s =
      let dir = drop (length (slashes rest)) rest in
      round room (front ++ slashes rest) (component dir)
        (mkdir_loop room fuel ((front ++ slashes rest) ++ component dir)
          (drop (length (component dir)) dir))
        s

  unfoldable pub mkdir_path : (ℕ → Bool) → Bytes → S → Run (S × ℤ)
  unfolding mkdir_loop
  mkdir_path room dir s = mkdir_loop room (length dir + 1) [] dir s
