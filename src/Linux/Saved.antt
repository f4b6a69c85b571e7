-- ===== src/Linux/Saved.antt =====
-- What is saved and loaded by the helpers of src/lib/linux.c.
use inter_container_messagin.Base.{
  take-all, ℕ, ◌%◌, ◌^◌, ◌<◌, ◌≤◌, ◌≡◌, ◌≢◌, refl, ◌∙◌, Bool, true, Option, none, some, [], Bytes,
  ◌+◌, ◌-◌, Run, not, leb, fault, ok, ◌==◌, if◌then◌else◌, length, take, arith, length-take,
}
use inter_container_messagin.Base.Word.{ℤ, pos}
use inter_container_messagin.Message.{rc_ok, rc_error}
use inter_container_messagin.Linux.{Stdio, Files, load_file, save_output_file, read_phys_mem}

-- The C library on ordinary files: one item that was written is the contents of a new file once that
-- is closed without an error, and a file is measured and read by its contents. An item of no bytes is
-- never written.
pub record IsStdio {S : Type 0} (io : Stdio S) (contents : Bytes → S → Option Bytes) : Type 0 where
  pub written :
      (path buf : Bytes) (old disk : S)
      → io.create path old ≡ some disk
      → (io.write path buf disk).1 ≡ 1
      → (io.close path (io.write path buf disk).0).1 ≡ true
      → contents path (io.close path (io.write path buf disk).0).0 ≡ some buf
  pub no_bytes : (path : Bytes) (disk : S) → (io.write path [] disk).1 ≡ 0
  pub opens : (path b : Bytes) (disk : S) → contents path disk ≡ some b → io.opens path disk ≡ true
  pub seeks :
      (path b : Bytes) (disk : S) → contents path disk ≡ some b → io.seek_end path disk ≡ true
  pub tells :
      (path b : Bytes) (disk : S)
      → contents path disk ≡ some b
      → io.file_end path disk ≡ pos (length b)
  pub reads :
      (path b : Bytes) (n : ℕ) (disk : S)
      → contents path disk ≡ some b
      → n ≢ 0
      → n ≤ length b
      → io.read_item path n disk ≡ some (take n b)

mod_le : (n : ℕ) → n % 2 ^ 32 ≤ n
mod_le n = omega arith

module _ {S : Type 0} (io : Stdio S) (contents : Bytes → S → Option Bytes)
    (ordinary : IsStdio io contents) where
  -- A file is loaded up to its length modulo 2 ^ 32, if there is memory for it; when this is 0, the
  -- load fails as it does for an empty file. No file stays open.
  pub load_file-contents :
      (room : ℕ → Bool) (path b : Bytes) (p : Files S)
      → contents path p.disk ≡ some b
      → ((n : ℕ) → room n ≡ true)
      → load_file io room path p ≡ (
        p,
        if length b % 2 ^ 32 == 0
            then (none, rc_error)
            else (some (take (length b % 2 ^ 32) b, length b % 2 ^ 32), rc_ok),
      )
  unfolding load_file
  load_file-contents room path b p e ample =
      let small = mod_le (length b) in
      ground (
        arith,
        ordinary.opens path b p.disk e,
        ordinary.seeks path b p.disk e,
        ordinary.tells path b p.disk e,
        ample (length b % 2 ^ 32),
        ordinary.reads path b (length b % 2 ^ 32) p.disk e,
        small,
      )

  module _ (path buf : Bytes) (size : ℕ) (p p' : Files S) (fits : size ≤ length buf) where
    -- What `save_output_file` does behind `fopen`.
    abbrev saved_to : Option S → Run (Files S × ℤ)
    saved_to none = ok (p, rc_error)
    saved_to (some disk) =
        if not (leb size (length buf))
        then fault
        else if (io.write path (take size buf) disk).1 == 1
        then ok (
          record p {
            disk = (io.close path (io.write path (take size buf) disk).0).0;
            handles = p.handles + 1 - 1;
          },
          rc_ok,
        )
        else ok (
          record p {
            disk = (io.close path (io.write path (take size buf) disk).0).0;
            handles = p.handles + 1 - 1;
          },
          rc_error,
        )

    saved_contents :
        (created : Option S)
        → ((disk : S) → (io.close path disk).1 ≡ true)
        → io.create path p.disk ≡ created
        → saved_to created ≡ ok (p', rc_ok)
        → (contents path p'.disk ≡ some (take size buf)) × (size ≢ 0)
    saved_contents none flushed e h = absurd (ground arith)
    saved_contents (some disk) flushed e h = ground (
      arith,
      ordinary.written path (take size buf) p.disk disk e,
      flushed (io.write path (take size buf) disk).0,
      ordinary.no_bytes path disk,
    )

    -- What is saved with result 0 is loaded again, provided that `fclose` succeeds, whose result the
    -- code ignores: the bytes up to the size that was given, which must be below 2 ^ 32, when there is
    -- memory for them. No file stays open.
    pub save-load :
        (room : ℕ → Bool)
        → save_output_file io path buf size p ≡ ok (p', rc_ok)
        → ((disk : S) → (io.close path disk).1 ≡ true)
        → size < 2 ^ 32
        → ((n : ℕ) → room n ≡ true)
        → load_file io room path p' ≡ (p', (some (take size buf, size), rc_ok))
    unfolding save_output_file
    save-load room saved flushed small ample =
        let (there, ne) = saved_contents (io.create path p.disk) flushed refl saved in
        load_file-contents room path (take size buf) p' there ample
        ∙ ground (
          arith,
          length-take size buf,
          take-all (length (take size buf)) (take size buf) (omega arith),
        )

-- The offset makes no difference to what is read.
pub read_phys_mem-offset :
    {S : Type 0} (io : Stdio S) (malloc : ℕ → Option Bytes) (path : Option Bytes) (out : Bool)
    (size offset other : ℕ) (p : Files S)
    → read_phys_mem io malloc path out size offset p ≡ read_phys_mem io malloc path out size other p
unfolding read_phys_mem
read_phys_mem-offset io malloc none out size offset other p = refl
read_phys_mem-offset io malloc (some path) out size offset other p = refl
