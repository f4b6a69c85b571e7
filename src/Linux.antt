-- ===== src/Linux.antt =====
-- The helpers of src/lib/linux.c for files. What the C library does with a file of some name is a
-- parameter, and the number of open files is kept.
pub mod Saved
use inter_container_messagin.Base.{
  ℕ, ◌+◌, ◌-◌, ◌^◌, Bool, not, ◌||◌, Option, none, some, Bytes, Run, ok, fault, leb, ◌==◌,
  if◌then◌else◌, length, take,
}
use inter_container_messagin.Base.Word.{ℤ, to_uint}
use inter_container_messagin.Message.{rc_ok, rc_error}

-- `fopen` for writing and for reading, `fwrite` of one item to a new file (the items written)
-- and `fclose` of it, which may fail and lose what was written,
-- `fseek` to the end, `ftell` there, and `fread` of one item from the start; `open` and `read` of a
-- number of bytes.
pub record Stdio (S : Type 0) : Type 0 where
  pub create : Bytes → S → Option S
  pub write : Bytes → Bytes → S → S × ℕ
  pub close : Bytes → S → S × Bool
  pub opens : Bytes → S → Bool
  pub seek_end : Bytes → S → Bool
  pub file_end : Bytes → S → ℤ
  pub read_item : Bytes → ℕ → S → Option Bytes
  pub open_fd : Bytes → S → Bool
  pub read_fd : Bytes → ℕ → S → Option Bytes

-- The files, and how many are open in this process
pub record Files (S : Type 0) : Type 0 where
  pub disk : S
  pub handles : ℕ

module _ {S : Type 0} (io : Stdio S) where
  abbrev pub opened : Files S → Files S
  opened p = record p { handles = p.handles + 1 }

  abbrev pub closed : Files S → Files S
  closed p = record p { handles = p.handles - 1 }

  -- `load_file` between `fopen` and `fclose`: what is left in `*out` and `*out_len`, and the result.
  -- The `unsigned int` takes what `ftell` returns, an error included.
  load_opened : (ℕ → Bool) → Bytes → S → Option (Bytes × ℕ) × ℤ
  load_opened room file_path disk =
      let size = to_uint (io.file_end file_path disk) in
      if not (io.seek_end file_path disk)
      then (none, rc_error)
      else if size == 0
      then (none, rc_error)
      else if not (room size)
      then (none, rc_error)
      else elim (io.read_item file_path size disk) [
        | none ↦ (none, rc_error)
        | some buf ↦ (some (buf, size), rc_ok)
      ]

  unfoldable pub load_file : (ℕ → Bool) → Bytes → Files S → Files S × (Option (Bytes × ℕ) × ℤ)
  unfolding load_opened
  load_file room file_path p =
      if io.opens file_path p.disk
      then (closed (opened p), load_opened room file_path p.disk)
      else (p, (none, rc_error))

  unfoldable pub save_output_file : Bytes → Bytes → ℕ → Files S → Run (Files S × ℤ)
  save_output_file file_path buf size p = elim (io.create file_path p.disk) [
    | none ↦ ok (p, rc_error)
    | some disk ↦
        let (disk', items) = io.write file_path (take size buf) disk in
        let p' : Files S = record (closed (opened p)) { disk = (io.close file_path disk').0 } in
        if not (leb size (length buf))
        then fault
        else if items == 1
        then ok (p', rc_ok)
        else ok (p', rc_error)
  ]

  -- The result of `read` is compared as `unsigned long`, and -1 is the largest.
  abbrev read_result : Option Bytes → ℕ
  read_result none = 2 ^ 64 - 1
  read_result (some bytes) = length bytes

  -- What the block of `malloc` holds after the read
  abbrev read_block : Option Bytes → Bytes → Bytes
  read_block none block = block
  read_block (some bytes) block = bytes

  -- `read_phys_mem`, with the block that `malloc` gives; `out` says whether the pointer is given. The
  -- offset is only logged, since the call of `lseek64` is left out by the preprocessor.
  unfoldable pub read_phys_mem :
      (ℕ → Option Bytes) → Option Bytes → Bool → ℕ → ℕ → Files S → Files S × (Option Bytes × ℤ)
  read_phys_mem malloc none out size offset p = (p, (none, rc_error))
  read_phys_mem malloc (some file_path) out size offset p =
      if not out || (size == 0)
      then (p, (none, rc_error))
      else if not (io.open_fd file_path p.disk)
      then (p, (none, rc_error))
      else elim (malloc size) [
        | none ↦ (closed (opened p), (none, rc_error))
        | some block ↦
            let got = io.read_fd file_path size p.disk in
            if read_result got == size
            then (closed (opened p), (some (read_block got block), rc_ok))
            else (closed (opened p), (none, rc_error))
      ]
