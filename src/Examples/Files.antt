-- ===== src/Examples/Files.antt =====
-- The file helpers of src/lib/linux.c on a file system of one file.
use inter_container_messagin.Base.{
  ◌≡◌, refl, true, Option, none, some, [], ◌∷◌, Bytes, leb, if◌then◌else◌, length, take, arith,
}
use inter_container_messagin.Base.Word.{pos}
use inter_container_messagin.Message.{rc_ok}
use inter_container_messagin.Linux.{Stdio, Files, load_file, save_output_file}
use inter_container_messagin.Linux.Saved.{IsStdio, save-load}
use inter_container_messagin.Examples.Text.{codes}

-- The file holds its bytes under every name.
abbrev stdio : Stdio Bytes
stdio = record {
  create = λ path disk. some [];
  write = λ path buf disk. elim buf [ [] ↦ (disk, 0) | b ∷ bs ↦ (b ∷ bs, 1) ];
  close = λ path disk. (disk, true);
  opens = λ path disk. true;
  seek_end = λ path disk. true;
  file_end = λ path disk. pos (length disk);
  read_item = λ path n disk. if leb n (length disk) then some (take n disk) else none;
  open_fd = λ path disk. true;
  read_fd = λ path n disk. some (take n disk);
}

abbrev contents : Bytes → Bytes → Option Bytes
contents path disk = some disk

stdio-IsStdio : IsStdio stdio contents
stdio-IsStdio = record {
  written = λ path buf old disk e one closes. by_items buf disk one;
  no_bytes = λ path disk. refl;
  opens = λ path b disk e. refl;
  seeks = λ path b disk e. refl;
  tells = λ path b disk e. ground arith;
  reads = λ path b n disk e ne fits. ground arith;
}
  where
    by_items :
        (buf disk : Bytes)
        → (stdio.write [] buf disk).1 ≡ 1
        → contents [] (stdio.write [] buf disk).0 ≡ some buf
    by_items [] disk one = absurd (omega (arith, one))
    by_items (b ∷ bs) disk one = refl

abbrev nothing : Files Bytes
nothing = record { disk = []; handles = 0 }

save-load_example :
    load_file stdio (λ n. true) (codes "f") (record { disk = codes "ab"; handles = 0 })
    ≡ (record { disk = codes "ab"; handles = 0 }, (some (codes "ab", 2), rc_ok))
unfolding save_output_file
save-load_example =
    save-load stdio contents stdio-IsStdio (codes "f") (codes "abc") 2 nothing
      (record { disk = codes "ab"; handles = 0 }) (omega arith) (λ n. true) refl (λ disk. refl)
      (omega arith) (λ n. refl)
