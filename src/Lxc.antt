-- ===== src/Lxc.antt =====
-- The defined containers, `ic_lxc_list_defined_containers` of src/lib/lxc.c. The directory is an
-- input: the names that `readdir` gives, in order, and whether a path exists.
pub mod Names
pub mod Defined
use inter_container_messagin.Base.{
  ℕ, ◌+◌, ◌*◌, ◌%◌, ◌^◌, Bool, true, false, ◌||◌, Option, none, some, List, [], ◌∷◌, ◌++◌, Bytes,
  Run, ok, ◌>>=◌, leb, if◌then◌else◌, length, bytes_eq,
}
use inter_container_messagin.ErrorCode.{success, failure}
use inter_container_messagin.Vector.{Slot, desc, Vector, align_up, slot_size, increase_obj}
use inter_container_messagin.Vector.Lifetime.{vector_create, vector_destroy}

-- A directory that can be opened, or not; `block` says whether the vector itself can be allocated.
pub record Directory : Type 0 where
  pub entries : Option (List Bytes)
  pub exists : Bytes → Bool
  pub block : Bool

-- "/", "/config", "." and ".."
abbrev pub slash : Bytes
slash = b'/' ∷ []

abbrev pub slash_config : Bytes
slash_config = b'/' ∷ b'c' ∷ b'o' ∷ b'n' ∷ b'f' ∷ b'i' ∷ b'g' ∷ []

abbrev pub dot : Bytes
dot = b'.' ∷ []

abbrev pub dot_dot : Bytes
dot_dot = b'.' ∷ b'.' ∷ []

-- IC_DEFAULT_LXC_PATH, "/var/lib/lxc"
abbrev pub default_lxc_path : Bytes
default_lxc_path =
    b'/' ∷ b'v' ∷ b'a' ∷ b'r' ∷ b'/' ∷ b'l' ∷ b'i' ∷ b'b' ∷ b'/' ∷ b'l' ∷ b'x' ∷ b'c' ∷ []

-- `config_file_exists`; the -1 for a path that does not fit is `true` as a `bool`.
unfoldable pub config_file_exists : Directory → Bytes → Bytes → Bool
config_file_exists dir lxcpath conf_name =
    let path = lxcpath ++ (slash ++ (conf_name ++ slash_config)) in
    let path_len = length lxcpath + 1 + length conf_name + 7 + 1 in
    if leb path_len (length path) then true else dir.exists path

-- The length of a descriptor; one that was never set is written as 0.
abbrev desc_len : Slot → ℕ
desc_len (desc buf len) = len
desc_len _ = 0

-- The constructor and the destructor of a slot. `strndup` copies the name with its NUL; when it
-- fails, the buffer is NULL and the length stays.
unfoldable pub set_name : (ℕ → Bool) → Slot → Option Bytes → Slot
set_name room slot none = slot
set_name room slot (some name) =
    if room (length name + 1)
    then desc (some (name ++ (0 ∷ []))) (length name + 1)
    else desc none (desc_len slot)

abbrev pub unset_name : Slot → Slot
unset_name slot = desc none 0

-- The entries that the loop adds: not "." and "..", and with a configuration file
unfoldable pub is_defined : Directory → Bytes → Bytes → Bool
unfolding config_file_exists
is_defined dir lxcpath name =
    if bytes_eq name dot_dot || bytes_eq name dot
    then false
    else config_file_exists dir lxcpath name

module _ (room : ℕ → Bool) (dir : Directory) (lxcpath : Bytes) where
  -- The loop over the entries; `none` is the way out behind a failure, with the vector destroyed.
  unfoldable pub list_loop : List Bytes → Vector Bytes → Run (Option (Vector Bytes))
  unfolding is_defined
  list_loop [] v = ok (some v)
  list_loop (name ∷ names) v =
      let grow = room (align_up ((v.nr_vector + 1) * slot_size v.obj_size % 2 ^ 32)) in
      let added = increase_obj v grow (λ k. none) (some name) >>= λ (v', status). elim status [
        | success ↦ list_loop names v'
        | failure e ↦ vector_destroy v' grow (λ k. none) >>= λ slots. ok none
      ] in
      let skipped = list_loop names v in if is_defined dir lxcpath name then added else skipped

-- `ic_lxc_list_defined_containers`; a NULL path is `none`.
unfoldable pub list_defined_containers :
    (ℕ → Bool) → Directory → Option Bytes → Run (Option (Vector Bytes))
unfolding list_loop set_name
list_defined_containers room dir none = ok none
list_defined_containers room dir (some lxcpath) =
    vector_create dir.block true (λ k. none) 0 0 (some (set_name room)) (some unset_name) none false
      false
    >>= λ (created, status). elim created [
      | none ↦ ok none
      | some v ↦ elim dir.entries [
        | none ↦ vector_destroy v true (λ k. none) >>= λ slots. ok none
        | some names ↦ list_loop room dir lxcpath names v
      ]
    ]
