-- ===== src/Container.antt =====
-- The configuration as the programs read it: `ic_conf_file_query` of src/lib/conf_file.c over the
-- string tree, and `ic_container_name` of src/lib/ic.c. The host is an argument: what an allocation
-- of a number of bytes does, and what `gethostname` does with a buffer of a number of bytes.
use inter_container_messagin.Base.{
  ℕ, zero, suc, ◌+◌, ◌*◌, Bool, Option, none, some, [], ◌∷◌, Bytes, Run, ok, ◌>>=◌, if◌then◌else◌,
  length, take, drop,
}
use inter_container_messagin.StringTree.{Node, same_prefix, query}

-- `gethostname`: success with the name, ENAMETOOLONG, or another error.
pub data HostName : Type 0 where
  fits : Bytes → HostName
  too_long : HostName
  no_name : HostName

pub record Host : Type 0 where
  pub room : ℕ → Bool
  pub hostname : ℕ → HostName
  pub tree : Node

-- The query string is cut where `vsnprintf` into `query[PATH_MAX]` ends, with PATH_MAX 4096.
unfoldable pub conf_file_query : Host → Bytes → Run (Option Bytes)
conf_file_query host text = query host.room host.tree (take 4094 text)

-- "container-dom"
abbrev pub container_dom : Bytes
container_dom =
    b'c' ∷ b'o' ∷ b'n' ∷ b't' ∷ b'a' ∷ b'i' ∷ b'n' ∷ b'e' ∷ b'r' ∷ b'-' ∷ b'd' ∷ b'o' ∷ b'm' ∷ []

-- ".container_name"
abbrev pub container_name_path : Bytes
container_name_path =
    b'.' ∷ b'c' ∷ b'o' ∷ b'n' ∷ b't' ∷ b'a' ∷ b'i' ∷ b'n' ∷ b'e' ∷ b'r' ∷ b'_' ∷ b'n' ∷ b'a' ∷ b'm'
    ∷ b'e' ∷ []

-- Eight bytes are compared and five are taken off. The overlapping `strcpy` is read as a copy from
-- the front to the back.
unfoldable pub strip_prefix : Bytes → Bytes
strip_prefix name = if same_prefix container_dom name 8 then drop 5 name else name

-- The loop of `ic_container_name` that doubles its buffer. After 60 rounds from 16 bytes `name_sz`
-- wraps to 0, for which `realloc` returns NULL: so the fuel 60 is never short.
unfoldable pub uts_name : (ℕ → Bool) → (ℕ → HostName) → ℕ → ℕ → Option Bytes
unfolding strip_prefix
uts_name room hostname name_sz zero = none
uts_name room hostname name_sz (suc fuel) =
    let longer = uts_name room hostname (name_sz * 2) fuel in
    if room name_sz
    then elim (hostname name_sz) [
      | fits name ↦ some (strip_prefix name)
      | too_long ↦ longer
      | no_name ↦ none
    ]
    else none

-- `strdup`
abbrev pub strdup : (ℕ → Bool) → Bytes → Option Bytes
strdup room s = if room (length s + 1) then some s else none

unfoldable pub container_name : Host → Run (Option Bytes)
unfolding uts_name
container_name host = conf_file_query host container_name_path >>= λ configured. elim configured [
  | some name ↦ ok (strdup host.room name)
  | none ↦ ok (uts_name host.room host.hostname 16 60)
]
