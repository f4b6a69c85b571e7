-- ===== src/Daemon/Acl.antt =====
-- The access checks of src/icmpd/subcmd_start.c: `check_limited_commands`, `check_command_acl` and
-- `check_command`. Each takes `ic_errno` and returns it with its return value. Log messages are left
-- out; memory that is freed does not matter to the results.
pub mod Granted
pub mod Limits
pub mod Command
pub mod Loaded
use inter_container_messagin.Base.{
  ℕ, zero, ◌+◌, Bool, true, false, none, some, List, [], ◌∷◌, ◌++◌, Bytes, Run, ok, fault, ◌>>=◌,
  if◌then◌else◌, length, bytes_eq,
}
use inter_container_messagin.Base.Word.{ℤ, pos, negsuc}
use inter_container_messagin.ErrorCode.{ic_errno_command_denied, ic_set_errno}
use inter_container_messagin.StringTree.{same_prefix}
use inter_container_messagin.Util.{split_string}
use inter_container_messagin.Container.{Host, conf_file_query, container_name, strdup}
use inter_container_messagin.Daemon.Words.{c_word}

-- "container-essential"
abbrev pub container_essential : Bytes
container_essential =
    b'c' ∷ b'o' ∷ b'n' ∷ b't' ∷ b'a' ∷ b'i' ∷ b'n' ∷ b'e' ∷ b'r' ∷ b'-' ∷ b'e' ∷ b's' ∷ b's' ∷ b'e'
    ∷ b'n' ∷ b't' ∷ b'i' ∷ b'a' ∷ b'l' ∷ []

-- "host"
abbrev pub host_name : Bytes
host_name = b'h' ∷ b'o' ∷ b's' ∷ b't' ∷ []

-- ".commands"
abbrev pub dot_commands : Bytes
dot_commands = b'.' ∷ b'c' ∷ b'o' ∷ b'm' ∷ b'm' ∷ b'a' ∷ b'n' ∷ b'd' ∷ b's' ∷ []

-- ".host.commands"
abbrev pub host_commands_path : Bytes
host_commands_path =
    b'.' ∷ b'h' ∷ b'o' ∷ b's' ∷ b't' ∷ b'.' ∷ b'c' ∷ b'o' ∷ b'm' ∷ b'm' ∷ b'a' ∷ b'n' ∷ b'd' ∷ b's'
    ∷ []

-- ".commands."
abbrev pub commands_dot : Bytes
commands_dot = b'.' ∷ b'c' ∷ b'o' ∷ b'm' ∷ b'm' ∷ b'a' ∷ b'n' ∷ b'd' ∷ b's' ∷ b'.' ∷ []

-- ".acl"
abbrev pub dot_acl : Bytes
dot_acl = b'.' ∷ b'a' ∷ b'c' ∷ b'l' ∷ []

-- ":"
abbrev pub colon : Bytes
colon = b':' ∷ []

-- "*"
abbrev pub star : Bytes
star = b'*' ∷ []

-- A return value and `ic_errno`
abbrev pub Checked : Type 0
Checked = ℤ × ℕ

-- The return value 0 or -1 behind a loop over a list of names: "denied" is noted when none matched.
abbrev pub verdict : Bool → ℕ → Checked
verdict true errno = (pos 0, errno)
verdict false errno = (negsuc 0, ic_set_errno ic_errno_command_denied errno)

-- One of the listed names is where the command begins: `!strncmp(s, cmd, strlen(s))`.
unfoldable pub any_prefix : Bytes → List Bytes → Bool
any_prefix cmd [] = false
any_prefix cmd (s ∷ ss) = if same_prefix s cmd (length s) then true else any_prefix cmd ss

-- One of the listed names is this one.
unfoldable pub any_equal : Bytes → List Bytes → Bool
any_equal name [] = false
any_equal name (s ∷ ss) = if bytes_eq s name then true else any_equal name ss

-- What both checks do with a setting that was found: "*" admits all, otherwise the colon-separated
-- names are searched, and a failure to split is -1.
pub search_setting : (ℕ → Bool) → (List Bytes → Bool) → Bytes → ℕ → Run Checked
search_setting room found setting errno =
    if bytes_eq setting star then ok (pos 0, errno) else elim (split_string room setting colon) [
      | none ↦ fault
      | some none ↦ ok (negsuc 0, errno)
      | some (some names) ↦ ok (verdict (found names) errno)
    ]

-- The setting of the host, to which `check_limited_commands` falls back on the essential container.
host_limits : Host → Bytes → ℕ → Run Checked
unfolding search_setting
host_limits host cmd errno = conf_file_query host host_commands_path >>= λ limits. elim limits [
  | none ↦ ok (pos 0, errno)
  | some setting ↦ elim (strdup host.room host_name) [
    | none ↦ ok (negsuc 0, errno)
    | some name ↦ search_setting host.room (any_prefix cmd) setting errno
  ]
]

pub limits_of : Host → Bytes → Bytes → ℕ → Run Checked
unfolding search_setting host_limits
limits_of host name cmd errno = conf_file_query host (b'.' ∷ (name ++ dot_commands)) >>= λ limits.
    elim limits [
      | some setting ↦ search_setting host.room (any_prefix cmd) setting errno
      | none ↦
          let fallback = host_limits host cmd errno in
          if bytes_eq name container_essential then fallback else ok (pos 0, errno)
    ]

unfoldable pub check_limited_commands : Host → Bytes → ℕ → Run Checked
unfolding limits_of
check_limited_commands host cmd errno = container_name host >>= λ name. elim name [
  | none ↦ ok (negsuc 0, errno)
  | some name' ↦ limits_of host name' cmd errno
]

unfoldable pub check_command_acl : Host → Bytes → Bytes → ℕ → Run Checked
unfolding search_setting
check_command_acl host cmd target errno =
    conf_file_query host (commands_dot ++ (cmd ++ dot_acl)) >>= λ acl. elim acl [
      | none ↦ ok (pos 0, errno)
      | some setting ↦ search_setting host.room (any_equal target) setting errno
    ]

-- `check_command` at the program name that it cut off
pub check_program : Host → Bytes → Bytes → ℕ → Run Checked
check_program host cmd target errno = check_limited_commands host cmd errno >>= λ (rc, errno').
    elim rc [ pos zero ↦ check_command_acl host cmd target errno' | other ↦ ok (other, errno') ]

-- `check_command`: the command line is read at the payload pointer up to a space or NUL, and copied by
-- `strndup` with the byte behind it, if that is a space. `target` is the name of the transport.
unfoldable pub check_command : Host → Bytes → Bytes → ℕ → Run Checked
unfolding check_program
check_command host cmdline target errno = c_word cmdline >>= λ (cmd, spaced).
    let checked = check_program host cmd target errno in
    if host.room (length cmd + (if spaced then 2 else 1)) then checked else ok (negsuc 0, errno)
