-- ===== src/Daemon/Acl/Granted.antt =====
-- What the access checks of src/icmpd/subcmd_start.c grant, in terms of the settings in the
-- configuration tree.
use mathlib.Core.Bool.{false≢true}
use inter_container_messagin.Base.{
  ℕ, ◌≤◌, ◌≡◌, ◌≢◌, ◌⊎◌, inl, inr, ◌↔◌, refl, Bool, true, false, none, some, List, [], ◌∷◌, ◌++◌,
  Bytes, Run, ok, length, bytes_eq, bytes_eq_iff, arith, take-all, Bool-cases, length-append, ◌==◌,
}
use inter_container_messagin.Base.Word.{pos, negsuc}
use inter_container_messagin.ErrorCode.{ic_errno_command_denied}
use inter_container_messagin.StringTree.{node, Nodes, same_prefix}
use inter_container_messagin.StringTree.Path.{NoDot, NoDots, path_of}
use inter_container_messagin.StringTree.Query.{query-find}
use inter_container_messagin.StringTree.Find.{
  find, leaf_strings, found_value, IsKeyed, colons, colon_joined-colons,
}
use inter_container_messagin.Util.Split.{AllLack, EndsFull, split_string-behind}
use inter_container_messagin.Container.{Host, conf_file_query}
use inter_container_messagin.Daemon.Acl.{
  Checked, verdict, any_prefix, any_equal, search_setting, check_command_acl, star, commands_dot,
  dot_acl,
}

-- "commands", "acl", "container_name"
abbrev pub commands_name : Bytes
commands_name = b'c' ∷ b'o' ∷ b'm' ∷ b'm' ∷ b'a' ∷ b'n' ∷ b'd' ∷ b's' ∷ []

abbrev pub acl_name : Bytes
acl_name = b'a' ∷ b'c' ∷ b'l' ∷ []

abbrev pub container_name_name : Bytes
container_name_name =
    b'c' ∷ b'o' ∷ b'n' ∷ b't' ∷ b'a' ∷ b'i' ∷ b'n' ∷ b'e' ∷ b'r' ∷ b'_' ∷ b'n' ∷ b'a' ∷ b'm' ∷ b'e'
    ∷ []

-- A host with memory, and a configuration whose siblings have distinct strings.
pub record IsConfigured (host : Host) (top : Nodes) : Type 0 where
  pub ample : (n : ℕ) → host.room n ≡ true
  pub rooted : host.tree ≡ node (some (b'.' ∷ [])) top
  pub keyed : IsKeyed top

-- A setting is a list of at least one name, none with a colon, the last not empty, and is not "*".
pub record IsNameList (cs : Nodes) (s : Bytes) (ss : List Bytes) : Type 0 where
  pub names : leaf_strings cs ≡ some (s ∷ ss)
  pub colonless : AllLack b':' (s ∷ ss)
  pub ends_full : EndsFull s ss
  pub not_star : (s ∷ ss) ≢ (star ∷ [])

-- A name is on the list.
abbrev pub Among : Bytes → List Bytes → Type 0
Among name [] = ⊥
Among name (s ∷ ss) = (s ≡ name) ⊎ Among name ss

-- A command begins with a name on the list.
abbrev pub BeginsWithOne : Bytes → List Bytes → Type 0
BeginsWithOne cmd [] = ⊥
BeginsWithOne cmd (s ∷ ss) = ((rest : Bytes) × (cmd ≡ s ++ rest)) ⊎ BeginsWithOne cmd ss

pub any_equal_iff : (name : Bytes) (ss : List Bytes) → (any_equal name ss ≡ true) ↔ Among name ss
unfolding any_equal
any_equal_iff name [] = (λ e. cc, λ h. absurd h)
any_equal_iff name (s ∷ ss) = elim (Bool-cases (bytes_eq s name)) [
  | inl same ↦ (λ e. inl ((bytes_eq_iff s name).0 same), λ h. rw same)
  | inr other ↦ (
    λ e. inr ((any_equal_iff name ss).0 (rw other at e)),
    λ h.
        rw other
          ((any_equal_iff name ss).1 (elim h [ inl e ↦ absurd (differ other e) | inr m ↦ m ])),
  )
]
  where
    differ : bytes_eq s name ≡ false → s ≡ name → ⊥
    differ o e = let t = (bytes_eq_iff s name).1 e in cc

same_prefix_iff :
    (s cmd : Bytes) → (same_prefix s cmd (length s) ≡ true) ↔ ((rest : Bytes) × (cmd ≡ s ++ rest))
unfolding same_prefix
same_prefix_iff [] cmd = (λ e. (cmd, refl), λ h. refl)
same_prefix_iff (x ∷ s) [] = (λ e. cc, λ h. cc h.1)
same_prefix_iff (x ∷ s) (y ∷ cmd) = (
  λ e. let (rest, p) = (same_prefix_iff s cmd).0 (ground arith) in (rest, ground arith),
  λ h. ground (arith, (same_prefix_iff s cmd).1 (h.0, ground arith)),
)

pub any_prefix_iff :
    (cmd : Bytes) (ss : List Bytes) → (any_prefix cmd ss ≡ true) ↔ BeginsWithOne cmd ss
unfolding any_prefix
any_prefix_iff cmd [] = (λ e. cc, λ h. absurd h)
any_prefix_iff cmd (s ∷ ss) = elim (Bool-cases (same_prefix s cmd (length s))) [
  | inl same ↦ (λ e. inl ((same_prefix_iff s cmd).0 same), λ h. rw same)
  | inr other ↦ (
    λ e. inr ((any_prefix_iff cmd ss).0 (rw other at e)),
    λ h.
        rw other
          ((any_prefix_iff cmd ss).1 (elim h [ inl e ↦ absurd (differ other e) | inr m ↦ m ])),
  )
]
  where
    differ : same_prefix s cmd (length s) ≡ false → (rest : Bytes) × (cmd ≡ s ++ rest) → ⊥
    differ o e = let t = (same_prefix_iff s cmd).1 e in cc

-- A joined list of names is not "*" unless it is the one name "*".
pub not-star :
    (s : Bytes) (ss : List Bytes) → (s ∷ ss) ≢ (star ∷ []) → bytes_eq (s ++ colons ss) star ≡ false
unfolding bytes_eq
not-star [] [] h = refl
not-star [] (t ∷ ss) h = refl
not-star (c ∷ []) [] h = elim (Bool-cases (c == b'*')) [
  | inl e ↦ absurd (h (ground arith))
  | inr e ↦ rw e
]
not-star (c ∷ []) (t ∷ ss) h = ground arith
not-star (c ∷ d ∷ s) ss h = ground arith

pub NoDot-commands_name : NoDot commands_name
NoDot-commands_name = ground arith

NoDot-acl_name : NoDot acl_name
NoDot-acl_name = ground arith

-- A check that ends in a verdict, by the predicate that its test decides.
pub by_verdict :
    {b : Bool} {P : Type 0} {r : Run Checked} {errno : ℕ}
    → (b ≡ true) ↔ P
    → r ≡ ok (verdict b errno)
    → (P × (r ≡ ok (pos 0, errno))) ⊎ (¬ P × (r ≡ ok (negsuc 0, ic_errno_command_denied)))
by_verdict {b = true} iff e = inl (iff.0 refl, e)
by_verdict {b = false} iff e = inr (λ p. false≢true (iff.1 p), e)

module _ (host : Host) (top : Nodes) (conf : IsConfigured host top) where
  pub conf_file_query-find :
      (t : Bytes) (ts : List Bytes)
      → NoDots (t ∷ ts)
      → length (path_of t ts) ≤ 4093
      → conf_file_query host (b'.' ∷ path_of t ts) ≡ ok (found_value (find t ts top))
  unfolding conf_file_query
  conf_file_query-find t ts nd h =
      rw (conf.rooted, take-all 4093 (path_of t ts) h)
        (query-find host.room conf.ample t ts top nd conf.keyed)

  acl_query :
      (cmd : Bytes)
      → NoDot cmd
      → length cmd ≤ 4000
      → conf_file_query host (commands_dot ++ (cmd ++ dot_acl))
        ≡ ok (found_value (find commands_name (cmd ∷ acl_name ∷ []) top))
  acl_query cmd nd short =
      conf_file_query-find commands_name (cmd ∷ acl_name ∷ [])
        (NoDot-commands_name, (nd, (NoDot-acl_name, tt))) (omega (arith, length-append cmd dot_acl))

  module _ (cs : Nodes) (s : Bytes) (ss : List Bytes) (list : IsNameList cs s ss) where
    pub setting_lem : found_value (some cs) ≡ some (s ++ colons ss)
    setting_lem = rw list.names (colon_joined-colons s ss)

    pub search_setting-names :
        (found : List Bytes → Bool) (errno : ℕ)
        → search_setting host.room found (s ++ colons ss) errno
          ≡ ok (verdict (found (s ∷ ss)) errno)
    unfolding search_setting
    search_setting-names found errno =
        rw (not-star s ss list.not_star)
          (rw (split_string-behind host.room conf.ample b':' s ss list.colonless list.ends_full))

    pub searched :
        (cmd target : Bytes) (errno : ℕ)
        → NoDot cmd
        → length cmd ≤ 4000
        → find commands_name (cmd ∷ acl_name ∷ []) top ≡ some cs
        → check_command_acl host cmd target errno ≡ ok (verdict (any_equal target (s ∷ ss)) errno)
    unfolding check_command_acl
    searched cmd target errno nd short there =
        rw (acl_query cmd nd short, there, setting_lem)
          (search_setting-names (any_equal target) errno)

    -- Where `.commands.<cmd>.acl` lists names, the check of a command for a target container grants
    -- it exactly if the target is one of them; otherwise it returns -1 and notes "denied".
    pub check_command_acl-listed :
        (cmd target : Bytes) (errno : ℕ)
        → NoDot cmd
        → length cmd ≤ 4000
        → find commands_name (cmd ∷ acl_name ∷ []) top ≡ some cs
        → (Among target (s ∷ ss) × (check_command_acl host cmd target errno ≡ ok (pos 0, errno)))
          ⊎ (¬ (Among target (s ∷ ss))
              × (check_command_acl host cmd target errno ≡ ok (negsuc 0, ic_errno_command_denied)))
    check_command_acl-listed cmd target errno nd short there =
        by_verdict (any_equal_iff target (s ∷ ss)) (searched cmd target errno nd short there)

  -- Where the list is not configured, every target is granted the command.
  pub check_command_acl-unlisted :
      (cmd target : Bytes) (errno : ℕ)
      → NoDot cmd
      → length cmd ≤ 4000
      → find commands_name (cmd ∷ acl_name ∷ []) top ≡ none
      → check_command_acl host cmd target errno ≡ ok (pos 0, errno)
  unfolding check_command_acl
  check_command_acl-unlisted cmd target errno nd short missing =
      rw (acl_query cmd nd short, missing)
