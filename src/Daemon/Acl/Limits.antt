-- ===== src/Daemon/Acl/Limits.antt =====
-- `check_limited_commands` of src/icmpd/subcmd_start.c: the commands that the local container may run.
use inter_container_messagin.Base.{
  ℕ, ◌≤◌, ◌≡◌, ◌≢◌, ◌⊎◌, ◌↔◌, refl, Bool, true, false, none, some, List, [], ◌∷◌, ◌++◌, Bytes, ok,
  length, bytes_eq, bytes_eq_iff, arith, length-append,
}
use inter_container_messagin.Base.Word.{pos, negsuc}
use inter_container_messagin.ErrorCode.{ic_errno_command_denied}
use inter_container_messagin.StringTree.{Nodes}
use inter_container_messagin.StringTree.Path.{NoDot}
use inter_container_messagin.StringTree.Find.{find, leaf_strings, found_value, colon_joined}
use inter_container_messagin.Container.{Host, conf_file_query, container_name}
use inter_container_messagin.Daemon.Acl.{
  verdict, any_prefix, search_setting, limits_of, check_limited_commands, star, dot_commands,
  container_essential,
}
use inter_container_messagin.Daemon.Acl.Granted.{
  commands_name, IsConfigured, IsNameList, BeginsWithOne, any_prefix_iff, by_verdict,
  conf_file_query-find, setting_lem, search_setting-names, NoDot-commands_name,
}

not-true : {b : Bool} {P : Type 0} → (b ≡ true) ↔ P → ¬ P → b ≡ false
not-true {b = true} iff h = absurd (h (iff.0 refl))
not-true {b = false} iff h = refl

module _ (host : Host) (top : Nodes) (conf : IsConfigured host top) (name : Bytes)
    (named : container_name host ≡ ok (some name)) (nd : NoDot name)
    (short : length name ≤ 4000) where
  limits_query :
      conf_file_query host (b'.' ∷ (name ++ dot_commands))
      ≡ ok (found_value (find name (commands_name ∷ []) top))
  limits_query =
      conf_file_query-find host top conf name (commands_name ∷ []) (nd, (NoDot-commands_name, tt))
        (omega (arith, length-append name dot_commands))

  module _ (cs : Nodes) (s : Bytes) (ss : List Bytes) (list : IsNameList cs s ss)
      (there : find name (commands_name ∷ []) top ≡ some cs) where
    limited :
        (cmd : Bytes) (errno : ℕ)
        → check_limited_commands host cmd errno ≡ ok (verdict (any_prefix cmd (s ∷ ss)) errno)
    unfolding check_limited_commands limits_of
    limited cmd errno = rw named (
        rw (limits_query, there, setting_lem host top conf cs s ss list)
          (search_setting-names host top conf cs s ss list (any_prefix cmd) errno))

    -- Where `.<container>.commands` lists names, a command is let through exactly if it begins with
    -- one of them; otherwise the check returns -1 and notes "denied".
    pub check_limited_commands-listed :
        (cmd : Bytes) (errno : ℕ)
        → (BeginsWithOne cmd (s ∷ ss) × (check_limited_commands host cmd errno ≡ ok (pos 0, errno)))
          ⊎ (¬ (BeginsWithOne cmd (s ∷ ss))
              × (check_limited_commands host cmd errno ≡ ok (negsuc 0, ic_errno_command_denied)))
    check_limited_commands-listed cmd errno =
        by_verdict (any_prefix_iff cmd (s ∷ ss)) (limited cmd errno)

  -- Where the setting is "*", every command is let through.
  pub check_limited_commands-star :
      (cs : Nodes) (cmd : Bytes) (errno : ℕ)
      → leaf_strings cs ≡ some (star ∷ [])
      → find name (commands_name ∷ []) top ≡ some cs
      → check_limited_commands host cmd errno ≡ ok (pos 0, errno)
  unfolding check_limited_commands limits_of search_setting colon_joined bytes_eq
  check_limited_commands-star cs cmd errno is there = rw named (rw (limits_query, there) (rw is))

  -- Where nothing is configured for a container other than the essential one, so is every command.
  pub check_limited_commands-unlisted :
      (cmd : Bytes) (errno : ℕ)
      → name ≢ container_essential
      → find name (commands_name ∷ []) top ≡ none
      → check_limited_commands host cmd errno ≡ ok (pos 0, errno)
  unfolding check_limited_commands limits_of
  check_limited_commands-unlisted cmd errno other missing =
      rw named
        (rw (limits_query, missing) (rw (not-true (bytes_eq_iff name container_essential) other)))
