-- ===== src/Daemon/Start/Listing.antt =====
-- The daemon that is to monitor all containers (src/icmpd/subcmd_start.c, src/lib/lxc.c and
-- src/lib/vector.c).
use inter_container_messagin.Base.{
  ℕ, suc, ◌^◌, ◌<◌, ◌≡◌, refl, ap, ◌∙◌, true, false, some, List, [], ◌∷◌, ◌++◌, Bytes, ok, fault,
  ◌==◌, length, arith, get_elem?, bytes_eq,
}
use inter_container_messagin.Base.Word.{pos}
use inter_container_messagin.ErrorCode.{success}
use inter_container_messagin.Vector.{Vector}
use inter_container_messagin.Vector.Slots.{get_obj}
use inter_container_messagin.Vector.Lifetime.{to_string_array, strings_loop}
use inter_container_messagin.Container.{Host, container_name}
use inter_container_messagin.Lxc.{Directory, default_lxc_path}
use inter_container_messagin.Lxc.Defined.{
  defined, list_defined_containers-HoldsNames, get_obj-held, length-defined,
}
use inter_container_messagin.Daemon.Acl.{star}
use inter_container_messagin.Daemon.Start.{
  monitor_setting, monitor_defined, monitored_list, init_context,
}

strings_loop-fault :
    {Arg : Type 0} (v : Vector Arg) (n : ℕ) (buf : Bytes)
    → v.obj_size ≡ 0
    → get_obj v (pos 0) ≡ ok (some buf, success)
    → strings_loop v 0 (suc n) ≡ fault
unfolding strings_loop
strings_loop-fault v n buf variable e = rw e (ground (arith, variable))

-- A vector of descriptors with an object in its first slot cannot be turned into strings.
to_string_array-fault :
    {Arg : Type 0} (v : Vector Arg) (n : ℕ) (buf : Bytes)
    → v.nr_vector ≡ suc n
    → v.obj_size ≡ 0
    → get_obj v (pos 0) ≡ ok (some buf, success)
    → to_string_array (some v) true ≡ fault
unfolding to_string_array
to_string_array-fault v n buf counted variable e =
    let some_slots : (v.nr_vector == 0) ≡ false = ground (arith, counted) in
    rw some_slots
      (rw (ap (λ k. strings_loop v 0 k) counted ∙ strings_loop-fault v n buf variable e) refl)

module _ (host : Host) (ample : (n : ℕ) → host.room n ≡ true) (dir : Directory) where
  monitor_defined-fault :
      (names more : List Bytes) (first : Bytes)
      → dir.block ≡ true
      → dir.entries ≡ some names
      → length names < 2 ^ 27
      → defined dir default_lxc_path names ≡ first ∷ more
      → monitor_defined host.room dir true ≡ fault
  unfolding monitor_defined
  monitor_defined-fault names more first block opened small d =
      let (v, e, h) =
        list_defined_containers-HoldsNames host.room ample dir default_lxc_path names block opened
          small in
      let first_at : get_elem? (defined dir default_lxc_path names) 0 ≡ some first =
        ap (λ l. get_elem? l 0) d in
      rw e (
        rw
          (to_string_array-fault v (length more) (first ++ (0 ∷ [])) (h.counted ∙ ap length d)
            h.variable
            (get_obj-held host.room ample dir default_lxc_path (defined dir default_lxc_path names)
              v 0 first h
              (omega (arith, small, length-defined host.room ample dir default_lxc_path names))
              first_at))
          refl)

  -- When the setting of the monitored containers is "*", and at least one container is defined, in
  -- a directory of fewer than 2 ^ 27 entries and with memory for all, `init_context` faults: the
  -- listing of the names succeeds, but the names are then read as descriptors.
  pub init_context-star-fault :
      (own first : Bytes) (names more : List Bytes)
      → container_name host ≡ ok (some own)
      → monitor_setting host own ≡ ok (some star)
      → dir.block ≡ true
      → dir.entries ≡ some names
      → length names < 2 ^ 27
      → defined dir default_lxc_path names ≡ first ∷ more
      → init_context host dir true ≡ fault
  unfolding init_context monitored_list bytes_eq
  init_context-star-fault own first names more is_own is_star block opened small d =
      rw is_own (rw is_star (rw (monitor_defined-fault names more first block opened small d) refl))
