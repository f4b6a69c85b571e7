-- ===== src/Subcommand/Lookup.antt =====
-- What is found in the registry of src/lib/subcommand.c after additions.
use inter_container_messagin.Base.{
  ◌≡◌, refl, none, some, List, [], ◌∷◌, ◌++◌, Bytes, if◌then◌else◌, length, bytes_eq, arith, ltb,
  ◌&&◌,
}
use inter_container_messagin.Message.{rc_ok, rc_error}
use inter_container_messagin.Subcommand.{
  Subcommand, Registry, subcommand_add, subcommand_find, find_name,
}

module _ {S R : Type 0} where
  find-behind :
      (name : Bytes) (cs : List (Subcommand S R)) (c : Subcommand S R)
      → find_name name (cs ++ (c ∷ [])) ≡ elim (find_name name cs) [
        | some first ↦ some first
        | none ↦ if bytes_eq name c.name then some c else none
      ]
  unfolding find_name
  find-behind name [] c = refl
  find-behind name (x ∷ xs) c = ground (arith, find-behind name xs c)

  -- A complete subcommand is added as long as there are fewer than sixteen. A name is then looked up
  -- as before, and only a name that was not found is that of the new one. At sixteen, or for an
  -- incomplete subcommand, -1 is returned and every name is looked up as before.
  pub subcommand_add-find :
      (r : Registry S R) (c : Subcommand S R) (name : Bytes)
      → ((subcommand_add r c).1
          ≡ (if c.complete && ltb (length r.subcommands) 16 then rc_ok else rc_error))
        × (subcommand_find (subcommand_add r c).0 name ≡ elim (subcommand_find r name) [
          | some first ↦ some first
          | none ↦
              if c.complete && ltb (length r.subcommands) 16 && bytes_eq name c.name
              then some c
              else none
        ])
  unfolding subcommand_add subcommand_find
  subcommand_add-find r c name = (ground arith, ground (arith, find-behind name r.subcommands c))
