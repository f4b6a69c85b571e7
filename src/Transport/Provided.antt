-- ===== src/Transport/Provided.antt =====
-- The directories of a channel that `ic_transport_create` of src/lib/transport.c asks for: there
-- already, or made where they are missing.
use inter_container_messagin.Base.{
  ℕ, ◌≤◌, ◌≡◌, ◌≢◌, ap, sym, ◌∙◌, true, none, some, List, [], ◌∷◌, ◌++◌, Bytes, ok, length,
  take-all, length-append, append-nil, arith,
}
use inter_container_messagin.Base.Word.{pos}
use inter_container_messagin.Util.Mkdir.{mkdir_path}
use inter_container_messagin.Util.Mkdir.Ancestors.{
  NoSlash, absolute, on_the_way, make_all, mkdir_path-make_all,
}
use inter_container_messagin.Transport.{System, channel_prefix, path_text, channel_directory}

-- "opt" and "container"
abbrev opt : Bytes
opt = b'o' ∷ b'p' ∷ b't' ∷ []

abbrev container : Bytes
container = b'c' ∷ b'o' ∷ b'n' ∷ b't' ∷ b'a' ∷ b'i' ∷ b'n' ∷ b'e' ∷ b'r' ∷ []

-- The directories on the way to that of a channel
abbrev pub channel_directories : Bytes → List Bytes
channel_directories name = on_the_way [] (opt ∷ container ∷ name ∷ [])

absolute-channel : (name : Bytes) → channel_prefix ++ name ≡ absolute (opt ∷ container ∷ name ∷ [])
absolute-channel name = ap (λ n. channel_prefix ++ n) (sym (append-nil name))

-- What it takes to make the directories of a channel: memory, and a name that is not empty, has no
-- slash and at most 4000 bytes.
pub record IsMissing {S : Type 0} (sys : System S) (name : Bytes) (s s' : S) : Type 0 where
  pub ample : (n : ℕ) → sys.room n ≡ true
  pub named : name ≢ []
  pub flat : NoSlash name
  pub short : length name ≤ 4000
  pub absent : sys.access (path_text (channel_prefix ++ name)) s ≡ some sys.enoent
  pub made : make_all sys.files (channel_directories name) s ≡ (s', pos 0)

-- A directory is asked for: it is there, or it is made with those on the way to it.
pub data Provided {S : Type 0} (sys : System S) (name : Bytes) (s : S) : S → Type 0 where
  present : sys.access (path_text (channel_prefix ++ name)) s ≡ none → Provided sys name s s
  missing : {s' : S} → IsMissing sys name s s' → Provided sys name s s'

module _ {S : Type 0} (sys : System S) (name : Bytes) (s s' : S) (m : IsMissing sys name s s') where
  made-directory :
      mkdir_path sys.files sys.room (path_text (channel_prefix ++ name)) s ≡ ok (s', pos 0)
  made-directory =
      ap (λ path. mkdir_path sys.files sys.room path s)
        (take-all 4095 (channel_prefix ++ name)
            (omega (arith, m.short, length-append channel_prefix name))
          ∙ absolute-channel name)
      ∙ mkdir_path-make_all sys.files sys.room m.ample (opt ∷ container ∷ name ∷ []) s
          ((λ e. cc), ground arith, ((λ e. cc), ground arith, (m.named, m.flat, tt)))
      ∙ ap ok m.made

  channel_directory-made : channel_directory sys name s ≡ ok (s', true)
  unfolding channel_directory
  channel_directory-made = ground (arith, made-directory, m.absent)

pub channel_directory-Provided :
    {S : Type 0} (sys : System S) (name : Bytes) (s s' : S)
    → Provided sys name s s'
    → channel_directory sys name s ≡ ok (s', true)
unfolding channel_directory
channel_directory-Provided sys name s s' (present e) = ground arith
channel_directory-Provided sys name s s' (missing m) = channel_directory-made sys name s s' m
