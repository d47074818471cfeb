-- ===== src/Registry/Installation.antt =====
-- `Installation` of registry/installation.rs: a release's declaration of how it is installed.
use starframe.Prelude.{
  ℕ, Bool, true, false, not, ◌&&◌, ◌||◌, Text, codes, all, is_ascii_digit, is_ascii_lowercase,
  is_ascii_uppercase, is_ascii_alphanumeric, is_empty, split, ends_with, to_ascii_lowercase,
  all_indexed, length, leb, ◌==◌,
}
use starframe.Paths.{is_relative, lua_path}

pub data Kind : Type 0 where
  code map ai : Kind

pub data Loader : Type 0 where
  lua bepinex5 : Loader

pub data Destination : Type 0 where
  sanctuary_maps sanctuary_ai_mods : Destination

pub data Installation : Type 0 where
  lua_mod : (schema_version : ℕ) → Kind → Loader → (entry_path : Text) → Installation
  managed :
      (schema_version : ℕ)
      → Kind
      → Loader
      → (source_root entry_assembly entry_type : Text) → Installation
  content :
      (schema_version : ℕ)
      → Kind
      → (source_root : Text) → Destination
      → (folder : Text) → Installation

-- `*kind == Kind::Code`
is_code : Kind → Bool
is_code code = true
is_code _ = false

is_lua : Loader → Bool
is_lua lua = true
is_lua bepinex5 = false

-- `matches!((kind, destination), …)`
pub goes_to : Kind → Destination → Bool
goes_to map sanctuary_maps = true
goes_to ai sanctuary_ai_mods = true
goes_to _ _ = false

-- `path(value, empty)`
path : Text → Bool → Bool
unfolding is_relative
path value empty = (empty && is_empty value) || (leb (length value) 240 && is_relative value)

is_letter : ℕ → Bool
is_letter byte = is_ascii_lowercase byte || is_ascii_uppercase byte

type_part : Text → Bool
unfolding is_letter
type_part part =
    not (is_empty part) && all_indexed (λ byte. is_letter byte || byte == b'_') is_ascii_digit part

-- `entry_type` names a type by at most sixteen parts.
type_name : Text → Bool
unfolding type_part split
type_name entry_type =
    leb 3 (length entry_type)
    && leb (length entry_type) 240
    && leb (length (split b'.' entry_type)) 16
    && all type_part (split b'.' entry_type)

folder_byte : ℕ → Bool
folder_byte byte = byte == b' ' || byte == b'_' || byte == b'.' || byte == b'-'

unfoldable pub valid : Installation → Bool
unfolding is_code is_lua goes_to path type_name folder_byte lua_path ends_with
valid (lua_mod schema_version kind loader entry_path) =
    schema_version == 1
    && is_code kind
    && is_lua loader
    && path entry_path false
    && lua_path entry_path
valid (managed schema_version kind loader source_root entry_assembly entry_type) =
    schema_version == 1
    && is_code kind
    && not (is_lua loader)
    && path source_root true
    && path entry_assembly false
    && ends_with (codes ".dll") (to_ascii_lowercase entry_assembly)
    && type_name entry_type
valid (content schema_version kind source_root destination folder) =
    schema_version == 1
    && path source_root false
    && goes_to kind destination
    && leb 1 (length folder)
    && leb (length folder) 80
    && path folder false
    && all_indexed is_ascii_alphanumeric folder_byte folder
