-- ===== src/Packages/Layouts.antt =====
-- `layout` of src-tauri/src/packages/archive.rs, with the layouts of
-- src-tauri/src/local_import/layout.rs.
use starframe.Prelude.{
  not, ◌&&◌, ◌||◌, List, Text, codes, text_eq, any, is_empty, ltb, ◌++◌, if◌then◌else◌,
}
use starframe.Prelude.Outcome.{Outcome, ensure, ◌>>◌}
use starframe.Paths.{lua_path}
use starframe.Packages.{PreparedFile, supported_files}

pub data Layout : Type 0 where
  starframe_lua_zip : Layout
  starframe_managed_zip : (root entry_assembly entry_type : Text) → Layout

-- The place of the entry in the archive.
entry_of : (root entry_assembly : Text) → Text
entry_of root entry_assembly =
    if is_empty root then entry_assembly else root ++ codes "/" ++ entry_assembly

unfoldable pub layout : List PreparedFile → Layout → Outcome (Unit {0})
unfolding supported_files lua_path entry_of
layout files starframe_lua_zip = do
  supported_files files
  ensure (not (is_empty files || any (λ file. not (lua_path file.path)) files)) (
      codes
        "Lua overlays require only .lua files under LJ/lua; AI and map content are unsupported.")
layout files (starframe_managed_zip root entry_assembly entry_type) = do
  supported_files files
  ensure
      (any (λ file. text_eq file.path (entry_of root entry_assembly) && ltb 0 file.size_bytes)
        files)
      (codes "Unsupported package layout: approved entry "
        ++ entry_of root entry_assembly
        ++ codes " is missing or empty. Ask the curator to correct the release.")
