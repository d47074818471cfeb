-- ===== src/Examples/Archives.antt =====
-- The files of a package.
use starframe.Prelude.{◌≡◌, ◌↔◌, refl, List, [], ◌∷◌, codes}
use starframe.Prelude.Outcome.{ok, err, IsPanicFree}
use starframe.Registry.Installation.{Kind, sanctuary_maps, Installation, content}
use starframe.Registry.Files.{validate_files}
use starframe.Registry.Files.Separate.{IsPackage, validate_files-IsPackage}
use starframe.Packages.Layouts.{starframe_managed_zip, layout}
use starframe.Packages.{PreparedFile, supported_files}
use starframe.Packages.Totals.{supported_files-IsPanicFree}
use starframe.Packages.Totals.Limits.{AreSupported, supported_files_iff}

abbrev two_files : List PreparedFile
two_files =
    record { path = codes "a.dll"; sha256 = codes "00"; size_bytes = 16777216 }
    ∷ record { path = codes "data.bin"; sha256 = codes "11"; size_bytes = 67108864 }
    ∷ []

abbrev large_library : List PreparedFile
large_library = record { path = codes "A.DLL"; sha256 = codes "00"; size_bytes = 16777217 } ∷ []

two_supported : supported_files two_files ≡ ok tt
unfolding supported_files
two_supported = refl

large_refused :
    supported_files large_library
    ≡ err (
        codes
          "A.DLL exceeds the runtime's 16 MiB managed assembly limit. Ask the author to split it.")
unfolding supported_files
large_refused = refl

supported_files-IsPanicFree_example : IsPanicFree (supported_files two_files)
supported_files-IsPanicFree_example = supported_files-IsPanicFree two_files

supported_files_iff_example : (supported_files two_files ≡ ok tt) ↔ AreSupported two_files
supported_files_iff_example = supported_files_iff two_files

abbrev map_plan : Installation
map_plan = content 1 Kind.map (codes "src") sanctuary_maps (codes "Isle")

abbrev map_files : List PreparedFile
map_files =
    record { path = codes "src/Isle.sanmap"; sha256 = codes "00"; size_bytes = 10 }
    ∷ record { path = codes "src/Readme.txt"; sha256 = codes "11"; size_bytes = 0 }
    ∷ []

map_accepted : validate_files map_plan map_files ≡ ok tt
unfolding validate_files
map_accepted = refl

validate_files-IsPackage_example : IsPackage map_plan map_files
validate_files-IsPackage_example = validate_files-IsPackage map_plan map_files map_accepted

directory_refused :
    validate_files map_plan
      (record { path = codes "src"; sha256 = codes "22"; size_bytes = 1 } ∷ map_files)
    ≡ err (codes "Registry package files overlap a directory.")
unfolding validate_files
directory_refused = refl

managed_laid_out : layout two_files (starframe_managed_zip [] (codes "a.dll") (codes "A")) ≡ ok tt
unfolding layout
managed_laid_out = refl
