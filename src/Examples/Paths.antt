-- ===== src/Examples/Paths.antt =====
-- `relative_path` on a path with capital letters.
use starframe.Prelude.{◌≡◌, refl, Text, codes, split, true, false}
use starframe.Prelude.Outcome.{ok}
use starframe.Paths.{relative_path, is_relative, lua_path}
use starframe.Paths.Safety.{AllSafe, relative_path_idem, relative_path-AllSafe}

abbrev mixed : Text
mixed = codes "LJ/Lua/Main.lua"

abbrev normal : Text
normal = codes "lj/lua/main.lua"

mixed_runs : relative_path mixed ≡ ok normal
unfolding relative_path
mixed_runs = refl

relative_path_idem_example : relative_path normal ≡ ok normal
relative_path_idem_example = relative_path_idem mixed normal mixed_runs

relative_path-AllSafe_example : AllSafe (split b'/' normal)
relative_path-AllSafe_example = relative_path-AllSafe mixed normal mixed_runs

outside_refused : is_relative (codes "mods/../save.dat") ≡ false
unfolding is_relative
outside_refused = refl

device_refused : is_relative (codes "mods/com1.lua") ≡ false
unfolding is_relative
device_refused = refl

script_accepted : lua_path mixed ≡ true
unfolding lua_path
script_accepted = refl
