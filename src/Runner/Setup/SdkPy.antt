-- ===== src/Runner/Setup/SdkPy.antt =====
-- Where `find_sdk_py` finds the SDK.
use halley.Common.{
  ℕ, zero, suc, ◌≡◌, refl, String, Bool, Option, none, some, List, [], ◌∷◌, take, if◌then◌else◌,
  arith,
}
use halley.Runner.Paths.{PathBuf}
use halley.Runner.Setup.{Machine, has_sdk_py, sdk_py_in, find_sdk_py_loop, find_sdk_py}

-- A directory and all those above it, the innermost first, of a path with these names.
abbrev pub directories : Bool → List String → List PathBuf
directories is_absolute [] = record { is_absolute = is_absolute; names = [] } ∷ []
directories is_absolute (n ∷ names) =
    record { is_absolute = is_absolute; names = n ∷ names } ∷ directories is_absolute names

-- The SDK in the first directory of a list that has one.
abbrev pub first_sdk_py : Machine → List PathBuf → Option PathBuf
first_sdk_py m [] = none
first_sdk_py m (dir ∷ dirs) =
    let rest = first_sdk_py m dirs in if has_sdk_py m dir then some (sdk_py_in dir) else rest

loop_lem :
    (m : Machine) (n : ℕ) (b : Bool) (names : List String)
    → find_sdk_py_loop m n (record { is_absolute = b; names = names })
      ≡ first_sdk_py m (take n (directories b names))
unfolding find_sdk_py_loop
loop_lem m zero b names = refl
loop_lem m (suc zero) b [] = ground arith
loop_lem m (suc (suc n)) b [] = ground arith
loop_lem m (suc n) b (name ∷ names) = ground (arith, loop_lem m n b names)

-- The SDK is searched in the directory and in at most nine above it: the answer is the `sdk-py` of the
-- innermost of these that has a directory `sdk-py/halley_sdk`, and there is none exactly where none of
-- them has one.
pub find_sdk_py_lem :
    (m : Machine) (start : PathBuf)
    → find_sdk_py m start ≡ first_sdk_py m (take 10 (directories start.is_absolute start.names))
unfolding find_sdk_py
find_sdk_py_lem m start = loop_lem m 10 start.is_absolute start.names
