-- ===== src/EmuFs/Paths.antt =====
-- ios/IOS/EmuFS.cpp, the paths: which are valid, which are redirected to the volume and to where;
-- and ios/System/Config.cpp, which says what is replaced.
use saoirse.Prelude.{
  ℕ, ◌-◌, Bool, false, ◌&&◌, ◌||◌, Option, none, some, List, [], ◌∷◌, ◌++◌, ltb, ◌==◌,
  if◌then◌else◌, length, take, drop, codes, has_prefix,
}
use saoirse.EmuFs.Types.{isfs_max_path}

-- `path[0] == c`; a string that is empty has its terminator there
abbrev pub starts_with_char : ℕ → List ℕ → Bool
starts_with_char c [] = false
starts_with_char c (d ∷ p) = d == c

-- `IsPathValid`: `strnlen` counts at most 64 bytes
unfoldable pub is_path_valid : List ℕ → Bool
is_path_valid path =
    starts_with_char b'/' path && ltb (length (take isfs_max_path path)) isfs_max_path

-- `Config::IsISFSPathReplaced`
unfoldable pub is_isfs_path_replaced : List ℕ → Bool
unfolding has_prefix
is_isfs_path_replaced path =
    has_prefix path (codes "/title/00010000/") || has_prefix path (codes "/title/00010004/")

-- `IsPathReplaced`
unfoldable pub is_path_replaced : List ℕ → Bool
is_path_replaced path = if is_path_valid path then is_isfs_path_replaced path else false

-- `GetRedirectedPath` into a buffer of `len` bytes: a valid path begins with the separator that
-- `strchr` looks for, and `snprintf` writes `len - 1` bytes at most
unfoldable pub get_redirected_path : List ℕ → ℕ → Option (List ℕ)
get_redirected_path path len =
    if is_path_valid path then some (take (len - 1) (codes "0:" ++ drop 1 path)) else none
