-- ===== src/Start/Paths.antt =====
-- `settings_directory`, `executable_directory` and `resolve_input_path`. Paths are bytes; what
-- `std::filesystem` and the system answer is a parameter.
use hybrid_heaven_recomp.Prelude.{
  ℕ, Bool, true, false, not, ◌&&◌, ◌||◌, Option, none, some, List, [], ◌∷◌, if◌then◌else◌,
}

abbrev pub Path' : Type 0
Path' = List ℕ

pub data System : Type 0 where
  windows mac_os other_system : System

-- `join` is the operator /, `self` the executable's path as the system tells it, and `absolute` what the
-- library makes of a path; either may fail. The current path is the one that `main` has changed to.
pub record Paths : Type 0 where
  pub system : System
  pub join : Path' → Path' → Path'
  pub parent_path : Path' → Path'
  pub is_relative : Path' → Bool
  pub current_path : Path'
  pub portable : Bool
  pub local_app_data : Option (List ℕ)
  pub home : Option (List ℕ)
  pub xdg_data_home : Option (List ℕ)
  pub self : Option Path'
  pub absolute : Path' → Option Path'

abbrev pub is_nil : List ℕ → Bool
is_nil [] = true
is_nil (b ∷ bs) = false

abbrev pub library_application_support : List (List ℕ)
library_application_support =
    (b'L' ∷ b'i' ∷ b'b' ∷ b'r' ∷ b'a' ∷ b'r' ∷ b'y' ∷ [])
    ∷ (b'A' ∷ b'p' ∷ b'p' ∷ b'l' ∷ b'i' ∷ b'c' ∷ b'a' ∷ b't' ∷ b'i' ∷ b'o' ∷ b'n' ∷ b' ' ∷ b'S'
        ∷ b'u' ∷ b'p' ∷ b'p' ∷ b'o' ∷ b'r' ∷ b't' ∷ [])
    ∷ []

abbrev pub local_share : List (List ℕ)
local_share =
    (b'.' ∷ b'l' ∷ b'o' ∷ b'c' ∷ b'a' ∷ b'l' ∷ []) ∷ (b's' ∷ b'h' ∷ b'a' ∷ b'r' ∷ b'e' ∷ []) ∷ []

abbrev pub app_name : List ℕ
app_name =
    b'h' ∷ b'y' ∷ b'b' ∷ b'r' ∷ b'i' ∷ b'd' ∷ b'-' ∷ b'h' ∷ b'e' ∷ b'a' ∷ b'v' ∷ b'e' ∷ b'n' ∷ b'-'
    ∷ b'r' ∷ b'e' ∷ b'c' ∷ b'o' ∷ b'm' ∷ b'p' ∷ []

-- A path below a base.
unfoldable pub below : Paths → Path' → List (List ℕ) → Path'
below fs base [] = base
below fs base (name ∷ names) = below fs (fs.join base name) names

unfoldable pub under : Paths → Option (List ℕ) → List (List ℕ) → Path'
under fs none names = []
under fs (some base) names = below fs base names

unfoldable pub xdg_root : Paths → Option (List ℕ) → Path'
xdg_root fs none = under fs fs.home local_share
xdg_root fs (some []) = under fs fs.home local_share
xdg_root fs (some (b ∷ bs)) = b ∷ bs

unfoldable pub settings_root : Paths → System → Path'
settings_root fs windows = under fs fs.local_app_data []
settings_root fs mac_os = under fs fs.home library_application_support
settings_root fs other_system = xdg_root fs fs.xdg_data_home

unfoldable pub settings_directory : Paths → Path'
settings_directory fs =
    let root = settings_root fs fs.system in
    if fs.portable || is_nil root then fs.current_path else fs.join root app_name

unfoldable pub parent_of : Paths → Option Path' → Path'
parent_of fs none = []
parent_of fs (some path) = fs.parent_path path

unfoldable pub executable_directory : Paths → Path' → Path'
executable_directory fs argv0 = elim fs.self [
  | some path ↦ fs.parent_path path
  | none ↦ parent_of fs (fs.absolute argv0)
]

unfoldable pub resolve_input_path : Paths → Path' → Path' → Path'
resolve_input_path fs original_cwd path =
    if fs.is_relative path && not (is_nil original_cwd) then fs.join original_cwd path else path
