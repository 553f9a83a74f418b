-- ===== src/Renderer/Context.antt =====
-- `RT64Context`: its calls of RT64 as values.
use hybrid_heaven_recomp.Prelude.{
  ℕ, ◌+◌, ◌%◌, ◌^◌, Bool, true, false, not, Option, none, some, if◌then◌else◌,
}

pub data Antialiasing : Type 0 where
  no_antialiasing msaa_2x msaa_4x msaa_8x other_antialiasing : Antialiasing

unfoldable pub to_rt64_msaa : Antialiasing → Antialiasing
to_rt64_msaa no_antialiasing = no_antialiasing
to_rt64_msaa msaa_2x = msaa_2x
to_rt64_msaa msaa_4x = msaa_4x
to_rt64_msaa msaa_8x = msaa_8x
to_rt64_msaa other_antialiasing = no_antialiasing

pub data SetupResult : Type 0 where
  success dynamic_libraries_not_found invalid_graphics_api : SetupResult
  graphics_api_not_found graphics_device_not_found other_failure : SetupResult

unfoldable pub translate : SetupResult → SetupResult
translate success = success
translate dynamic_libraries_not_found = dynamic_libraries_not_found
translate invalid_graphics_api = invalid_graphics_api
translate graphics_api_not_found = graphics_api_not_found
translate graphics_device_not_found = graphics_device_not_found
translate other_failure = graphics_device_not_found

unfoldable pub is_success : SetupResult → Bool
is_success success = true
is_success dynamic_libraries_not_found = false
is_success invalid_graphics_api = false
is_success graphics_api_not_found = false
is_success graphics_device_not_found = false
is_success other_failure = false

pub record Context : Type 0 where
  pub valid : Bool
  pub setup_result : SetupResult
  pub antialiasing : Antialiasing
  pub dl_count : ℕ
  pub frames : ℕ

-- The addresses of a task.
pub record DlTask : Type 0 where
  pub ucode : ℕ
  pub ucode_data : ℕ
  pub data_ptr : ℕ

-- `loadUCodeGBI` with two addresses, and the list that is processed, if it is.
pub record Processed : Type 0 where
  pub ucode : ℕ
  pub ucode_data : ℕ
  pub processed_list : Option ℕ

unfoldable pub physical_address : ℕ → ℕ
physical_address vaddr = vaddr % 2 ^ 24

-- The constructor, from what RT64's setup answers; `antialiasing` is that of its own settings.
unfoldable pub new_context : Antialiasing → SetupResult → Context
new_context antialiasing result = record {
  valid = is_success result;
  setup_result = translate result;
  antialiasing = antialiasing;
  dl_count = 0;
  frames = 0;
}

-- Whether the two configurations are equal, and the new one's antialiasing.
unfoldable pub update_config : Bool → Antialiasing → Context → Context × Bool
update_config same msaa s =
    if not s.valid
    then (s, false)
    else if same
    then (s, true)
    else (record s { antialiasing = to_rt64_msaa msaa }, true)

-- `skip` is HH_SKIP_DL.
unfoldable pub send_dl_rt64 : Bool → DlTask → Context → Context × Option Processed
send_dl_rt64 skip task s = if not s.valid then (s, none) else (
  record s { dl_count = (s.dl_count + 1) % 2 ^ 64 },
  some record {
    ucode = physical_address task.ucode;
    ucode_data = physical_address task.ucode_data;
    processed_list = if skip then none else some (physical_address task.data_ptr);
  },
)

-- With whether RT64's `updateScreen` is called.
unfoldable pub update_screen : Context → Context × Bool
update_screen s =
    if s.valid then (record s { frames = (s.frames + 1) % 2 ^ 64 }, true) else (s, false)

-- With whether RT64's `end` is called.
unfoldable pub shutdown : Context → Context × Bool
shutdown s = if s.valid then (record s { valid = false }, true) else (s, false)
