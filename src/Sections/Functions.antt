-- ===== src/Sections/Functions.antt =====
-- src/sections.cpp, `register_runtime_functions` and `register_sections`: the functions that the port
-- puts in the runtime's map, by address.
pub mod Order
use hybrid_heaven_recomp.Prelude.{
  ℕ, ◌+◌, ◌*◌, Bool, true, false, not, Option, none, some, List, [], ◌∷◌, ◌++◌, ◌==◌, if◌then◌else◌,
}

-- `env_set`, from the variable's value in the environment.
unfoldable pub env_set : Option (List ℕ) → Bool
env_set none = false
env_set (some []) = false
env_set (some (c ∷ cs)) = not (c == b'0')

-- `runtime n` is the function of entry `n` of the generated list, `resident n` function `n` of the
-- resident image, which librecomp has registered before.
pub data Function : Type 0 where
  runtime : ℕ → Function
  resident : ℕ → Function
  file_load_hook file_load_streamed_hook os_get_mem_size_4mb : Function
  lzkn64_decompress_trace ai_set_next_buffer_trace : Function

pub record Environment : Type 0 where
  pub no_streamed_loads : Option (List ℕ)
  pub expansion_pak : Option (List ℕ)
  pub debug_loads : Option (List ℕ)
  pub trace_ai : Option (List ℕ)

abbrev pub file_load_address : ℕ
file_load_address = 0x8000_469c

abbrev pub file_load_streamed_address : ℕ
file_load_streamed_address = 0x8000_4838

abbrev pub os_get_mem_size_address : ℕ
os_get_mem_size_address = 0x8002_c0b0

abbrev pub lzkn_decompress_address : ℕ
lzkn_decompress_address = 0x8000_3824

abbrev pub ai_set_next_buffer_address : ℕ
ai_set_next_buffer_address = 0x8003_4f70

-- HH_EXPANSION_PAK=0 reports 4 MB.
unfoldable pub small_memory : Option (List ℕ) → Bool
small_memory none = false
small_memory (some []) = false
small_memory (some (c ∷ cs)) = c == b'0'

abbrev pub when : Bool → ℕ → Function → List (ℕ × Function)
when true address f = (address, f) ∷ []
when false address f = []

-- The calls of `add_loaded_function`, in order; the first come from the generated list.
unfoldable pub registered : List (ℕ × Function) → Environment → List (ℕ × Function)
registered runtime_provided env =
    runtime_provided
    ++ ((file_load_address, file_load_hook) ∷ [])
    ++ when (not (env_set env.no_streamed_loads)) file_load_streamed_address file_load_streamed_hook
    ++ when (small_memory env.expansion_pak) os_get_mem_size_address os_get_mem_size_4mb
    ++ when (env_set env.debug_loads) lzkn_decompress_address lzkn64_decompress_trace
    ++ when (env_set env.trace_ai) ai_set_next_buffer_address ai_set_next_buffer_trace

-- `os_get_mem_size_4mb` leaves this in `r2`.
unfoldable pub mem_size_4mb : ℕ
mem_size_4mb = 4 * 1024 * 1024
