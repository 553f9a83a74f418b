-- ===== src/Sections/Functions/Order.antt =====
-- Which function an address resolves to once all are registered.
use native.Mathlib.Decide.{ℕ_discrete}
use hybrid_heaven_recomp.Prelude.{
  ℕ, ◌≡◌, refl, ap, sym, ◌∙◌, Bool, true, false, not, ◌&&◌, Option, none, some, List, [], ◌∷◌, ◌++◌,
  arith, ◌==◌, ne→==_false, if◌then◌else◌,
}
use hybrid_heaven_recomp.Sections.Functions.{
  Function, file_load_hook, file_load_streamed_hook, os_get_mem_size_4mb, lzkn64_decompress_trace,
  ai_set_next_buffer_trace, Environment, env_set, small_memory, when, registered, file_load_address,
  file_load_streamed_address, os_get_mem_size_address, lzkn_decompress_address,
  ai_set_next_buffer_address,
}

-- What an address resolves to after these calls of `add_loaded_function`, from what it resolved to before:
-- a function registered later replaces an earlier one at its address.
pub resolve_from : Option Function → List (ℕ × Function) → ℕ → Option Function
resolve_from found [] address = found
resolve_from found ((at, f) ∷ fs) address =
    resolve_from (if at == address then some f else found) fs address

resolve_from-append :
    (found : Option Function) (fs gs : List (ℕ × Function)) (address : ℕ)
    → resolve_from found (fs ++ gs) address
      ≡ resolve_from (resolve_from found fs address) gs address
unfolding resolve_from
resolve_from-append found [] gs address = refl
resolve_from-append found ((at, f) ∷ fs) gs address =
    resolve_from-append (if at == address then some f else found) fs gs address

resolve_from-when :
    (found : Option Function) (b : Bool) (at : ℕ) (f : Function) (address : ℕ)
    → resolve_from found (when b at f) address ≡ (if b && at == address then some f else found)
unfolding resolve_from
resolve_from-when found true at f address = refl
resolve_from-when found false at f address = refl

unfoldable pub or_before : Option Function → Option Function → Option Function
or_before (some f) before = some f
or_before none before = before

-- The last function that a list has for an address.
unfoldable pub last_of : List (ℕ × Function) → ℕ → Option Function
last_of [] address = none
last_of ((at, f) ∷ fs) address =
    or_before (last_of fs address) (if at == address then some f else none)

or_before_assoc :
    (o p q : Option Function) → or_before (or_before o p) q ≡ or_before o (or_before p q)
unfolding or_before
or_before_assoc (some f) p q = refl
or_before_assoc none p q = refl

or_before-if :
    (b : Bool) (f : Function) (found : Option Function)
    → (if b then some f else found) ≡ or_before (if b then some f else none) found
unfolding or_before
or_before-if true f found = refl
or_before-if false f found = refl

resolve_from-last_of :
    (found : Option Function) (fs : List (ℕ × Function)) (address : ℕ)
    → resolve_from found fs address ≡ or_before (last_of fs address) found
unfolding resolve_from last_of
resolve_from-last_of found [] address = unfold or_before in refl
resolve_from-last_of found ((at, f) ∷ fs) address =
    resolve_from-last_of (if at == address then some f else found) fs address
    ∙ (ap (or_before (last_of fs address)) (or_before-if (at == address) f found)
        ∙ sym (or_before_assoc (last_of fs address) (if at == address then some f else none) found))

resolve-hooks :
    (found : Option Function) (provided : List (ℕ × Function)) (env : Environment) (address : ℕ)
    → resolve_from found (registered provided env) address ≡ (
        if file_load_address == address
        then some file_load_hook
        else if not (env_set env.no_streamed_loads) && file_load_streamed_address == address
        then some file_load_streamed_hook
        else if small_memory env.expansion_pak && os_get_mem_size_address == address
        then some os_get_mem_size_4mb
        else if env_set env.debug_loads && lzkn_decompress_address == address
        then some lzkn64_decompress_trace
        else if env_set env.trace_ai && ai_set_next_buffer_address == address
        then some ai_set_next_buffer_trace
        else resolve_from found provided address)
unfolding registered resolve_from
resolve-hooks found provided env address = elim (ℕ_discrete file_load_address address) [
  | yes e ↦ rw (← e) (simp (resolve_from-append, resolve_from-when) (ground arith))
  | no n0 ↦ elim (ℕ_discrete file_load_streamed_address address) [
    | yes e ↦ rw (← e) (simp (resolve_from-append, resolve_from-when) (ground arith))
    | no n1 ↦ elim (ℕ_discrete os_get_mem_size_address address) [
      | yes e ↦ rw (← e) (simp (resolve_from-append, resolve_from-when) (ground arith))
      | no n2 ↦ elim (ℕ_discrete lzkn_decompress_address address) [
        | yes e ↦ rw (← e) (simp (resolve_from-append, resolve_from-when) (ground arith))
        | no n3 ↦ elim (ℕ_discrete ai_set_next_buffer_address address) [
          | yes e ↦ rw (← e) (simp (resolve_from-append, resolve_from-when) (ground arith))
          | no n4 ↦
              simp (resolve_from-append, resolve_from-when)
                (ground (
                  arith,
                  ne→==_false file_load_address address n0,
                  ne→==_false file_load_streamed_address address n1,
                  ne→==_false os_get_mem_size_address address n2,
                  ne→==_false lzkn_decompress_address address n3,
                  ne→==_false ai_set_next_buffer_address address n4,
                ))
        ]
      ]
    ]
  ]
]

-- Whatever is registered before, as the resident image is, and whatever the runtime's list provides: the
-- port's hooks win at their addresses, each if its variable asks for it. Any other address resolves to the
-- last function that the list has for it, and one that the list does not have to what it did before.
pub resolve-registered :
    (before : ℕ → Option Function) (provided : List (ℕ × Function)) (env : Environment)
    (address : ℕ)
    → resolve_from (before address) (registered provided env) address ≡ (
        if file_load_address == address
        then some file_load_hook
        else if not (env_set env.no_streamed_loads) && file_load_streamed_address == address
        then some file_load_streamed_hook
        else if small_memory env.expansion_pak && os_get_mem_size_address == address
        then some os_get_mem_size_4mb
        else if env_set env.debug_loads && lzkn_decompress_address == address
        then some lzkn64_decompress_trace
        else if env_set env.trace_ai && ai_set_next_buffer_address == address
        then some ai_set_next_buffer_trace
        else or_before (last_of provided address) (before address))
resolve-registered before provided env address =
    rw⁻¹ (resolve_from-last_of (before address) provided address)
      (resolve-hooks (before address) provided env address)
