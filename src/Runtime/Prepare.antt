-- ===== src/Runtime/Prepare.antt =====
-- asea_prepare_script_stack_common of src/angelsea/detail/runtime.cpp and its two variants: the call
-- stack gets a frame with the state of the caller, and the stack pointer moves below the variables
-- of the called function. Each returns the C function's result, 0 for success. A pointer comparison
-- `sp - n < block` is written without the difference, which must not stop at 0. The space is asked
-- for when the context has the frame already.
use angelsea.Common.{
  ℕ, zero, suc, ◌+◌, ◌-◌, ◌*◌, ◌%◌, ◌^◌, Bool, true, false, ◌&&◌, Option, none, some, [], ◌∷◌, ◌++◌,
  ◌==◌, ltb, leb, if◌then◌else◌,
}
use angelsea.Runtime.State.{CallStack, Event, Context, CalledFunction, ScriptEngine, store}

-- The test for a call stack that must not grow further, in 32-bit arithmetic.
unfoldable pub is_too_big : ScriptEngine → ℕ → Bool
is_too_big e old_length =
    ltb 0 e.max_call_stack_size
    && leb (e.max_call_stack_size * e.callstack_frame_size % 2 ^ 32) old_length

-- Space for one frame more; none stands for the stack overflow.
unfoldable pub grow : ScriptEngine → CallStack → Option CallStack
grow e cs =
    if leb cs.capacity cs.length
    then if is_too_big e cs.length
      then none
      else some (e.allocate_no_construct ((cs.length + 10 * e.callstack_frame_size) % 2 ^ 32) cs)
    else some cs

-- target[0] to target[4].
unfoldable pub store_frame : ℕ → ℕ → ℕ → ℕ → ℕ → ℕ → (ℕ → ℕ) → ℕ → ℕ
store_frame target fp function pc sp index m = store (target + 4) index (
    store (target + 3) sp (store (target + 2) pc (store (target + 1) function (store target fp m))))

-- The call state is stored and the function is entered.
unfoldable pub push_call_state :
    ScriptEngine → Context → CalledFunction → ℕ → ℕ → ℕ → CallStack → Context
push_call_state e c fn pc sp fp cs =
    let cs' = e.set_length_no_allocate ((cs.length + e.callstack_frame_size) % 2 ^ 32) cs in
    record c {
      call_stack = record cs' {
        words = store_frame cs.length fp c.current_function pc sp c.stack_index cs'.words;
      };
      current_function = fn.address;
      stack_pointer = sp;
    }

-- With pointers of two dwords.
abbrev pub num_dwords : CalledFunction → ℕ
num_dwords fn =
    fn.space_needed_for_arguments
    + (if fn.has_object_type then 2 else 0)
    + (if fn.does_return_on_stack then 2 else 0)

-- memcpy of dwords.
abbrev pub memcpy : ℕ → ℕ → ℕ → (ℕ → ℕ) → ℕ → ℕ
memcpy dst src n m k = if leb dst k && ltb k (dst + n) then m (src + (k - dst)) else m k

abbrev pub memset_zero : ℕ → ℕ → (ℕ → ℕ) → ℕ → ℕ
memset_zero dst n m k = if leb dst k && ltb k (dst + n) then 0 else m k

-- The arguments are copied if the stack pointer has moved to another block.
unfoldable pub copy_arguments : CalledFunction → ℕ → Context → Context
copy_arguments fn sp c =
    if c.stack_pointer == sp
    then c
    else record c { memory = memcpy c.stack_pointer sp (num_dwords fn) c.memory }

unfoldable pub lacks_space : ScriptEngine → CalledFunction → ℕ → Context → Bool
lacks_space e fn sp c = ltb sp (c.stack_blocks c.stack_index + (fn.stack_needed + e.reserve_stack))

-- Space on the stack: new_sp and the context, or none where there is no space.
unfoldable pub use_reserved : CalledFunction → ℕ → Bool × Context → Option ℕ × Context
use_reserved fn sp (true, c) = let c' = copy_arguments fn sp c in (some c'.stack_pointer, c')
use_reserved fn sp (false, c) = (none, c)

unfoldable pub make_room : ScriptEngine → CalledFunction → ℕ → Context → Option ℕ × Context
make_room e fn sp c =
    if lacks_space e fn sp c
    then use_reserved fn sp (e.reserve_stack_space fn.stack_needed c)
    else (some sp, c)

unfoldable pub enter_function : CalledFunction → Option ℕ × Context → ℕ × Context
enter_function fn (none, c) = (1, c)
enter_function fn (some new_sp, c) = (
  0,
  record c {
    stack_pointer = c.stack_pointer - fn.variable_space;
    program_pointer = fn.byte_code;
    stack_frame_pointer = new_sp;
  },
)

unfoldable pub prepare_from :
    ScriptEngine → Context → CalledFunction → ℕ → ℕ → ℕ → Option CallStack → ℕ × Context
prepare_from e c fn pc sp fp none =
    (1, record c { events = c.events ++ Event.set_internal_exception "TXT_STACK_OVERFLOW" ∷ [] })
prepare_from e c fn pc sp fp (some cs) =
    enter_function fn (make_room e fn sp (push_call_state e c fn pc sp fp cs))

unfoldable pub asea_prepare_script_stack :
    ScriptEngine → Context → CalledFunction → ℕ → ℕ → ℕ → ℕ × Context
asea_prepare_script_stack e c fn pc sp fp = prepare_from e c fn pc sp fp (grow e c.call_stack)

-- The variables are cleared after success.
unfoldable pub clear_variables : CalledFunction → ℕ × Context → ℕ × Context
clear_variables fn (zero, c) =
    (0, record c { memory = memset_zero c.stack_pointer fn.variable_space c.memory })
clear_variables fn (suc k, c) = (1, c)

unfoldable pub asea_prepare_script_stack_and_vars :
    ScriptEngine → Context → CalledFunction → ℕ → ℕ → ℕ → ℕ × Context
asea_prepare_script_stack_and_vars e c fn pc sp fp =
    clear_variables fn (asea_prepare_script_stack e c fn pc sp fp)
