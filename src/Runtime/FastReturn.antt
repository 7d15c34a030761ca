-- ===== src/Runtime/FastReturn.antt =====
-- What the C code does that src/angelsea/detail/bytecode2c.cpp emits for asBC_RET with
-- experimental_fast_script_return: the caller's state is read from the top frame of the call stack.
-- The value register, which is written back to the virtual machine, is left out.
use angelsea.Common.{ℕ, ◌+◌, ◌-◌, ◌^◌, ◌%◌, true, ◌||◌, ◌==◌, if◌then◌else◌}
use angelsea.Runtime.State.{Context, ScriptEngine}

-- The frame at new_len is left; `pop` is the number of dwords of arguments, which the instruction
-- holds.
unfoldable pub leave_frame : ℕ → ℕ → Context → Context
leave_frame new_len pop c =
    let cs = c.call_stack in
    record c {
      stack_frame_pointer = cs.words new_len;
      current_function = cs.words (new_len + 1);
      program_pointer = cs.words (new_len + 2);
      stack_pointer = cs.words (new_len + 3) + pop;
      stack_index = cs.words (new_len + 4) % 2 ^ 32;
      call_stack = record cs { length = new_len };
    }

unfoldable pub fast_return : ScriptEngine → ℕ → Context → Context
fast_return e pop c =
    let new_len = c.call_stack.length - e.callstack_frame_size in
    if c.call_stack.length == 0 || c.call_stack.words new_len == 0
    then record c { finished = true }
    else leave_frame new_len pop c
