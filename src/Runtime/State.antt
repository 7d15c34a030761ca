-- ===== src/Runtime/State.antt =====
-- The parts of the engine's context that src/angelsea/detail/runtime.cpp reads and writes. A pointer
-- to a dword is the number of its dword, memory is a function from dwords to their values.
use angelsea.Common.{ℕ, ◌+◌, ◌≤◌, ◌≡◌, Bool, true, String, List, ◌==◌, ◌<◌, if◌then◌else◌}

-- m_callStack, an array of pointer-sized words: `words` has those of its buffer.
pub record CallStack : Type 0 where
  pub length : ℕ
  pub capacity : ℕ
  pub words : ℕ → ℕ

-- Calls of the engine, oldest first.
pub data Event : Type 0 where
  set_internal_exception : String → Event
  call_object_method : ℕ → ℕ → Event
  call_free : ℕ → Event
  add_ref : ℕ → Event

-- asCContext with the registers of the virtual machine.
pub record Context : Type 0 where
  pub call_stack : CallStack
  pub current_function : ℕ
  pub stack_blocks : ℕ → ℕ
  pub stack_index : ℕ
  pub program_pointer : ℕ
  pub stack_pointer : ℕ
  pub stack_frame_pointer : ℕ
  pub object_type : ℕ
  pub object_register : ℕ
  pub memory : ℕ → ℕ
  pub finished : Bool
  pub events : List Event

-- asCScriptFunction and its scriptData. `address` is the pointer to it.
pub record CalledFunction : Type 0 where
  pub address : ℕ
  pub stack_needed : ℕ
  pub variable_space : ℕ
  pub byte_code : ℕ
  pub space_needed_for_arguments : ℕ
  pub has_object_type : Bool
  pub does_return_on_stack : Bool

-- The engine: its constants, its property maxCallStackSize, the operations of its arrays, and
-- asCContext::ReserveStackSpace, which returns if it found space.
pub record ScriptEngine : Type 0 where
  pub callstack_frame_size : ℕ
  pub reserve_stack : ℕ
  pub max_call_stack_size : ℕ
  pub allocate_no_construct : ℕ → CallStack → CallStack
  pub set_length_no_allocate : ℕ → CallStack → CallStack
  pub reserve_stack_space : ℕ → Context → Bool × Context

-- The array operations keep the elements. A length within the capacity is set.
pub record Arrays (e : ScriptEngine) : Type 0 where
  pub capacity_allocated : (n : ℕ) (cs : CallStack) → (e.allocate_no_construct n cs).capacity ≡ n
  pub length_allocated :
      (n : ℕ) (cs : CallStack) → (e.allocate_no_construct n cs).length ≡ cs.length
  pub words_allocated :
      (n : ℕ) (cs : CallStack) (k : ℕ)
      → k < cs.length
      → (e.allocate_no_construct n cs).words k ≡ cs.words k
  pub capacity_set :
      (n : ℕ) (cs : CallStack)
      → n ≤ cs.capacity
      → (e.set_length_no_allocate n cs).capacity ≡ cs.capacity
  pub length_set :
      (n : ℕ) (cs : CallStack) → n ≤ cs.capacity → (e.set_length_no_allocate n cs).length ≡ n
  pub words_set :
      (n : ℕ) (cs : CallStack) (k : ℕ)
      → n ≤ cs.capacity
      → k < cs.length
      → (e.set_length_no_allocate n cs).words k ≡ cs.words k

-- ReserveStackSpace, which only moves the stack pointer to another block: it leaves the call stack,
-- the current function and memory alone, and where it returns true there is the space it was asked
-- for, with the reserve.
pub record Reserves (e : ScriptEngine) : Type 0 where
  pub call_stack_kept :
      (n : ℕ) (c : Context) → (e.reserve_stack_space n c).1.call_stack ≡ c.call_stack
  pub current_function_kept :
      (n : ℕ) (c : Context) → (e.reserve_stack_space n c).1.current_function ≡ c.current_function
  pub memory_kept : (n : ℕ) (c : Context) → (e.reserve_stack_space n c).1.memory ≡ c.memory
  pub space_found :
      (n : ℕ) (c : Context)
      → (e.reserve_stack_space n c).0 ≡ true
      → let c' = (e.reserve_stack_space n c).1 in
        c'.stack_blocks c'.stack_index + (n + e.reserve_stack) ≤ c'.stack_pointer

-- A store to an element of an array or of memory.
abbrev pub store : ℕ → ℕ → (ℕ → ℕ) → ℕ → ℕ
store i w m k = if k == i then w else m k
