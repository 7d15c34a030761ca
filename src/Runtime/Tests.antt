-- ===== src/Runtime/Tests.antt =====
-- A call that has to move to another block of the stack, its return, and arguments to clean.
use angelsea.Common.{
  ◌+◌, ◌≤◌, ◌≡◌, refl, List, [], ◌∷◌, ◌==◌, if◌then◌else◌, true, false, none, ◌⊎◌, ◌++◌, arith, inl,
  inr,
}
use angelsea.Runtime.State.{
  Event, CallStack, Context, CalledFunction, ScriptEngine, Arrays, Reserves,
}
use angelsea.Runtime.Prepare.{
  asea_prepare_script_stack, asea_prepare_script_stack_and_vars, prepare_from, grow, is_too_big,
  enter_function, make_room, lacks_space, push_call_state, use_reserved, copy_arguments,
  clear_variables,
}
use angelsea.Runtime.FastReturn.{fast_return}
use angelsea.Runtime.Frames.{frames, HasFrames}
use angelsea.Runtime.Pushes.{
  call_state, asea_prepare_script_stack-pushes, asea_prepare_script_stack-fails,
}
use angelsea.Runtime.Return.{
  Operation, Returned, operate, operate-bounded, fast_return-asea_prepare_script_stack,
}
use angelsea.Runtime.Room.{Started, asea_prepare_script_stack_and_vars-Started}
use angelsea.Runtime.CleanArgs.{CleanArg, asea_clean_args, asea_clean_args-twice}

abbrev engine : ScriptEngine
engine = record {
  callstack_frame_size = 5;
  reserve_stack = 2;
  max_call_stack_size = 3;
  allocate_no_construct = λ n cs. record cs { capacity = n };
  set_length_no_allocate = λ n cs. record cs { length = n };
  reserve_stack_space =
      λ n c. (true, record c { stack_index = 1; stack_pointer = c.stack_blocks 1 + (n + 12) });
}

abbrev arrays : Arrays engine
arrays = record {
  capacity_allocated = λ n cs. refl;
  length_allocated = λ n cs. refl;
  words_allocated = λ n cs k lt. refl;
  capacity_set = λ n cs le. refl;
  length_set = λ n cs le. refl;
  words_set = λ n cs k le lt. refl;
}

abbrev reserves : Reserves engine
reserves = record {
  call_stack_kept = λ n c. refl;
  current_function_kept = λ n c. refl;
  memory_kept = λ n c. refl;
  space_found = λ n c ok. omega arith;
}

abbrev empty_stack : CallStack
empty_stack = record { length = 0; capacity = 0; words = λ k. 0 }

-- A stack of three frames, which is as large as the engine allows.
abbrev full_stack : CallStack
full_stack = record { length = 15; capacity = 15; words = λ k. 7 }

abbrev context : CallStack → Context
context cs = record {
  call_stack = cs;
  current_function = 41;
  stack_blocks = λ i. if i == 0 then 100 else 1000;
  stack_index = 0;
  program_pointer = 500;
  stack_pointer = 105;
  stack_frame_pointer = 107;
  object_type = 0;
  object_register = 0;
  memory = λ k. k;
  finished = false;
  events = [];
}

abbrev callee : CalledFunction
callee = record {
  address = 42;
  stack_needed = 8;
  variable_space = 3;
  byte_code = 600;
  space_needed_for_arguments = 2;
  has_object_type = true;
  does_return_on_stack = false;
}

abbrev no_frames : HasFrames engine 12 empty_stack 0
no_frames = record {
  room = 0;
  length_is = refl;
  capacity_is = refl;
  fits = omega arith;
  bounded = omega arith;
}

abbrev three_frames : HasFrames engine 13 full_stack 3
three_frames = record {
  room = 3;
  length_is = refl;
  capacity_is = refl;
  fits = omega arith;
  bounded = omega arith;
}

-- The new stack pointer is in the second block.
moves :
    (asea_prepare_script_stack engine (context empty_stack) callee 501 105 107).1.stack_pointer
    ≡ 1017
unfolding asea_prepare_script_stack prepare_from grow is_too_big enter_function make_room
    lacks_space push_call_state use_reserved copy_arguments
moves = refl

enters : (asea_prepare_script_stack engine (context empty_stack) callee 501 105 107).0 ≡ 0
unfolding asea_prepare_script_stack prepare_from grow is_too_big enter_function make_room
    lacks_space push_call_state use_reserved copy_arguments
enters = refl

enters_and_clears :
    (asea_prepare_script_stack_and_vars engine (context empty_stack) callee 501 105 107).0 ≡ 0
unfolding asea_prepare_script_stack_and_vars clear_variables asea_prepare_script_stack prepare_from
    grow is_too_big enter_function make_room lacks_space push_call_state use_reserved copy_arguments
enters_and_clears = refl

overflows : (asea_prepare_script_stack engine (context full_stack) callee 501 105 107).0 ≡ 1
unfolding asea_prepare_script_stack prepare_from grow is_too_big enter_function make_room
    lacks_space push_call_state use_reserved copy_arguments
overflows = refl

pushes_example :
    let c' = (asea_prepare_script_stack engine (context empty_stack) callee 501 105 107).1 in
    HasFrames engine 12 c'.call_stack 1
    × (frames 5 1 c'.call_stack.words
        ≡ call_state (context empty_stack) 501 105 107 ∷ frames 5 0 empty_stack.words)
    × (c'.current_function ≡ 42)
pushes_example =
    asea_prepare_script_stack-pushes engine arrays 12 (omega arith) (omega arith) reserves
      (context empty_stack) callee 501 105 107 0 no_frames (inl (omega arith)) enters

fails_example :
    let c = context full_stack in
    let c' = (asea_prepare_script_stack engine c callee 501 105 107).1 in
    ((grow engine full_stack ≡ none)
      × (c' ≡ record c {
        events = c.events ++ Event.set_internal_exception "TXT_STACK_OVERFLOW" ∷ [];
      }))
    ⊎ ((lacks_space engine callee 105 c ≡ true)
        × HasFrames engine 13 c'.call_stack 4
        × (frames 5 4 c'.call_stack.words ≡ call_state c 501 105 107 ∷ frames 5 3 full_stack.words)
        × (c'.current_function ≡ 42))
fails_example =
    asea_prepare_script_stack-fails engine arrays 13 (omega arith) (omega arith) reserves
      (context full_stack) callee 501 105 107 3 three_frames (inr (omega arith, omega arith))
      overflows

goes_back_example :
    Returned engine 12 4 0
      (call_state (context empty_stack) 501 105 107)
      (frames 5 0 empty_stack.words)
      (fast_return engine 4
        (asea_prepare_script_stack engine (context empty_stack) callee 501 105 107).1)
goes_back_example =
    fast_return-asea_prepare_script_stack engine arrays 12 (omega arith) (omega arith) reserves
      (context empty_stack)
      (asea_prepare_script_stack engine (context empty_stack) callee 501 105 107).1 callee 501 105
      107 4 0 no_frames (inl (omega arith)) enters refl (λ h. omega (arith, h))

bounded_example :
    let l =
      Operation.calls callee 501 105 107
      ∷ Operation.calls callee 602 1010 1020
      ∷ Operation.returns 4
      ∷ [] in
    let cs = (operate engine l (context empty_stack)).call_stack in
    (cs.length ≤ cs.capacity) × (cs.capacity ≤ 60)
bounded_example =
    operate-bounded engine arrays 12 (omega arith) (omega arith) reserves
      (Operation.calls callee 501 105 107
        ∷ Operation.calls callee 602 1010 1020
        ∷ Operation.returns 4
        ∷ [])
      (context empty_stack) 0 no_frames (omega arith) (omega arith)

variables_example :
    Started engine callee 105
      (λ k. k)
      (asea_prepare_script_stack_and_vars engine (context empty_stack) callee 501 105 107).1
variables_example =
    asea_prepare_script_stack_and_vars-Started engine reserves (context empty_stack) callee 501 105
      107 (omega arith) enters_and_clears

-- Two arguments to release, the first of which is named twice.
abbrev references : List CleanArg
references =
    record { off = 0; op = 0; release = 9; destruct = 0 }
    ∷ record { off = 2; op = 0; release = 8; destruct = 0 }
    ∷ record { off = 0; op = 0; release = 9; destruct = 0 }
    ∷ []

twice_example :
    let c = asea_clean_args 30 references (context empty_stack) in
    asea_clean_args 30 references c ≡ c
twice_example = asea_clean_args-twice 30 references (context empty_stack) (refl, (refl, (refl, tt)))
