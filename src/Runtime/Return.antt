-- ===== src/Runtime/Return.antt =====
-- The fast return of src/angelsea/detail/bytecode2c.cpp against the call of
-- src/angelsea/detail/runtime.cpp, and the size of the call stack over many calls.
use native.Mathlib.Nat.{mul-le-mul_right}
use angelsea.Common.{
  ℕ, zero, suc, ◌+◌, ◌*◌, ◌%◌, ◌^◌, ◌-◌, ◌≤◌, ◌<◌, ◌≡◌, ◌≢◌, refl, ap, true, false, List, [], ◌∷◌,
  inl, inr, Bool-cases, arith, ◌==◌, ◌||◌,
}
use angelsea.Runtime.State.{Context, CalledFunction, ScriptEngine, Arrays, Reserves}
use angelsea.Runtime.Prepare.{asea_prepare_script_stack}
use angelsea.Runtime.FastReturn.{fast_return, leave_frame}
use angelsea.Runtime.Frames.{Frame, frame_at, frames, HasFrames, GrowthFits}
use angelsea.Runtime.Pushes.{
  call_state, asea_prepare_script_stack-pushes, asea_prepare_script_stack-HasFrames,
}

-- What the fast return restores: the state of the caller, which frame `f` has, and the frames `l`.
pub record Returned (e : ScriptEngine) (bound pop n : ℕ) (f : Frame) (l : List Frame) (c' : Context)
    : Type 0 where
  pub frame_pointer_is : c'.stack_frame_pointer ≡ f.frame_pointer
  pub function_is : c'.current_function ≡ f.function
  pub program_pointer_is : c'.program_pointer ≡ f.program_pointer
  pub stack_pointer_is : c'.stack_pointer ≡ f.stack_pointer + pop
  pub stack_index_is : c'.stack_index ≡ f.stack_index % 2 ^ 32
  pub has_frames : HasFrames e bound c'.call_stack n
  pub frames_are : frames e.callstack_frame_size n c'.call_stack.words ≡ l

leave_frame-Returned :
    (e : ScriptEngine) (bound pop n : ℕ) (c : Context) (f : Frame) (l : List Frame)
    → HasFrames e bound c.call_stack (suc n)
    → frames e.callstack_frame_size (suc n) c.call_stack.words ≡ f ∷ l
    → Returned e bound pop n f l (leave_frame (n * e.callstack_frame_size) pop c)
unfolding leave_frame frames
leave_frame-Returned e bound pop n c f l h is =
    let top : frame_at c.call_stack.words (n * e.callstack_frame_size) ≡ f = cc is in
    record {
      frame_pointer_is = ap (λ (x : Frame). x.frame_pointer) top;
      function_is = ap (λ (x : Frame). x.function) top;
      program_pointer_is = ap (λ (x : Frame). x.program_pointer) top;
      stack_pointer_is = ap (λ (x : Frame). x.stack_pointer + pop) top;
      stack_index_is = ap (λ (x : Frame). x.stack_index % 2 ^ 32) top;
      has_frames = record {
        room = h.room;
        length_is = refl;
        capacity_is = h.capacity_is;
        fits = omega (arith, h.fits);
        bounded = h.bounded;
      };
      frames_are = cc is;
    }

-- There is a frame to return to.
has_caller :
    (e : ScriptEngine) (bound pop n : ℕ) (c : Context) (f : Frame) (l : List Frame)
    → 5 ≤ e.callstack_frame_size
    → HasFrames e bound c.call_stack (suc n)
    → frames e.callstack_frame_size (suc n) c.call_stack.words ≡ f ∷ l
    → f.frame_pointer ≢ 0
    → fast_return e pop c ≡ leave_frame (n * e.callstack_frame_size) pop c
unfolding fast_return frames
has_caller e bound pop n c f l five h is nonzero =
    let size = e.callstack_frame_size in
    let top : frame_at c.call_stack.words (n * size) ≡ f = cc is in
    let fp : c.call_stack.words (n * size) ≡ f.frame_pointer =
      ap (λ (x : Frame). x.frame_pointer) top in
    let below : c.call_stack.length - size ≡ n * size = omega (arith, h.length_is) in
    let tall : (c.call_stack.length == 0) ≡ false = ground (arith, h.length_is, five) in
    let called : (c.call_stack.words (n * size) == 0) ≡ false = ground (arith, nonzero, fp) in
    rw (below, tall, called) refl

-- A call, or the return of a function.
pub data Operation : Type 0 where
  calls : CalledFunction → ℕ → ℕ → ℕ → Operation
  returns : ℕ → Operation

unfoldable pub operate : ScriptEngine → List Operation → Context → Context
operate e [] c = c
operate e (Operation.calls fn pc sp fp ∷ l) c =
    operate e l (asea_prepare_script_stack e c fn pc sp fp).1
operate e (Operation.returns pop ∷ l) c = operate e l (fast_return e pop c)

fast_return-HasFrames :
    (e : ScriptEngine) (bound pop n : ℕ) (c : Context)
    → 5 ≤ e.callstack_frame_size
    → HasFrames e bound c.call_stack n
    → (m : ℕ) × HasFrames e bound (fast_return e pop c).call_stack m
unfolding fast_return leave_frame
fast_return-HasFrames e bound pop zero c five h =
    let empty : (c.call_stack.length == 0) ≡ true = ground (arith, h.length_is) in
    (zero, rw empty h)
fast_return-HasFrames e bound pop (suc n) c five h =
    let new_len = c.call_stack.length - e.callstack_frame_size in
    elim (Bool-cases (c.call_stack.length == 0 || c.call_stack.words new_len == 0)) [
      | inl last ↦ (suc n, rw last h)
      | inr caller ↦ (
        n,
        rw caller (record {
          room = h.room;
          length_is = omega (arith, h.length_is);
          capacity_is = h.capacity_is;
          fits = omega (arith, h.fits);
          bounded = h.bounded;
        }),
      )
    ]

module _ (e : ScriptEngine) (a : Arrays e) (bound : ℕ) (five : 5 ≤ e.callstack_frame_size)
    (small : bound * e.callstack_frame_size < 2 ^ 32) (r : Reserves e) where
  -- For a caller with a frame pointer that is not null and a call stack of frames that may grow
  -- within the bound, which fits 32 bits: a function that asea_prepare_script_stack has entered, and
  -- that leaves the call stack as it was when it was entered, returns to its caller: the frame
  -- pointer, the current function, the program pointer, the stack pointer less the arguments and the
  -- index of the stack block (32 bits of it) are the caller's, and the call stack has its frames.
  pub fast_return-asea_prepare_script_stack :
      (c d : Context) (fn : CalledFunction) (pc sp fp pop n : ℕ)
      → HasFrames e bound c.call_stack n
      → GrowthFits e bound n
      → (asea_prepare_script_stack e c fn pc sp fp).0 ≡ 0
      → d.call_stack ≡ (asea_prepare_script_stack e c fn pc sp fp).1.call_stack
      → fp ≢ 0
      → Returned e bound pop n
          (call_state c pc sp fp)
          (frames e.callstack_frame_size n c.call_stack.words)
          (fast_return e pop d)
  fast_return-asea_prepare_script_stack c d fn pc sp fp pop n h g ok same nonzero =
      let (x, y, z) =
        asea_prepare_script_stack-pushes e a bound five small r c fn pc sp fp n h g ok in
      let f = call_state c pc sp fp in
      let l = frames e.callstack_frame_size n c.call_stack.words in
      let has : HasFrames e bound d.call_stack (suc n) = rw same x in
      let is : frames e.callstack_frame_size (suc n) d.call_stack.words ≡ f ∷ l = rw same y in
      rw (has_caller e bound pop n d f l five has is nonzero)
        (leave_frame-Returned e bound pop n d f l has is)

  -- Where the engine limits the call stack, and the bound, which is at least nine frames more than the
  -- limit and holds the buffer, fits 32 bits: whatever calls and returns follow one another,
  -- failed calls included, the call stack stays within its buffer, and its buffer within the bound.
  pub operate-bounded :
      (l : List Operation) (c : Context) (n : ℕ)
      → HasFrames e bound c.call_stack n
      → 1 ≤ e.max_call_stack_size
      → e.max_call_stack_size + 9 ≤ bound
      → let cs = (operate e l c).call_stack in
        (cs.length ≤ cs.capacity) × (cs.capacity ≤ bound * e.callstack_frame_size)
  unfolding operate
  operate-bounded [] c n h one limit =
      let up = mul-le-mul_right e.callstack_frame_size h.fits in
      let top = mul-le-mul_right e.callstack_frame_size h.bounded in
      (omega (arith, up, h.length_is, h.capacity_is), omega (arith, top, h.capacity_is))
  operate-bounded (Operation.calls fn pc sp fp ∷ l) c n h one limit =
      let (m, k) =
        asea_prepare_script_stack-HasFrames e a bound five small r c fn pc sp fp n h
          (inr (one, limit)) in
      operate-bounded l (asea_prepare_script_stack e c fn pc sp fp).1 m k one limit
  operate-bounded (Operation.returns pop ∷ l) c n h one limit =
      let (m, k) = fast_return-HasFrames e bound pop n c five h in
      operate-bounded l (fast_return e pop c) m k one limit
