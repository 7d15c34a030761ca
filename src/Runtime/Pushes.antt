-- ===== src/Runtime/Pushes.antt =====
-- asea_prepare_script_stack of src/angelsea/detail/runtime.cpp against a stack of frames: what it
-- does to the call stack is to push one frame.
use native.Mathlib.Nat.{mul-le-mul_right}
use angelsea.Common.{
  ℕ, suc, ◌+◌, ◌*◌, ◌%◌, ◌^◌, ◌≤◌, ◌<◌, ◌≡◌, refl, sym, ap, ◌∙◌, true, none, some, [], ◌∷◌, inl,
  inr, Option-cases, arith, ◌⊎◌, ◌++◌,
}
use angelsea.Runtime.State.{
  Event, CallStack, Context, CalledFunction, ScriptEngine, Arrays, Reserves,
}
use angelsea.Runtime.Prepare.{
  grow, push_call_state, store_frame, make_room, lacks_space, prepare_from,
  asea_prepare_script_stack,
}
use angelsea.Runtime.Keeps.{
  make_room-KeepsCall, enter_function-KeepsCall, push_call_state-current_function,
  push_call_state-lacks_space, enter_function-fails, make_room-lacks,
}
use angelsea.Runtime.Frames.{
  Frame, frame_at, frames, HasFrames, GrowthFits, Grown, grow-Grown, frames_cong, store_frame-below,
  frame_at-store_frame,
}

-- The frame that asea_prepare_script_stack pushes.
abbrev pub call_state : Context → ℕ → ℕ → ℕ → Frame
call_state c pc sp fp = record {
  frame_pointer = fp;
  function = c.current_function;
  program_pointer = pc;
  stack_pointer = sp;
  stack_index = c.stack_index;
}

module _ (e : ScriptEngine) (a : Arrays e) (bound : ℕ) (five : 5 ≤ e.callstack_frame_size)
    (small : bound * e.callstack_frame_size < 2 ^ 32) where
  push_call_state-pushes :
      (c : Context) (fn : CalledFunction) (pc sp fp n : ℕ) (cs : CallStack)
      → c.call_stack.length ≡ n * e.callstack_frame_size
      → Grown e a bound five small c.call_stack cs n
      → let c' = push_call_state e c fn pc sp fp cs in
        HasFrames e bound c'.call_stack (suc n)
        × (frames e.callstack_frame_size (suc n) c'.call_stack.words
            ≡ call_state c pc sp fp ∷ frames e.callstack_frame_size n c.call_stack.words)
  unfolding push_call_state frames
  push_call_state-pushes c fn pc sp fp n cs len g =
      let size = e.callstack_frame_size in
      let up = mul-le-mul_right size g.fits in
      let top = mul-le-mul_right size g.bounded in
      let total : (cs.length + size) % 2 ^ 32 ≡ suc n * size =
        omega (arith, g.length_is, len, up, top, small) in
      let le : (cs.length + size) % 2 ^ 32 ≤ cs.capacity =
        omega (arith, total, up, g.capacity_is) in
      let set = (e.set_length_no_allocate ((cs.length + size) % 2 ^ 32) cs).words in
      let m = store_frame cs.length fp c.current_function pc sp c.stack_index set in
      let new : frame_at m (n * size) ≡ call_state c pc sp fp =
        rw (← len, ← g.length_is)
          (frame_at-store_frame cs.length fp c.current_function pc sp c.stack_index set) in
      let old : frames size n m ≡ frames size n c.call_stack.words =
        frames_cong size n c.call_stack.words m five (λ k lt.
          let small_k : k < c.call_stack.length = rw len lt in
          let below : k < cs.length = rw g.length_is small_k in
          store_frame-below cs.length fp c.current_function pc sp c.stack_index k set below
          ∙ a.words_set _ cs k le below
          ∙ g.words_kept k small_k) in
      (
        record {
          room = g.room;
          length_is = a.length_set _ cs le ∙ total;
          capacity_is = a.capacity_set _ cs le ∙ g.capacity_is;
          fits = g.fits;
          bounded = g.bounded;
        },
        rw (new, old) refl,
      )

  -- What a call does to the call stack once there is space for its frame.
  abbrev Pushed : Context → ℕ → ℕ → ℕ → ℕ → Context → Type 0
  Pushed c pc sp fp n c' =
      HasFrames e bound c'.call_stack (suc n)
      × (frames e.callstack_frame_size (suc n) c'.call_stack.words
          ≡ call_state c pc sp fp ∷ frames e.callstack_frame_size n c.call_stack.words)

  module _ (r : Reserves e) where
    prepare_from-Pushed :
        (c : Context) (fn : CalledFunction) (pc sp fp n : ℕ) (cs : CallStack)
        → HasFrames e bound c.call_stack n
        → GrowthFits e bound n
        → grow e c.call_stack ≡ some cs
        → let c' = (prepare_from e c fn pc sp fp (some cs)).1 in
          Pushed c pc sp fp n c' × (c'.current_function ≡ fn.address)
    unfolding prepare_from
    prepare_from-Pushed c fn pc sp fp n cs h g got =
        let p = push_call_state e c fn pc sp fp cs in
        let x = make_room e fn sp p in
        let (k, f) = enter_function-KeepsCall fn p x (make_room-KeepsCall e r fn sp p) in
        let grown = grow-Grown e a bound five small c.call_stack cs n h g got in
        (
          rw k (push_call_state-pushes c fn pc sp fp n cs h.length_is grown),
          f ∙ push_call_state-current_function e c fn pc sp fp cs,
        )

    -- For a call stack of frames that may grow within the bound, which fits 32 bits: on success the
    -- call stack, read as frames, is the caller's call state pushed on the frames from before, and
    -- the called function is the current one. Its length stays a multiple of the size of a frame and
    -- its buffer within the bound.
    pub asea_prepare_script_stack-pushes :
        (c : Context) (fn : CalledFunction) (pc sp fp n : ℕ)
        → HasFrames e bound c.call_stack n
        → GrowthFits e bound n
        → (asea_prepare_script_stack e c fn pc sp fp).0 ≡ 0
        → let c' = (asea_prepare_script_stack e c fn pc sp fp).1 in
          HasFrames e bound c'.call_stack (suc n)
          × (frames e.callstack_frame_size (suc n) c'.call_stack.words
              ≡ call_state c pc sp fp ∷ frames e.callstack_frame_size n c.call_stack.words)
          × (c'.current_function ≡ fn.address)
    unfolding asea_prepare_script_stack prepare_from
    asea_prepare_script_stack-pushes c fn pc sp fp n h g ok =
        elim (Option-cases (grow e c.call_stack)) [
          | inl full ↦
              let one : 1 ≡ 0 = ap (λ o. (prepare_from e c fn pc sp fp o).0) (sym full) ∙ ok in
              absurd (omega (arith, one))
          | inr (cs, got) ↦
              let ((x, y), z) = prepare_from-Pushed c fn pc sp fp n cs h g got in rw got (x, y, z)
        ]

    -- For a call stack of frames that may grow within the bound, which fits 32 bits: where the call
    -- fails, either the call stack was full, and all that changes is that the engine has a stack
    -- overflow exception, or the stack has too little space: then the frame has been pushed and the
    -- called function is the current one.
    pub asea_prepare_script_stack-fails :
        (c : Context) (fn : CalledFunction) (pc sp fp n : ℕ)
        → HasFrames e bound c.call_stack n
        → GrowthFits e bound n
        → (asea_prepare_script_stack e c fn pc sp fp).0 ≡ 1
        → let c' = (asea_prepare_script_stack e c fn pc sp fp).1 in
          ((grow e c.call_stack ≡ none)
            × (c' ≡ record c {
              events = c.events ++ Event.set_internal_exception "TXT_STACK_OVERFLOW" ∷ [];
            }))
          ⊎ ((lacks_space e fn sp c ≡ true)
              × HasFrames e bound c'.call_stack (suc n)
              × (frames e.callstack_frame_size (suc n) c'.call_stack.words
                  ≡ call_state c pc sp fp ∷ frames e.callstack_frame_size n c.call_stack.words)
              × (c'.current_function ≡ fn.address))
    unfolding asea_prepare_script_stack prepare_from
    asea_prepare_script_stack-fails c fn pc sp fp n h g bad =
        elim (Option-cases (grow e c.call_stack)) [
          | inl full ↦ inl (full, rw full refl)
          | inr (cs, got) ↦
              let ((x, y), z) = prepare_from-Pushed c fn pc sp fp n cs h g got in
              let p = push_call_state e c fn pc sp fp cs in
              let one = ap (λ o. (prepare_from e c fn pc sp fp o).0) (sym got) ∙ bad in
              let lacks =
                make_room-lacks e fn sp p (enter_function-fails fn (make_room e fn sp p) one) in
              inr (rw got (push_call_state-lacks_space e c fn pc sp fp cs ∙ lacks, x, y, z))
        ]

    pub asea_prepare_script_stack-HasFrames :
        (c : Context) (fn : CalledFunction) (pc sp fp n : ℕ)
        → HasFrames e bound c.call_stack n
        → GrowthFits e bound n
        → (m : ℕ) × HasFrames e bound (asea_prepare_script_stack e c fn pc sp fp).1.call_stack m
    unfolding asea_prepare_script_stack prepare_from
    asea_prepare_script_stack-HasFrames c fn pc sp fp n h g =
        elim (Option-cases (grow e c.call_stack)) [
          | inl full ↦ (n, rw full h)
          | inr (cs, got) ↦ (suc n, rw got ((prepare_from-Pushed c fn pc sp fp n cs h g got).0.0))
        ]
