-- ===== src/Runtime/Frames.antt =====
-- The call stack of src/angelsea/detail/runtime.cpp as a list of frames, and the return of
-- asBC_RET from the frame that asea_prepare_script_stack pushed.
use native.Mathlib.Nat.{mul-le-mul_right, lt_of_mul-lt-mul_right}
use angelsea.Common.{
  some-inj, sym, ap, ◌∙◌, leb, Bool-cases, false, ◌%◌, ◌^◌, ◌⊎◌, ℕ, zero, suc, ◌+◌, ◌*◌, ◌≤◌, ◌<◌,
  ◌≡◌, refl, some, List, [], ◌∷◌, inl, inr, arith,
}
use angelsea.Runtime.State.{CallStack, ScriptEngine, Arrays}
use angelsea.Runtime.Prepare.{grow, is_too_big, store_frame}

pub record Frame : Type 0 where
  pub frame_pointer : ℕ
  pub function : ℕ
  pub program_pointer : ℕ
  pub stack_pointer : ℕ
  pub stack_index : ℕ

abbrev pub frame_at : (ℕ → ℕ) → ℕ → Frame
frame_at m target = record {
  frame_pointer = m target;
  function = m (target + 1);
  program_pointer = m (target + 2);
  stack_pointer = m (target + 3);
  stack_index = m (target + 4);
}

-- The lowest n frames of size `size`, the newest first.
unfoldable pub frames : ℕ → ℕ → (ℕ → ℕ) → List Frame
frames size zero m = []
frames size (suc n) m = frame_at m (n * size) ∷ frames size n m

-- A call stack of n frames, whose buffer has space for `room` frames.
pub record HasFrames (e : ScriptEngine) (bound : ℕ) (cs : CallStack) (n : ℕ) : Type 0 where
  pub room : ℕ
  pub length_is : cs.length ≡ n * e.callstack_frame_size
  pub capacity_is : cs.capacity ≡ room * e.callstack_frame_size
  pub fits : n ≤ room
  pub bounded : room ≤ bound

frame_at_cong :
    (m m' : ℕ → ℕ) (t : ℕ) → ((k : ℕ) → k < t + 5 → m' k ≡ m k) → frame_at m' t ≡ frame_at m t
frame_at_cong m m' t h =
    rw
      (
        h t (omega arith),
        h (t + 1) (omega arith),
        h (t + 2) (omega arith),
        h (t + 3) (omega arith),
        h (t + 4) (omega arith),
      )
      refl

pub frames_cong :
    (size n : ℕ) (m m' : ℕ → ℕ)
    → 5 ≤ size
    → ((k : ℕ) → k < n * size → m' k ≡ m k)
    → frames size n m' ≡ frames size n m
unfolding frames
frames_cong size zero m m' five h = refl
frames_cong size (suc n) m m' five h =
    let a = frame_at_cong m m' (n * size) (λ k lt. h k (omega (arith, lt, five))) in
    let b = frames_cong size n m m' five (λ k lt. h k (omega (arith, lt))) in rw (a, b) refl

pub store_frame-below : (t a b c d i k : ℕ) (m : ℕ → ℕ) → k < t → store_frame t a b c d i m k ≡ m k
unfolding store_frame
store_frame-below t a b c d i k m lt = ground arith

pub frame_at-store_frame :
    (t a b c d i : ℕ) (m : ℕ → ℕ)
    → frame_at (store_frame t a b c d i m) t ≡ record {
      frame_pointer = a;
      function = b;
      program_pointer = c;
      stack_pointer = d;
      stack_index = i;
    }
unfolding store_frame
frame_at-store_frame t a b c d i m = ground arith

-- What frames may be added: ten more fit the bound, or the engine's limit keeps within it.
abbrev pub GrowthFits : ScriptEngine → ℕ → ℕ → Type 0
GrowthFits e bound n =
    (n + 10 ≤ bound) ⊎ ((1 ≤ e.max_call_stack_size) × (e.max_call_stack_size + 9 ≤ bound))

module _ (e : ScriptEngine) (a : Arrays e) (bound : ℕ) (five : 5 ≤ e.callstack_frame_size)
    (small : bound * e.callstack_frame_size < 2 ^ 32) where
  -- The call stack `cs'` has the frames of `cs` and space for one more.
  pub record Grown (cs cs' : CallStack) (n : ℕ) : Type 0 where
    pub room : ℕ
    pub length_is : cs'.length ≡ cs.length
    pub capacity_is : cs'.capacity ≡ room * e.callstack_frame_size
    pub fits : suc n ≤ room
    pub bounded : room ≤ bound
    pub words_kept : (k : ℕ) → k < cs.length → cs'.words k ≡ cs.words k

  grown_bound :
      (n : ℕ)
      → GrowthFits e bound n
      → n ≤ bound
      → is_too_big e (n * e.callstack_frame_size) ≡ false
      → n + 10 ≤ bound
  unfolding is_too_big
  grown_bound n (inl h) le ok = h
  grown_bound n (inr (one, limit)) le ok =
      let size = e.callstack_frame_size in
      let top = mul-le-mul_right size limit in
      let max_small : e.max_call_stack_size * size < 2 ^ 32 = omega (arith, top, small) in
      let lt : n * size < e.max_call_stack_size * size = ground (arith, ok, max_small, one) in
      omega (arith, lt_of_mul-lt-mul_right size lt, limit)

  allocated-Grown :
      (cs : CallStack) (n : ℕ)
      → cs.length ≡ n * e.callstack_frame_size
      → n + 10 ≤ bound
      → Grown cs (e.allocate_no_construct ((cs.length + 10 * e.callstack_frame_size) % 2 ^ 32) cs) n
  allocated-Grown cs n len le =
      let size = e.callstack_frame_size in
      let up = mul-le-mul_right size le in
      let total : (cs.length + 10 * size) % 2 ^ 32 ≡ (n + 10) * size =
        omega (arith, up, small, len) in
      record {
        room = n + 10;
        length_is = a.length_allocated _ cs;
        capacity_is = a.capacity_allocated _ cs ∙ total;
        fits = omega arith;
        bounded = le;
        words_kept = a.words_allocated _ cs;
      }

  kept-Grown :
      (cs : CallStack) (n : ℕ)
      → HasFrames e bound cs n
      → leb cs.capacity cs.length ≡ false
      → Grown cs cs n
  kept-Grown cs n h free =
      let lt : n * e.callstack_frame_size < h.room * e.callstack_frame_size =
        ground (arith, free, h.length_is, h.capacity_is) in
      record {
        room = h.room;
        length_is = refl;
        capacity_is = h.capacity_is;
        fits = omega (arith, lt_of_mul-lt-mul_right e.callstack_frame_size lt);
        bounded = h.bounded;
        words_kept = λ k lt. refl;
      }

  pub grow-Grown :
      (cs cs' : CallStack) (n : ℕ)
      → HasFrames e bound cs n
      → GrowthFits e bound n
      → grow e cs ≡ some cs'
      → Grown cs cs' n
  unfolding grow
  grow-Grown cs cs' n h g got = elim (Bool-cases (leb cs.capacity cs.length)) [
    | inl full ↦ elim (Bool-cases (is_too_big e cs.length)) [
      | inl big ↦ absurd (cc (got, full, big))
      | inr ok ↦
          let le =
            grown_bound n g (omega (arith, h.fits, h.bounded))
              (ap (is_too_big e) (sym h.length_is) ∙ ok) in
          let same = some-inj _ cs' (rw (← got, full, ok) refl) in
          rw (← same) (allocated-Grown cs n h.length_is le)
    ]
    | inr free ↦ rw (← some-inj cs cs' (rw (← got, free) refl)) (kept-Grown cs n h free)
  ]
