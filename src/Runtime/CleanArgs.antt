-- ===== src/Runtime/CleanArgs.antt =====
-- asea_clean_args of src/angelsea/detail/runtime.cpp, which frees the arguments of a system call.
-- A pointer takes two dwords. What the called methods do to memory is not modelled: the calls are
-- events.
use angelsea.Common.{
  ℕ, ◌+◌, ◌*◌, ◌^◌, ◌≡◌, refl, List, [], ◌∷◌, ◌++◌, ◌==◌, ==_iff, if◌then◌else◌, if-intro, All,
  arith, ap, ◌∙◌,
}
use angelsea.Runtime.State.{Event, Context, store}

-- asSSystemFunctionInterface::SClean, with the release and destruct behaviours of its type.
pub record CleanArg : Type 0 where
  pub off : ℕ
  pub op : ℕ
  pub release : ℕ
  pub destruct : ℕ

unfoldable pub read_pointer : (ℕ → ℕ) → ℕ → ℕ
read_pointer m addr = m addr + m (addr + 1) * 2 ^ 32

unfoldable pub store_null : ℕ → (ℕ → ℕ) → ℕ → ℕ
store_null addr m = store addr 0 (store (addr + 1) 0 m)

-- op 0: release the object, if there is one.
unfoldable pub release_arg : ℕ → CleanArg → Context → Context
release_arg addr x c =
    let obj = read_pointer c.memory addr in
    if obj == 0 then c else record c {
      memory = store_null addr c.memory;
      events = c.events ++ Event.call_object_method obj x.release ∷ [];
    }

-- Other values: free the memory, after the destructor where op is 2.
unfoldable pub free_arg : ℕ → CleanArg → Context → Context
free_arg addr x c =
    let obj = read_pointer c.memory addr in
    let destructed = if x.op == 2 then Event.call_object_method obj x.destruct ∷ [] else [] in
    record c { events = c.events ++ destructed ++ Event.call_free obj ∷ [] }

unfoldable pub clean_arg : ℕ → CleanArg → Context → Context
clean_arg args x c =
    if x.op == 0 then release_arg (args + x.off) x c else free_arg (args + x.off) x c

unfoldable pub asea_clean_args : ℕ → List CleanArg → Context → Context
asea_clean_args args [] c = c
asea_clean_args args (x ∷ l) c = asea_clean_args args l (clean_arg args x c)

-- The argument is a reference to release.
abbrev pub Releases : CleanArg → Type 0
Releases x = x.op ≡ 0

read_pointer-store_null :
    (m : ℕ → ℕ) (addr k : ℕ)
    → (read_pointer m k ≡ 0 → read_pointer (store_null addr m) k ≡ 0)
      × (read_pointer (store_null addr m) addr ≡ 0)
unfolding read_pointer store_null
read_pointer-store_null m addr k = (λ h. ground (arith, h), ground arith)

-- A null pointer stays null.
release_arg-null :
    (addr k : ℕ) (x : CleanArg) (c : Context)
    → read_pointer c.memory k ≡ 0
    → read_pointer (release_arg addr x c).memory k ≡ 0
unfolding release_arg
release_arg-null addr k x c h =
    if-intro (λ c'. read_pointer c'.memory k ≡ 0) (read_pointer c.memory addr == 0) c _ (λ _. h)
      (λ _. (read_pointer-store_null c.memory addr k).0 h)

clean_arg-null :
    (args k : ℕ) (x : CleanArg) (c : Context)
    → read_pointer c.memory k ≡ 0
    → read_pointer (clean_arg args x c).memory k ≡ 0
unfolding clean_arg free_arg
clean_arg-null args k x c h =
    if-intro (λ c'. read_pointer c'.memory k ≡ 0) (x.op == 0) (release_arg (args + x.off) x c)
      (free_arg (args + x.off) x c) (λ _. release_arg-null (args + x.off) k x c h) (λ _. h)

asea_clean_args-null :
    (args k : ℕ) (l : List CleanArg) (c : Context)
    → read_pointer c.memory k ≡ 0
    → read_pointer (asea_clean_args args l c).memory k ≡ 0
unfolding asea_clean_args
asea_clean_args-null args k [] c h = h
asea_clean_args-null args k (x ∷ l) c h =
    asea_clean_args-null args k l (clean_arg args x c) (clean_arg-null args k x c h)

-- The slot of an argument to release is null afterwards.
Released : ℕ → (ℕ → ℕ) → CleanArg → Type 0
Released args m x = x.op ≡ 0 → read_pointer m (args + x.off) ≡ 0

clean_arg-Released :
    (args : ℕ) (x : CleanArg) (c : Context)
    → x.op ≡ 0
    → read_pointer (clean_arg args x c).memory (args + x.off) ≡ 0
unfolding clean_arg release_arg
clean_arg-Released args x c op =
    let addr = args + x.off in
    rw ((==_iff x.op 0).1 op) (
      if-intro (λ c'. read_pointer c'.memory addr ≡ 0) (read_pointer c.memory addr == 0) c _
        ((==_iff (read_pointer c.memory addr) 0).0)
        (λ _. (read_pointer-store_null c.memory addr addr).1))

asea_clean_args-Released :
    (args : ℕ) (l : List CleanArg) (c : Context)
    → All (Released args (asea_clean_args args l c).memory) l
unfolding asea_clean_args Released
asea_clean_args-Released args [] c = tt
asea_clean_args-Released args (x ∷ l) c =
    let c' = clean_arg args x c in
    (
      λ op. asea_clean_args-null args (args + x.off) l c' (clean_arg-Released args x c op),
      asea_clean_args-Released args l c',
    )

clean_arg-again :
    (args : ℕ) (x : CleanArg) (c : Context)
    → x.op ≡ 0
    → read_pointer c.memory (args + x.off) ≡ 0
    → clean_arg args x c ≡ c
unfolding clean_arg release_arg
clean_arg-again args x c op h =
    rw ((==_iff x.op 0).1 op, (==_iff (read_pointer c.memory (args + x.off)) 0).1 h) refl

asea_clean_args-null_slots :
    (args : ℕ) (l : List CleanArg) (c : Context)
    → All Releases l
    → All (Released args c.memory) l
    → asea_clean_args args l c ≡ c
unfolding asea_clean_args Released
asea_clean_args-null_slots args [] c ops h = refl
asea_clean_args-null_slots args (x ∷ l) c ops h =
    ap (asea_clean_args args l) (clean_arg-again args x c ops.0 (h.0 ops.0))
    ∙ asea_clean_args-null_slots args l c ops.1 h.1

-- Where all arguments to clean are references to release: cleaning them a second time does nothing,
-- so that no object is released again.
pub asea_clean_args-twice :
    (args : ℕ) (l : List CleanArg) (c : Context)
    → All Releases l
    → asea_clean_args args l (asea_clean_args args l c) ≡ asea_clean_args args l c
asea_clean_args-twice args l c ops =
    asea_clean_args-null_slots args l (asea_clean_args args l c) ops
      (asea_clean_args-Released args l c)
