-- ===== src/Translate/Native/Refusal.antt =====
-- What a direct system call that src/angelsea/detail/bytecode2c.cpp refuses leaves in the state, on
-- the ABIs that it knows.
use angelsea.Common.{ℤ, pos, ltbℤ, Bool, true, false, ◌≡◌, Option, none, some, List, if◌then◌else◌}
use angelsea.Translate.CCode.{Piece, CType}
use angelsea.Translate.Engine.{Abi, CallConv, ScriptFunction}
use angelsea.Translate.State.{Ctx, FnState, M, ◌>>=◌, ◌>>◌, pure}
use angelsea.Translate.Calls.{SystemCall}
use angelsea.Translate.Native.Gather.{Gathered, Arg}
use angelsea.Translate.Native.Hidden.{gather}
use angelsea.Translate.Native.Emit.{adjust_object, emit_base_offset, load_virtual, declare_callable}
use angelsea.Translate.Native.Call.{
  finish_call, call_adjusted, emit_native_call, call_returning, emit_direct_system_call_native,
}
use angelsea.Translate.SystemCalls.{
  generic_call, emit_direct_system_call_generic, call_by_convention, emit_direct_system_call,
  Cleans,
}
use angelsea.Translate.Native.Returns.{
  Returns, IsTrue, IsSome, Returns-bind, Returns-then, Returns-if, Returns-true, returns,
}
use angelsea.Translate.Native.Silent.{
  DeclaresStructs, DeclaresStructs-refl, DeclaresStructs-trans, Silent, Silent-map_extern,
  Silent-return_c_type, Silent-gather_parameters,
}

-- Where the result is a refusal, structs have been declared at most.
SilentRefusal : M Bool → Type 0
SilentRefusal m = (s : FnState) → (m s).0 ≡ false → DeclaresStructs s (m s).1

abbrev pub is_generic : Abi → Bool
is_generic Abi.generic = true
is_generic _ = false

adjust_object-succeeds :
    (z : ℤ) (abi : Abi) → is_generic abi ≡ false → Returns IsTrue (adjust_object z abi)
unfolding adjust_object
adjust_object-succeeds z Abi.generic known = absurd (cc known)
adjust_object-succeeds z Abi.linux_gcc_aarch64 known = search returns
adjust_object-succeeds z Abi.macos_aarch64 known = search returns
adjust_object-succeeds z _ known = search returns

emit_base_offset-succeeds :
    (fn : ScriptFunction) (abi : Abi)
    → is_generic abi ≡ false
    → Returns IsTrue (emit_base_offset fn abi)
unfolding emit_base_offset
emit_base_offset-succeeds fn abi known =
    Returns-if IsTrue (ltbℤ (pos 0) fn.base_offset) _ _
      (adjust_object-succeeds fn.base_offset abi known) Returns-true

load_virtual-succeeds :
    (n : ℤ) (abi : Abi) → is_generic abi ≡ false → Returns IsSome (load_virtual n abi)
unfolding load_virtual
load_virtual-succeeds n Abi.generic known = absurd (cc known)
load_virtual-succeeds n Abi.windows_msvc_x86_64 known = search returns
load_virtual-succeeds n _ known = search returns

declare_callable-succeeds :
    (n : ℤ) (fn : ScriptFunction) (abi : Abi) (t : CType) (args : List Arg)
    → is_generic abi ≡ false
    → Returns IsSome (declare_callable n fn abi t args)
unfolding declare_callable
declare_callable-succeeds n fn abi t args known =
    let table = load_virtual-succeeds n abi known in search (returns, table) depth 8

-- Once its arguments have been gathered, a native call is emitted as a whole.
module _ (cleans : Cleans) (c : Ctx) (call : SystemCall) (fn : ScriptFunction) (t : CType)
    (g : Gathered) where
  finish_call-succeeds :
      (o : Option (List Piece)) → IsSome o → Returns IsTrue (finish_call cleans c call fn t g o)
  unfolding finish_call
  finish_call-succeeds none h = absurd (cc (h.1))
  finish_call-succeeds (some name) h = search returns depth 8

  call_adjusted-succeeds :
      (abi : Abi) (b : Bool)
      → is_generic abi ≡ false
      → b ≡ true
      → Returns IsTrue (call_adjusted cleans c call fn abi t g b)
  unfolding call_adjusted
  call_adjusted-succeeds abi false known b = absurd (cc b)
  call_adjusted-succeeds abi true known b = Returns-then IsTrue _ _ (
      Returns-bind IsSome IsTrue _ _ (declare_callable-succeeds call.fn_idx fn abi t g.args known)
        finish_call-succeeds)

  emit_native_call-succeeds :
      (abi : Abi)
      → is_generic abi ≡ false
      → Returns IsTrue (emit_native_call cleans c call fn abi t (some g))
  unfolding emit_native_call
  emit_native_call-succeeds abi known = Returns-then IsTrue _ _ (
      Returns-then IsTrue _ _ (
        Returns-then IsTrue _ _ (
          Returns-bind IsTrue IsTrue _ _ (emit_base_offset-succeeds fn abi known)
            (λ b. call_adjusted-succeeds abi b known))))

refusal-bind :
    {A : Type 0} (m : M A) (f : A → M Bool)
    → Silent m
    → ((a : A) → SilentRefusal (f a))
    → SilentRefusal (m >>= f)
unfolding SilentRefusal Silent ◌>>=◌
refusal-bind m f h k s r = DeclaresStructs-trans s (m s).1 _ (h s) (k (m s).0 (m s).1 r)

refusal-then : (m : M (Unit {0})) (k : M Bool) → Silent m → SilentRefusal k → SilentRefusal (m >> k)
unfolding SilentRefusal Silent ◌>>◌
refusal-then m k h l s r = DeclaresStructs-trans s (m s).1 _ (h s) (l (m s).1 r)

refusal-pure : (b : Bool) → SilentRefusal (pure b)
unfolding SilentRefusal pure
refusal-pure b s r = DeclaresStructs-refl s s.emitted_symbols s.externs

refusal-if :
    (b : Bool) (m n : M Bool)
    → SilentRefusal m
    → SilentRefusal n
    → SilentRefusal (if b then m else n)
refusal-if true m n h k = h
refusal-if false m n h k = k

refusal-succeeds : (m : M Bool) → Returns IsTrue m → SilentRefusal m
unfolding SilentRefusal Returns
refusal-succeeds m h s r = absurd (cc (h s, r))

ruleset refusal = (refusal-bind, refusal-then, refusal-pure, refusal-if, Silent-map_extern)

no_call-refusal :
    (cleans : Cleans) (c : Ctx) (call : SystemCall) (fn : ScriptFunction) (abi : Abi) (t : CType)
    → SilentRefusal (emit_native_call cleans c call fn abi t none)
unfolding emit_native_call
no_call-refusal cleans c call fn abi t = refusal-pure false

emit_native_call-refusal :
    (cleans : Cleans) (c : Ctx) (call : SystemCall) (fn : ScriptFunction) (abi : Abi) (t : CType)
    (o : Option Gathered)
    → is_generic abi ≡ false
    → SilentRefusal (emit_native_call cleans c call fn abi t o)
emit_native_call-refusal cleans c call fn abi t none known = no_call-refusal cleans c call fn abi t
emit_native_call-refusal cleans c call fn abi t (some g) known =
    refusal-succeeds _ (emit_native_call-succeeds cleans c call fn t g abi known)

module _ (cleans : Cleans) (c : Ctx) (call : SystemCall) (abi : Abi)
    (known : is_generic abi ≡ false) where
  call_returning-refusal :
      (fn : ScriptFunction) (t : CType) → SilentRefusal (call_returning cleans c call fn abi t)
  unfolding call_returning gather
  call_returning-refusal fn CType.unsupported = search refusal
  call_returning-refusal fn _ =
      search (refusal, emit_native_call-refusal, Silent-gather_parameters, known)

  native-refusal :
      (fn : ScriptFunction) → SilentRefusal (emit_direct_system_call_native c cleans call fn abi)
  unfolding emit_direct_system_call_native
  native-refusal fn = search (refusal, call_returning-refusal, Silent-return_c_type)

  generic-refusal :
      (fn : ScriptFunction) → SilentRefusal (emit_direct_system_call_generic c call fn)
  unfolding emit_direct_system_call_generic
  generic-refusal fn =
      let emits : Returns IsTrue (generic_call c call fn >> pure true) = search returns in
      let succeeds = refusal-succeeds _ emits in search (refusal, succeeds)

  call_by_convention-refusal :
      (fn : ScriptFunction) (conv : CallConv)
      → SilentRefusal (call_by_convention c cleans call abi fn conv)
  unfolding call_by_convention
  call_by_convention-refusal fn CallConv.generic_func = generic-refusal fn
  call_by_convention-refusal fn CallConv.generic_method = generic-refusal fn
  call_by_convention-refusal fn _ = native-refusal fn

  emit_direct_system_call-refusal : SilentRefusal (emit_direct_system_call c cleans call abi)
  unfolding emit_direct_system_call
  emit_direct_system_call-refusal = search (refusal, call_by_convention-refusal)

-- Where a direct system call is refused, by any test and for any convention, on an ABI other than
-- the generic one: the code of the instruction, the error handlers that it needs and the counters of
-- the module are as before, and the declarations in front of the functions have at most structs
-- added.
pub emit_direct_system_call-refused :
    (cleans : Cleans) (c : Ctx) (call : SystemCall) (abi : Abi) (s : FnState)
    → is_generic abi ≡ false
    → (emit_direct_system_call c cleans call abi s).0 ≡ false
    → DeclaresStructs s (emit_direct_system_call c cleans call abi s).1
unfolding SilentRefusal
emit_direct_system_call-refused cleans c call abi s known r =
    emit_direct_system_call-refusal cleans c call abi known s r
