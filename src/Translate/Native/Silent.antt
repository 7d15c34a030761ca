-- ===== src/Translate/Native/Silent.antt =====
-- Gathering the arguments of a native call (src/angelsea/detail/bytecode2c.cpp) emits no code, but may declare structs.
use mathlib.Core.List.{append-nil, append_assoc}
use angelsea.Common.{
  sym, ap, ◌++◌, All, All-append, ℕ, Bool, true, false, ◌≡◌, refl, ◌∙◌, Option, none, some, List,
  [], ◌∷◌, if◌then◌else◌, if-intro,
}
use angelsea.Translate.CCode.{Symbol, Forward}
use angelsea.Translate.Engine.{Abi, DataType, TypeInfo, ScriptFunction}
use angelsea.Translate.State.{
  Ctx, FnState, ExternKind, M, ◌>>=◌, ◌>>◌, pure, emit_forward_declaration, has_symbol, map_extern,
}
use angelsea.Translate.Native.Types.{
  declare_struct, declare_for, emit_dummy_struct_declaration, get_var_type,
}
use angelsea.Translate.Native.Gather.{Gathered, add_parameter, add_parameters, continue_with}
use angelsea.Translate.Native.Hidden.{gather_parameters}
use angelsea.Translate.Native.Call.{return_c_type}

abbrev IsStruct : Forward → Type 0
IsStruct (Forward.struct_of_floats _ _) = Unit
IsStruct (Forward.struct_of_ints _ _) = Unit
IsStruct _ = ⊥

-- The code, the handlers that it needs and the counters are as before, and nothing is declared but
-- structs.
pub record DeclaresStructs (s s' : FnState) : Type 0 where
  pub code_same : s'.code ≡ s.code
  pub mask_same : s'.mask ≡ s.mask
  pub fallbacks_same : s'.fallback_count ≡ s.fallback_count
  pub strings_same : s'.string_constant_idx ≡ s.string_constant_idx
  pub type_infos_same : s'.type_info_idx ≡ s.type_info_idx
  pub declared : List Forward
  pub declares : s'.forward_declarations ≡ s.forward_declarations ++ declared
  pub are_structs : All IsStruct declared

pub DeclaresStructs-refl :
    (s : FnState) (l : List Symbol) (e : List (Symbol × ExternKind))
    → DeclaresStructs s (record s { emitted_symbols = l; externs = e })
DeclaresStructs-refl s l e = record {
  code_same = refl;
  mask_same = refl;
  fallbacks_same = refl;
  strings_same = refl;
  type_infos_same = refl;
  declared = [];
  declares = sym (append-nil s.forward_declarations);
  are_structs = tt;
}

pub DeclaresStructs-trans :
    (s t u : FnState) → DeclaresStructs s t → DeclaresStructs t u → DeclaresStructs s u
DeclaresStructs-trans s t u h k = record {
  code_same = k.code_same ∙ h.code_same;
  mask_same = k.mask_same ∙ h.mask_same;
  fallbacks_same = k.fallbacks_same ∙ h.fallbacks_same;
  strings_same = k.strings_same ∙ h.strings_same;
  type_infos_same = k.type_infos_same ∙ h.type_infos_same;
  declared = h.declared ++ k.declared;
  declares =
      k.declares
      ∙ ap (λ l. l ++ k.declared) h.declares
      ∙ append_assoc s.forward_declarations h.declared k.declared;
  are_structs = All-append IsStruct h.declared k.declared h.are_structs k.are_structs;
}

-- An operation that declares structs at most.
unfoldable pub Silent : {A : Type 0} → M A → Type 0
Silent m = (s : FnState) → DeclaresStructs s (m s).1

Silent-bind :
    {A B : Type 0} (m : M A) (f : A → M B) → Silent m → ((a : A) → Silent (f a)) → Silent (m >>= f)
unfolding Silent ◌>>=◌
Silent-bind m f h k s = DeclaresStructs-trans s (m s).1 _ (h s) (k (m s).0 (m s).1)

Silent-then : {B : Type 0} (m : M (Unit {0})) (k : M B) → Silent m → Silent k → Silent (m >> k)
unfolding Silent ◌>>◌
Silent-then m k h l s = DeclaresStructs-trans s (m s).1 _ (h s) (l (m s).1)

pub Silent-pure : {A : Type 0} (a : A) → Silent (pure a)
unfolding Silent pure
Silent-pure a s = DeclaresStructs-refl s s.emitted_symbols s.externs

Silent-if : {A : Type 0} (b : Bool) (m n : M A) → Silent m → Silent n → Silent (if b then m else n)
Silent-if true m n h k = h
Silent-if false m n h k = k

Silent-emit_forward_declaration :
    (x : Symbol) (d : Forward) → IsStruct d → Silent (emit_forward_declaration x d)
unfolding Silent emit_forward_declaration
Silent-emit_forward_declaration x d is_struct s =
    if-intro (λ (r : Unit {0} × FnState). DeclaresStructs s r.1) (has_symbol x s.emitted_symbols) _
      _ (λ _. DeclaresStructs-refl s s.emitted_symbols s.externs)
      (λ _. record {
        code_same = refl;
        mask_same = refl;
        fallbacks_same = refl;
        strings_same = refl;
        type_infos_same = refl;
        declared = d ∷ [];
        declares = refl;
        are_structs = (is_struct, tt);
      })

pub Silent-map_extern : (x : Symbol) (kind : ExternKind) → Silent (map_extern x kind)
unfolding Silent map_extern
Silent-map_extern x kind s = DeclaresStructs-refl s s.emitted_symbols _

ruleset silent = (Silent-bind, Silent-then, Silent-pure, Silent-if, Silent-map_extern)

Silent-declare_struct : (info : TypeInfo) (n : ℕ) → Silent (declare_struct info n)
unfolding declare_struct
Silent-declare_struct info n =
    let name = Symbol.abi_symbol info.type_id in
    let floats = Silent-emit_forward_declaration name (Forward.struct_of_floats name n) tt in
    let ints = Silent-emit_forward_declaration name (Forward.struct_of_ints name n) tt in
    search (silent, floats, ints)

Silent-declare_for : (type : DataType) (o : Option TypeInfo) → Silent (declare_for type o)
unfolding declare_for
Silent-declare_for type none = search silent
Silent-declare_for type (some info) = search (silent, Silent-declare_struct)

Silent-get_var_type : (type : DataType) → Silent (get_var_type type)
unfolding get_var_type emit_dummy_struct_declaration
Silent-get_var_type type = search (silent, Silent-declare_for) depth 12

pub Silent-return_c_type : (fn : ScriptFunction) → Silent (return_c_type fn)
unfolding return_c_type
Silent-return_c_type fn = search (silent, Silent-get_var_type)

Silent-add_parameter :
    (c : Ctx) (param : DataType) (g : Gathered) → Silent (add_parameter c param g)
unfolding add_parameter
Silent-add_parameter c param g = search (silent, Silent-get_var_type) depth 12

Silent-continue_with :
    (f : Gathered → M (Option Gathered)) (o : Option Gathered)
    → ((g : Gathered) → Silent (f g))
    → Silent (continue_with f o)
unfolding continue_with
Silent-continue_with f none k = search silent
Silent-continue_with f (some g) k = k g

Silent-add_parameters : (c : Ctx) (l : List DataType) (g : Gathered) → Silent (add_parameters c l g)
unfolding add_parameters
Silent-add_parameters c [] g = search silent
Silent-add_parameters c (param ∷ rest) g =
    Silent-bind (add_parameter c param g) _ (Silent-add_parameter c param g)
      (λ r. Silent-continue_with _ r (Silent-add_parameters c rest))

pub Silent-gather_parameters :
    (c : Ctx) (fn : ScriptFunction) (abi : Abi) (o : Option Gathered)
    → Silent (gather_parameters c fn abi o)
unfolding gather_parameters
Silent-gather_parameters c fn abi none = search silent
Silent-gather_parameters c fn abi (some g) = search (silent, Silent-add_parameters)
