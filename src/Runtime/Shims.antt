-- ===== src/Runtime/Shims.antt =====
-- The runtime functions of src/angelsea/detail/runtime.cpp that hand a call on to the engine.
use angelsea.Common.{ℕ, Bool, ◌||◌, String, [], ◌∷◌, ◌++◌, if◌then◌else◌}
use angelsea.Runtime.State.{Event, Context}

-- The types of the engine: GetObjectTypeFromTypeId, objType of an object, Implements and DerivesFrom.
pub record Types : Type 0 where
  pub get_object_type_from_type_id : ℕ → ℕ
  pub obj_type : ℕ → ℕ
  pub implements : ℕ → ℕ → Bool
  pub derives_from : ℕ → ℕ → Bool

unfoldable pub asea_set_internal_exception : String → Context → Context
asea_set_internal_exception text c = record c {
  events = c.events ++ Event.set_internal_exception text ∷ [];
}

unfoldable pub asea_call_object_method : ℕ → ℕ → Context → Context
asea_call_object_method obj fn c = record c {
  events = c.events ++ Event.call_object_method obj fn ∷ [];
}

unfoldable pub asea_cast : Types → ℕ → ℕ → Context → Context
asea_cast t obj type_id c =
    let type = t.obj_type obj in
    let to = t.get_object_type_from_type_id type_id in
    if t.implements type to || t.derives_from type to
    then record c {
      object_type = 0;
      object_register = obj;
      events = c.events ++ Event.add_ref obj ∷ [];
    }
    else c
