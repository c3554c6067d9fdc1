-- ===== src/Swf/Avm1/Types.antt =====
-- AVM1 actions and their operands (swf/src/avm1/types.rs). A `&str` is its UTF-8 bytes, an f32 or an
-- f64 its bit pattern, and a slice of code its bytes.
use ruffle.Prelude.{ℕ, ℤ, List, Bool, Option}

abbrev pub Str : Type 0
Str = List ℕ

pub data Value : Type 0 where
  undefined null : Value
  bool : Bool → Value
  int : ℤ → Value
  float : ℕ → Value
  double : ℕ → Value
  str : Str → Value
  register : ℕ → Value
  constant_pool : ℕ → Value

pub data SendVarsMethod : Type 0 where
  none get post : SendVarsMethod

pub record FunctionParam : Type 0 where
  pub name : Str
  pub register_index : Option ℕ

pub record Function : Type 0 where
  pub name : Str
  pub register_count : ℕ
  pub params : List FunctionParam
  pub preload_parent : Bool
  pub preload_root : Bool
  pub suppress_super : Bool
  pub preload_super : Bool
  pub suppress_arguments : Bool
  pub preload_arguments : Bool
  pub suppress_this : Bool
  pub preload_this : Bool
  pub preload_global : Bool
  pub actions : List ℕ

pub data CatchVar : Type 0 where
  var : Str → CatchVar
  register : ℕ → CatchVar

pub record TryBlock : Type 0 where
  pub try_actions : List ℕ
  pub catch : Option (CatchVar × List ℕ)
  pub finally : Option (List ℕ)

-- The fields of a variant stand in the order of the source; `If` has the name `action_if`.
pub data Action : Type 0 where
  add add2 and ascii_to_char bit_and bit_lshift bit_or bit_rshift bit_urshift bit_xor : Action
  call call_function call_method cast_op char_to_ascii clone_sprite : Action
  constant_pool : List Str → Action
  decrement : Action
  define_function : Str → List Str → List ℕ → Action
  define_function2 : Function → Action
  define_local define_local2 delete delete2 divide end_drag enumerate enumerate2 : Action
  equals equals2 extends get_member get_property get_time : Action
  get_url : Str → Str → Action
  get_url2 : SendVarsMethod → Bool → Bool → Action
  get_variable : Action
  goto_frame : ℕ → Action
  goto_frame2 : Bool → ℕ → Action
  goto_label : Str → Action
  greater : Action
  action_if : ℤ → Action
  implements_op increment init_array init_object instance_of : Action
  jump : ℤ → Action
  less less2 mb_ascii_to_char mb_char_to_ascii mb_string_extract mb_string_length : Action
  modulo multiply new_method new_object next_frame not or play pop previous_frame : Action
  push : List Value → Action
  push_duplicate random_number remove_sprite return set_member set_property : Action
  set_target : Str → Action
  set_target2 set_variable stack_swap start_drag stop stop_sounds : Action
  store_register : ℕ → Action
  strict_equals string_add string_equals string_extract string_greater string_length : Action
  string_less subtract target_path throw to_integer to_number to_string : Action
  toggle_quality trace : Action
  try : TryBlock → Action
  type_of : Action
  wait_for_frame : ℕ → ℕ → Action
  wait_for_frame2 : ℕ → Action
  with : List ℕ → Action
  unknown : ℕ → List ℕ → Action
