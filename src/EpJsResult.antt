-- ===== src/EpJsResult.antt =====
-- The results of scripts: include/easyprospect-v8/EpJsResult.h and src/easyprospect-v8/EpJsResult.cpp.
-- A value of V8 is what its tests and conversions say; `N` are the floating-point numbers.
pub mod Tested
use easyprospect_service.Prelude.{
  ℕ, ◌+◌, ◌/◌, ◌%◌, ◌^◌, Bool, true, false, not, ◌||◌, ◌==◌, String, if◌then◌else◌,
}
use easyprospect_service.Prelude.Int.{ℤ}

-- `v8::Local<v8::Value>`
pub record Local (N : Type 0) : Type 0 where
  pub is_null : Bool
  pub is_undefined : Bool
  pub is_string_object : Bool
  pub is_string : Bool
  pub is_boolean : Bool
  pub is_int32 : Bool
  pub is_number : Bool
  pub to_string : String
  pub type_of : String
  pub to_boolean : Bool
  pub to_int32 : ℤ
  pub to_number : N

-- `EpV8VariantType`
pub data Simple (N : Type 0) : Type 0 where
  no_value : Simple N
  bool : Bool → Simple N
  int64 : ℤ → Simple N
  uint64 : ℕ → Simple N
  double : N → Simple N
  text : String → Simple N

-- The bits of `EpJsResultValueType`.
abbrev pub boolean_bit : ℕ
boolean_bit = 6

abbrev pub number_bit : ℕ
number_bit = 7

abbrev pub string_bit : ℕ
string_bit = 8

abbrev pub integer_bit : ℕ
integer_bit = 9

-- `(type & BIT) != NONE`
unfoldable pub has_bit : ℕ → ℕ → Bool
has_bit k t = (t / 2 ^ k) % 2 == 1

pub record Result (N : Type 0) : Type 0 where
  pub undefined : Bool
  pub null : Bool
  pub value_string : String
  pub type_string : String
  pub type : ℕ
  pub simple_value : Simple N

-- `boost::get<bool>` of another alternative throws `bad_get`.
pub data ToBool : Type 0 where
  value : Bool → ToBool
  logic_error bad_get : ToBool

-- The tests that `EpJsResult` has besides those below.
pub data OtherTest : Type 0 where
  true_test false_test name symbol function array object big_int external uint32 date : OtherTest
  arguments_object big_int_object boolean_object number_object string_object : OtherTest
  symbol_object native_error reg_exp async_function generator_function : OtherTest
  generator_object promise map set map_iterator set_iterator weak_map weak_set : OtherTest
  array_buffer array_buffer_view typed_array uint8_array uint8_clamped_array : OtherTest
  int8_array uint16_array int16_array uint32_array int32_array float32_array : OtherTest
  float64_array big_int64_array big_uint64_array data_view shared_array_buffer : OtherTest
  proxy web_assembly_compiled_module module_namespace_object : OtherTest

module _ {N : Type 0} where
  -- The constructors, one for each type of the value: the one of an unsigned number drops the
  -- other arguments.
  unfoldable pub new_result : Simple N → Bool → Bool → String → String → Result N
  new_result no_value null undefined value_string type_string = record {
    undefined = undefined;
    null = null;
    value_string = value_string;
    type_string = type_string;
    type = 0;
    simple_value = no_value;
  }
  new_result (bool b) null undefined value_string type_string = record {
    undefined = undefined;
    null = null;
    value_string = value_string;
    type_string = type_string;
    type = 2 ^ boolean_bit;
    simple_value = bool b;
  }
  new_result (int64 n) null undefined value_string type_string = record {
    undefined = undefined;
    null = null;
    value_string = value_string;
    type_string = type_string;
    type = 2 ^ number_bit + 2 ^ integer_bit;
    simple_value = int64 n;
  }
  new_result (uint64 n) null undefined value_string type_string = record {
    undefined = false;
    null = false;
    value_string = "";
    type_string = type_string;
    type = 2 ^ number_bit + 2 ^ integer_bit;
    simple_value = uint64 n;
  }
  new_result (double x) null undefined value_string type_string = record {
    undefined = undefined;
    null = null;
    value_string = value_string;
    type_string = type_string;
    type = 2 ^ number_bit;
    simple_value = double x;
  }
  new_result (text s) null undefined value_string type_string = record {
    undefined = undefined;
    null = null;
    value_string = value_string;
    type_string = type_string;
    type = 2 ^ string_bit;
    simple_value = text s;
  }

  -- The kind of the value, in the order of the tests.
  unfoldable pub simple_value_of : Local N → Simple N
  simple_value_of v =
      if v.is_string_object
      then text v.to_string
      else if v.is_string
      then text v.to_string
      else if v.is_boolean
      then bool v.to_boolean
      else if v.is_int32
      then int64 v.to_int32
      else if v.is_number
      then double v.to_number
      else no_value

  unfoldable pub create_result : Local N → Result N
  unfolding simple_value_of new_result
  create_result v = new_result (simple_value_of v) v.is_null v.is_undefined v.to_string v.type_of

  unfoldable pub is_null_or_undefined : Result N → Bool
  is_null_or_undefined r = if r.null || r.undefined then true else false

  unfoldable pub is_string : Result N → Bool
  unfolding has_bit
  is_string r = has_bit string_bit r.type

  unfoldable pub is_boolean : Result N → Bool
  unfolding has_bit
  is_boolean r = has_bit boolean_bit r.type

  unfoldable pub is_number : Result N → Bool
  unfolding has_bit
  is_number r = has_bit number_bit r.type

  unfoldable pub is_int32 : Result N → Bool
  unfolding has_bit
  is_int32 r = has_bit integer_bit r.type

  -- None of the other tests is implemented.
  unfoldable pub is_other : OtherTest → Result N → Bool
  is_other t r = false

  unfoldable pub get_bool : Simple N → ToBool
  get_bool (bool b) = value b
  get_bool no_value = bad_get
  get_bool (int64 n) = bad_get
  get_bool (uint64 n) = bad_get
  get_bool (double x) = bad_get
  get_bool (text s) = bad_get

  unfoldable pub to_bool : Result N → ToBool
  unfolding is_boolean get_bool
  to_bool r =
      if r.undefined
      then logic_error
      else if not (is_boolean r)
      then logic_error
      else if r.null
      then logic_error
      else get_bool r.simple_value
