-- ===== src/EpJsResult/Tested.antt =====
-- What a result says of the value that it was made from.
use easyprospect_service.Prelude.{
  ◌≡◌, refl, Bool, true, false, not, ◌&&◌, ◌||◌, String, if◌then◌else◌,
}
use easyprospect_service.Prelude.Int.{ℤ}
use easyprospect_service.EpJsResult.{
  Local, value, logic_error, create_result, simple_value_of, new_result, is_string, is_boolean,
  is_number, is_int32, to_bool, has_bit,
}

refused :
    (undefined null : Bool) (b : Bool)
    → (if undefined then logic_error else logic_error)
      ≡ (if undefined || null || true then logic_error else value b)
refused true null b = refl
refused false true b = refl
refused false false b = refl

converted :
    (undefined null : Bool) (b : Bool)
    → (if undefined then logic_error else (if null then logic_error else value b))
      ≡ (if undefined || null || false then logic_error else value b)
converted true null b = refl
converted false true b = refl
converted false false b = refl

module _ {N : Type 0} where
  abbrev pub is_text : Local N → Bool
  is_text v = v.is_string_object || v.is_string

  -- A Boolean value that is no text.
  abbrev pub is_bool : Local N → Bool
  is_bool v = not (is_text v) && v.is_boolean

  abbrev pub Tested : Local N → Type 0
  Tested v =
      let r = create_result v in
      (is_string r ≡ is_text v)
      × (is_boolean r ≡ is_bool v)
      × (is_int32 r ≡ (not (is_text v) && (not v.is_boolean && v.is_int32)))
      × (is_number r ≡ (not (is_text v) && (not v.is_boolean && (v.is_int32 || v.is_number))))
      × (to_bool r ≡ (
          if v.is_undefined || v.is_null || not (is_bool v)
          then logic_error
          else value v.to_boolean))

  fields-Tested :
      (null undefined so s b i n : Bool) (ts ty : String) (tb : Bool) (ti : ℤ) (tn : N)
      → Tested (record {
        is_null = null;
        is_undefined = undefined;
        is_string_object = so;
        is_string = s;
        is_boolean = b;
        is_int32 = i;
        is_number = n;
        to_string = ts;
        type_of = ty;
        to_boolean = tb;
        to_int32 = ti;
        to_number = tn;
      })
  unfolding create_result simple_value_of new_result is_string is_boolean is_number is_int32 to_bool
      has_bit
  fields-Tested null undefined true s b i n ts ty tb ti tn =
      (refl, refl, refl, refl, refused undefined null tb)
  fields-Tested null undefined false true b i n ts ty tb ti tn =
      (refl, refl, refl, refl, refused undefined null tb)
  fields-Tested null undefined false false true i n ts ty tb ti tn =
      (refl, refl, refl, refl, converted undefined null tb)
  fields-Tested null undefined false false false true n ts ty tb ti tn =
      (refl, refl, refl, refl, refused undefined null tb)
  fields-Tested null undefined false false false false true ts ty tb ti tn =
      (refl, refl, refl, refl, refused undefined null tb)
  fields-Tested null undefined false false false false false ts ty tb ti tn =
      (refl, refl, refl, refl, refused undefined null tb)

  -- For every value, the result that create_result makes says that it is a text just when the value is a string object or
  -- a string, a Boolean just when it is no text and is one, a 32-bit integer and a number just when
  -- none of the earlier kinds fits; and ToBool gives the Boolean of the value for one that is
  -- a Boolean, no text, and neither undefined nor null, and throws its logic error for every other,
  -- so that it never reads another alternative of the variant.
  pub create_result-Tested : (v : Local N) → Tested v
  create_result-Tested v =
      fields-Tested v.is_null v.is_undefined v.is_string_object v.is_string v.is_boolean v.is_int32
        v.is_number v.to_string v.type_of v.to_boolean v.to_int32 v.to_number
