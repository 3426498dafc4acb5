-- ===== src/Schema/Words.antt =====
-- The words of src/ucl_schema.c and of `ucl_object_string_to_type` in src/ucl_util.c
use libucl.Base.{[], ◌∷◌, Bytes}

abbrev pub kw_properties : Bytes
kw_properties = b'p' ∷ b'r' ∷ b'o' ∷ b'p' ∷ b'e' ∷ b'r' ∷ b't' ∷ b'i' ∷ b'e' ∷ b's' ∷ []

abbrev pub kw_additional_properties : Bytes
kw_additional_properties =
    b'a' ∷ b'd' ∷ b'd' ∷ b'i' ∷ b't' ∷ b'i' ∷ b'o' ∷ b'n' ∷ b'a' ∷ b'l' ∷ b'P' ∷ b'r' ∷ b'o' ∷ b'p'
    ∷ b'e' ∷ b'r' ∷ b't' ∷ b'i' ∷ b'e' ∷ b's' ∷ []

abbrev pub kw_required : Bytes
kw_required = b'r' ∷ b'e' ∷ b'q' ∷ b'u' ∷ b'i' ∷ b'r' ∷ b'e' ∷ b'd' ∷ []

abbrev pub kw_min_properties : Bytes
kw_min_properties =
    b'm' ∷ b'i' ∷ b'n' ∷ b'P' ∷ b'r' ∷ b'o' ∷ b'p' ∷ b'e' ∷ b'r' ∷ b't' ∷ b'i' ∷ b'e' ∷ b's' ∷ []

abbrev pub kw_max_properties : Bytes
kw_max_properties =
    b'm' ∷ b'a' ∷ b'x' ∷ b'P' ∷ b'r' ∷ b'o' ∷ b'p' ∷ b'e' ∷ b'r' ∷ b't' ∷ b'i' ∷ b'e' ∷ b's' ∷ []

abbrev pub kw_pattern_properties : Bytes
kw_pattern_properties =
    b'p' ∷ b'a' ∷ b't' ∷ b't' ∷ b'e' ∷ b'r' ∷ b'n' ∷ b'P' ∷ b'r' ∷ b'o' ∷ b'p' ∷ b'e' ∷ b'r' ∷ b't'
    ∷ b'i' ∷ b'e' ∷ b's' ∷ []

abbrev pub kw_dependencies : Bytes
kw_dependencies =
    b'd' ∷ b'e' ∷ b'p' ∷ b'e' ∷ b'n' ∷ b'd' ∷ b'e' ∷ b'n' ∷ b'c' ∷ b'i' ∷ b'e' ∷ b's' ∷ []

abbrev pub kw_multiple_of : Bytes
kw_multiple_of = b'm' ∷ b'u' ∷ b'l' ∷ b't' ∷ b'i' ∷ b'p' ∷ b'l' ∷ b'e' ∷ b'O' ∷ b'f' ∷ []

abbrev pub kw_maximum : Bytes
kw_maximum = b'm' ∷ b'a' ∷ b'x' ∷ b'i' ∷ b'm' ∷ b'u' ∷ b'm' ∷ []

abbrev pub kw_minimum : Bytes
kw_minimum = b'm' ∷ b'i' ∷ b'n' ∷ b'i' ∷ b'm' ∷ b'u' ∷ b'm' ∷ []

abbrev pub kw_exclusive_maximum : Bytes
kw_exclusive_maximum =
    b'e' ∷ b'x' ∷ b'c' ∷ b'l' ∷ b'u' ∷ b's' ∷ b'i' ∷ b'v' ∷ b'e' ∷ b'M' ∷ b'a' ∷ b'x' ∷ b'i' ∷ b'm'
    ∷ b'u' ∷ b'm' ∷ []

abbrev pub kw_exclusive_minimum : Bytes
kw_exclusive_minimum =
    b'e' ∷ b'x' ∷ b'c' ∷ b'l' ∷ b'u' ∷ b's' ∷ b'i' ∷ b'v' ∷ b'e' ∷ b'M' ∷ b'i' ∷ b'n' ∷ b'i' ∷ b'm'
    ∷ b'u' ∷ b'm' ∷ []

abbrev pub kw_max_length : Bytes
kw_max_length = b'm' ∷ b'a' ∷ b'x' ∷ b'L' ∷ b'e' ∷ b'n' ∷ b'g' ∷ b't' ∷ b'h' ∷ []

abbrev pub kw_min_length : Bytes
kw_min_length = b'm' ∷ b'i' ∷ b'n' ∷ b'L' ∷ b'e' ∷ b'n' ∷ b'g' ∷ b't' ∷ b'h' ∷ []

abbrev pub kw_pattern : Bytes
kw_pattern = b'p' ∷ b'a' ∷ b't' ∷ b't' ∷ b'e' ∷ b'r' ∷ b'n' ∷ []

abbrev pub kw_items : Bytes
kw_items = b'i' ∷ b't' ∷ b'e' ∷ b'm' ∷ b's' ∷ []

abbrev pub kw_additional_items : Bytes
kw_additional_items =
    b'a' ∷ b'd' ∷ b'd' ∷ b'i' ∷ b't' ∷ b'i' ∷ b'o' ∷ b'n' ∷ b'a' ∷ b'l' ∷ b'I' ∷ b't' ∷ b'e' ∷ b'm'
    ∷ b's' ∷ []

abbrev pub kw_unique_items : Bytes
kw_unique_items = b'u' ∷ b'n' ∷ b'i' ∷ b'q' ∷ b'u' ∷ b'e' ∷ b'I' ∷ b't' ∷ b'e' ∷ b'm' ∷ b's' ∷ []

abbrev pub kw_min_items : Bytes
kw_min_items = b'm' ∷ b'i' ∷ b'n' ∷ b'I' ∷ b't' ∷ b'e' ∷ b'm' ∷ b's' ∷ []

abbrev pub kw_max_items : Bytes
kw_max_items = b'm' ∷ b'a' ∷ b'x' ∷ b'I' ∷ b't' ∷ b'e' ∷ b'm' ∷ b's' ∷ []

abbrev pub kw_max_values : Bytes
kw_max_values = b'm' ∷ b'a' ∷ b'x' ∷ b'V' ∷ b'a' ∷ b'l' ∷ b'u' ∷ b'e' ∷ b's' ∷ []

abbrev pub kw_min_values : Bytes
kw_min_values = b'm' ∷ b'i' ∷ b'n' ∷ b'V' ∷ b'a' ∷ b'l' ∷ b'u' ∷ b'e' ∷ b's' ∷ []

abbrev pub kw_enum : Bytes
kw_enum = b'e' ∷ b'n' ∷ b'u' ∷ b'm' ∷ []

abbrev pub kw_all_of : Bytes
kw_all_of = b'a' ∷ b'l' ∷ b'l' ∷ b'O' ∷ b'f' ∷ []

abbrev pub kw_any_of : Bytes
kw_any_of = b'a' ∷ b'n' ∷ b'y' ∷ b'O' ∷ b'f' ∷ []

abbrev pub kw_one_of : Bytes
kw_one_of = b'o' ∷ b'n' ∷ b'e' ∷ b'O' ∷ b'f' ∷ []

abbrev pub kw_not : Bytes
kw_not = b'n' ∷ b'o' ∷ b't' ∷ []

abbrev pub kw_ref : Bytes
kw_ref = b'$' ∷ b'r' ∷ b'e' ∷ b'f' ∷ []

abbrev pub kw_type : Bytes
kw_type = b't' ∷ b'y' ∷ b'p' ∷ b'e' ∷ []

abbrev pub kw_object : Bytes
kw_object = b'o' ∷ b'b' ∷ b'j' ∷ b'e' ∷ b'c' ∷ b't' ∷ []

abbrev pub kw_array : Bytes
kw_array = b'a' ∷ b'r' ∷ b'r' ∷ b'a' ∷ b'y' ∷ []

abbrev pub kw_integer : Bytes
kw_integer = b'i' ∷ b'n' ∷ b't' ∷ b'e' ∷ b'g' ∷ b'e' ∷ b'r' ∷ []

abbrev pub kw_number : Bytes
kw_number = b'n' ∷ b'u' ∷ b'm' ∷ b'b' ∷ b'e' ∷ b'r' ∷ []

abbrev pub kw_string : Bytes
kw_string = b's' ∷ b't' ∷ b'r' ∷ b'i' ∷ b'n' ∷ b'g' ∷ []

abbrev pub kw_boolean : Bytes
kw_boolean = b'b' ∷ b'o' ∷ b'o' ∷ b'l' ∷ b'e' ∷ b'a' ∷ b'n' ∷ []

abbrev pub kw_null : Bytes
kw_null = b'n' ∷ b'u' ∷ b'l' ∷ b'l' ∷ []

abbrev pub kw_userdata : Bytes
kw_userdata = b'u' ∷ b's' ∷ b'e' ∷ b'r' ∷ b'd' ∷ b'a' ∷ b't' ∷ b'a' ∷ []
