-- ===== src/Csexp/Examples.antt =====
-- Runs of `ucl_parse_csexp`.
use libucl.Base.{◌≡◌, ◌≢◌, refl, [], ◌∷◌, none, some, Bytes, All}
use libucl.Store.{Parser, array, null, new_object, update, array_append}
use libucl.Csexp.{
  accepted, failed, fault, over_read, null_container, invalid_length, parse_csexp, csexp_on,
  next_state, open_brace, close_brace, read_string, length_digit, is_digit,
}
use libucl.Csexp.Accepted.{IsBrace, parse_csexp-accepted}

abbrev empty : Parser
empty = record {
  cell = λ r. new_object null 0;
  fresh = 0;
  stack = [];
  cur_obj = none;
  top_obj = none;
  trash_objs = [];
  err = none;
}

-- What a run computes with.
runs : Unit {0}
unfolding parse_csexp csexp_on next_state open_brace close_brace read_string length_digit is_digit
    array_append
runs = tt

-- (()
abbrev open_list : Bytes
open_list = b'(' ∷ b'(' ∷ b')' ∷ []

-- The outer list with the inner one, and still on the stack
abbrev half : Parser
half = record {
  cell =
      array_append
        (update (update (λ r. new_object null 0) 0 (new_object (array []) 0)) 1
          (new_object (array []) 0))
        0 1;
  fresh = 2;
  stack = record { obj = some 0; len = 0 } ∷ [];
  cur_obj = none;
  top_obj = some 0;
  trash_objs = [];
  err = none;
}

accepts_open : parse_csexp empty open_list ≡ accepted half
unfolding runs
accepts_open = refl

-- ()
closed_list : parse_csexp empty (b'(' ∷ b')' ∷ []) ≡ fault null_container
unfolding runs
closed_list = refl

-- (5:hello)
element :
    parse_csexp empty (b'(' ∷ b'5' ∷ b':' ∷ b'h' ∷ b'e' ∷ b'l' ∷ b'l' ∷ b'o' ∷ b')' ∷ [])
    ≡ failed invalid_length
unfolding runs
element = refl

-- (5:hi)
long_element : parse_csexp empty (b'(' ∷ b'5' ∷ b':' ∷ b'h' ∷ b'i' ∷ b')' ∷ []) ≡ fault over_read
unfolding runs
long_element = refl

parse_csexp-accepted_example : All IsBrace open_list × (half.stack ≢ [])
parse_csexp-accepted_example = parse_csexp-accepted empty half open_list accepts_open
