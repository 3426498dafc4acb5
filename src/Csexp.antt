-- ===== src/Csexp.antt =====
-- `ucl_parse_csexp` of src/ucl_sexp.c: the reader of canonical S-expressions. The bytes from `p` to
-- `end` are a list. Each round but the first takes at least a byte, or is the last one.
pub mod Accepted
mod Examples
use libucl.Base.{
  ℕ, ◌+◌, ◌-◌, ◌*◌, ◌%◌, ◌^◌, Bool, true, false, ◌&&◌, ◌||◌, leb, ltb, ◌==◌, if◌then◌else◌, List,
  [], ◌∷◌, Option, none, some, Bytes, length,
}
use libucl.Store.{Parser, Frame, Payload, new_object, update, array, array_append}

pub data CsexpState : Type 0 where
  read_obrace read_length read_value read_ebrace : CsexpState

-- The errors that set `parser->err`
pub data CsexpError : Type 0 where
  bad_start extra_data zero_length big_length bad_length_character invalid_length extra_brace
        bad_container finishing_state :
      CsexpError

-- What the code does not guard against: a value copied from beyond the end of the chunk, and the
-- container of the outermost one
pub data CsexpFault : Type 0 where
  over_read null_container assertion : CsexpFault

pub data CsexpOutcome : Type 0 where
  accepted : Parser → CsexpOutcome
  failed : CsexpError → CsexpOutcome
  fault : CsexpFault → CsexpOutcome

-- The variables of the loop
pub record CsexpMachine : Type 0 where
  pub parser : Parser
  pub state : CsexpState
  pub len : ℕ
  pub mult : ℕ

-- `NEXT_STATE` before a byte
unfoldable pub next_state : ℕ → CsexpMachine → CsexpMachine
next_state c m =
    if c == b'('
    then record m { state = read_obrace }
    else if c == b')'
    then record m { state = read_ebrace }
    else record m { state = read_length; len = 0; mult = 1 }

-- A new array on the stack
unfoldable pub open_brace : Parser → Parser
open_brace p = record p {
  cell = update p.cell p.fresh (new_object (array []) 0);
  fresh = p.fresh + 1;
  stack = record { obj = some p.fresh; len = 0 } ∷ p.stack;
  top_obj = elim p.stack [
    | [] ↦ elim p.top_obj [ none ↦ some p.fresh | some r ↦ some r ]
    | f ∷ fs ↦ p.top_obj
  ];
}

-- A byte of the length: its digits count from the first on.
unfoldable pub length_digit : CsexpMachine → ℕ → CsexpMachine
length_digit m c = record m {
  len = (m.len + (c - 48) * m.mult) % 2 ^ 64;
  mult = m.mult * 10 % 2 ^ 64;
}

unfoldable pub is_digit : ℕ → Bool
is_digit c = leb 48 c && leb c 57

-- What taking the closed container into the one below it comes to
pub data Closed : Type 0 where
  closed : Parser → Closed
  no_container : Closed
  no_array : Closed

abbrev is_array : Payload → Bool
is_array (array items) = true
is_array v = false

-- `parser->stack` is the frames that are left, and `parser->stack->obj` takes the array that is closed.
unfoldable pub close_brace : Parser → List Frame → Option ℕ → Closed
close_brace p [] r = no_container
close_brace p (f ∷ fs) r = elim f.obj [
  | none ↦ no_container
  | some top ↦
      if is_array (p.cell top).payload
      then (elim r [
        | none ↦ no_container
        | some elt ↦ closed (record p { stack = f ∷ fs; cell = array_append p.cell top elt })
      ])
      else no_array
]

-- Behind a brace: `NEXT_STATE`, and the next round
abbrev pub after_brace : (CsexpMachine → CsexpOutcome) → Bool → Bytes → CsexpMachine → CsexpOutcome
after_brace loop ebrace [] m = if ebrace then accepted m.parser else failed extra_data
after_brace loop ebrace (c ∷ cs) m = loop (next_state c m)

-- A value: where as many bytes remain as the length says, the value is the last of the chunk.
unfoldable pub read_string : CsexpMachine → Bytes → CsexpOutcome
read_string m input =
    if ltb m.len (length input) || m.len == 0
    then failed invalid_length
    else if ltb (length input) m.len
    then fault over_read
    else failed extra_data

-- The loop, and the test of the state behind it
unfoldable pub csexp_on : Bytes → CsexpMachine → CsexpOutcome
csexp_on [] m = elim m.state [ read_ebrace ↦ accepted m.parser | _ ↦ failed finishing_state ]
csexp_on (c ∷ cs) m = elim m.state [
  | read_obrace ↦ after_brace (csexp_on cs) false cs (record m { parser = open_brace m.parser })
  | read_length ↦
      if c == b':'
      then (if m.len == 0
          then failed zero_length
          else csexp_on cs (record m { state = read_value }))
      else if is_digit c
      then (let n = length_digit m c in
          if ltb (2 ^ 32 - 1) n.len then failed big_length else csexp_on cs n)
      else failed bad_length_character
  | read_value ↦ read_string m (c ∷ cs)
  | read_ebrace ↦ elim m.parser.stack [
    | [] ↦ failed extra_brace
    | f ∷ fs ↦ elim (close_brace m.parser fs f.obj) [
      | no_container ↦ fault null_container
      | no_array ↦ failed bad_container
      | closed p ↦ after_brace (csexp_on cs) true cs (record m { parser = p })
    ]
  ]
]

-- `ucl_parse_csexp`
unfoldable pub parse_csexp : Parser → Bytes → CsexpOutcome
parse_csexp p [] = fault assertion
parse_csexp p (c ∷ cs) =
    if c == b'('
    then csexp_on (c ∷ cs) (record { parser = p; state = read_obrace; len = 0; mult = 1 })
    else failed bad_start
