-- ===== src/Msgpack/RoundTrip/Scalars.antt =====
-- The values of `ucl_emit_msgpack_elt` that are no containers, one by one.
use libucl.Base.{ℕ, ◌≡◌, ◌≢◌, refl, arith, Bool, true, false, List, [], ◌∷◌, ◌++◌, Bytes, length}
use libucl.Store.{Config, Frame, new_object}
use libucl.Store
use libucl.Msgpack.Values.{string_object}
use libucl.Msgpack.Emit.{Value, emit}
use libucl.Msgpack.Emit
use libucl.Msgpack.Codec.Scalars.{
  print_int-Reads, print_double-Reads, print_bool-Reads, print_null-Reads,
}
use libucl.Msgpack.Codec.Strings.{print_string-Reads, print_binary_string-Reads}
use libucl.Msgpack.RoundTrip.Spec.{Holds, size, ends_well, IsWritable}
use libucl.Msgpack.Machine.{Machine}
use libucl.Msgpack.RoundTrip.Insert.{Place}
use libucl.Msgpack.RoundTrip.Element.{Waiting, After}
use libucl.Msgpack.RoundTrip.Scalar.{Scalar, Scalar-After}

-- No array and no object
abbrev pub IsScalar : Value → Type 0
IsScalar (Emit.array vs) = ⊥
IsScalar (Emit.object fs) = ⊥
IsScalar _ = Unit

nonempty_ends : (binary : Bool) (s : Bytes) → ends_well (Emit.string binary s) ≡ true → length s ≢ 0
unfolding ends_well
nonempty_ends binary [] h e = absurd (ground (arith, h))
nonempty_ends binary (b ∷ s) h e = absurd (omega (arith, e))

pub IsScalar-Scalar :
    (cfg : Config) (rest : Bytes) (v : Value)
    → IsScalar v
    → IsWritable cfg.key_lowercase v
    → Scalar cfg v rest
unfolding emit Holds size IsWritable
IsScalar-Scalar cfg rest Emit.null s w = record {
  object = new_object Store.null cfg.priority;
  reads = print_null-Reads cfg rest;
  holds = λ cell n e. e;
  alone = refl;
  one = refl;
  ends = λ he e. ((print_null-Reads cfg rest).uses e).0;
}
IsScalar-Scalar cfg rest (Emit.int w) s lt = record {
  object = new_object (Store.int w) cfg.priority;
  reads = print_int-Reads cfg rest w lt;
  holds = λ cell n e. e;
  alone = refl;
  one = refl;
  ends = λ he e. ((print_int-Reads cfg rest w lt).uses e).0;
}
IsScalar-Scalar cfg rest (Emit.float w) s lt = record {
  object = new_object (Store.float w) cfg.priority;
  reads = print_double-Reads cfg rest w lt;
  holds = λ cell n e. e;
  alone = refl;
  one = refl;
  ends = λ he e. ((print_double-Reads cfg rest w lt).uses e).0;
}
IsScalar-Scalar cfg rest (Emit.time w) s lt = record {
  object = new_object (Store.float w) cfg.priority;
  reads = print_double-Reads cfg rest w lt;
  holds = λ cell n e. e;
  alone = refl;
  one = refl;
  ends = λ he e. ((print_double-Reads cfg rest w lt).uses e).0;
}
IsScalar-Scalar cfg rest (Emit.boolean b) s w = record {
  object = new_object (Store.boolean b) cfg.priority;
  reads = print_bool-Reads cfg rest b;
  holds = λ cell n e. e;
  alone = refl;
  one = refl;
  ends = λ he e. ((print_bool-Reads cfg rest b).uses e).0;
}
IsScalar-Scalar cfg rest (Emit.string true t) s lt = record {
  object = string_object true t cfg.priority;
  reads = print_binary_string-Reads cfg rest t lt;
  holds = λ cell n e. e;
  alone = refl;
  one = refl;
  ends = λ he e. nonempty_ends true t he ((print_binary_string-Reads cfg rest t lt).uses e).1;
}
IsScalar-Scalar cfg rest (Emit.string false t) s lt = record {
  object = string_object false t cfg.priority;
  reads = print_string-Reads cfg rest t lt;
  holds = λ cell n e. e;
  alone = refl;
  one = refl;
  ends = λ he e. nonempty_ends false t he ((print_string-Reads cfg rest t lt).uses e).1;
}
IsScalar-Scalar cfg rest (Emit.array vs) s w = absurd s
IsScalar-Scalar cfg rest (Emit.object fs) s w = absurd s

-- A machine that waits for a value of an open container, which stands alone and, if it is an
-- object, lacks the key that was read, and whose input starts with what the writer prints for a
-- writable value that is no container: some rounds of the loop read it, put it behind the
-- container's other values as the next fresh object, count it, leave all older objects alone, and
-- stop right behind it. An empty string must not end the input.
pub IsScalar-After :
    (cfg : Config) (place : Place) (c l : ℕ) (fs : List Frame) (m : Machine) (v : Value)
    (rest : Bytes)
    → Waiting cfg place c l fs m
    → IsScalar v
    → IsWritable cfg.key_lowercase v
    → m.input ≡ emit v ++ rest
    → (rest ≡ [] → ends_well v ≡ true)
    → After cfg place c l fs v rest m
IsScalar-After cfg place c l fs m v rest w s h =
    Scalar-After cfg place c l fs m w v rest (IsScalar-Scalar cfg rest v s h)
