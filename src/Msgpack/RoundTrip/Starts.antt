-- ===== src/Msgpack/RoundTrip/Starts.antt =====
-- The writer prints at least one byte for every value and every key.
use libucl.Base.{IsCons, ℕ, ◌^◌, ◌<◌, ◌≡◌, sym, ap, ◌∙◌, [], ◌∷◌, ◌++◌, Bytes, length}
use mathlib.Core.List.{append-nil}
use libucl.Store.{Config}
use libucl.Msgpack.Emit.{
  Value, emit, emit_items, emit_fields, count_items, count_fields, print_string, print_array,
  print_object,
}
use libucl.Msgpack.Emit
use libucl.Msgpack.Codec.Keys.{print_string-Names}
use libucl.Msgpack.Codec.Headers.{print_array-Opens, print_object-Opens}
use libucl.Msgpack.RoundTrip.Spec.{IsWritable}
use libucl.Msgpack.RoundTrip.Scalars.{IsScalar, IsScalar-Scalar}

starts-IsCons : (bs : Bytes) (b : ℕ) (tl : Bytes) → bs ++ [] ≡ b ∷ tl → IsCons bs
starts-IsCons bs b tl h = (b, tl, sym (append-nil bs) ∙ h)

pub append-IsCons : (bs cs : Bytes) → IsCons bs → IsCons (bs ++ cs)
append-IsCons bs cs (b, tl, h) = (b, tl ++ cs, ap (λ x. x ++ cs) h)

pub print_string-IsCons : (k : Bytes) → length k < 2 ^ 32 → IsCons (print_string k)
print_string-IsCons k lt =
    let r = print_string-Names k [] lt in starts-IsCons (print_string k) r.first r.tail r.starts

scalar-IsCons :
    (cfg : Config) (v : Value) → IsScalar v → IsWritable cfg.key_lowercase v → IsCons (emit v)
scalar-IsCons cfg v s w =
    let sc = IsScalar-Scalar cfg [] v s w in
    starts-IsCons (emit v) sc.reads.first sc.reads.tail sc.reads.starts

pub emit-IsCons : (cfg : Config) (v : Value) → IsWritable cfg.key_lowercase v → IsCons (emit v)
unfolding emit IsWritable
emit-IsCons cfg (Emit.array vs) (lt, w) =
    let r = print_array-Opens (count_items vs) [] lt in
    append-IsCons (print_array (count_items vs)) (emit_items vs)
      (starts-IsCons (print_array (count_items vs)) r.first r.tail r.starts)
emit-IsCons cfg (Emit.object fs) (lt, w) =
    let r = print_object-Opens (count_fields fs) [] lt in
    append-IsCons (print_object (count_fields fs)) (emit_fields fs)
      (starts-IsCons (print_object (count_fields fs)) r.first r.tail r.starts)
emit-IsCons cfg v w = scalar-IsCons cfg v tt w
