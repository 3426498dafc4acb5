-- ===== src/Msgpack/Codec/Fields.antt =====
-- Big-endian fields in front of further input.
use libucl.Base.{
  ℕ, ◌+◌, ◌^◌, ◌<◌, ◌≡◌, arith, false, ltb, ◌++◌, some, Bytes, length, take, drop, to_be,
  length-to_be, length-append, from_be-to_be, take-append, drop-append,
}
use libucl.Store.{Config, Parser, int, float, new_object, alloc_cur}
use libucl.Msgpack.Outcome.{ok}
use libucl.Msgpack.Format.{Format}
use libucl.Msgpack.Values.{int_width, int_value, parse_int, parse_float}

module _ (k v : ℕ) (rest : Bytes) where
  pub length_field : length (to_be k v ++ rest) ≡ k + length rest
  length_field = omega (arith, length-append (to_be k v) rest, length-to_be k v)

  pub take_field : take k (to_be k v ++ rest) ≡ to_be k v
  take_field = take-append k (to_be k v) rest (length-to_be k v)

  pub drop_field : drop k (to_be k v ++ rest) ≡ rest
  drop_field = drop-append k (to_be k v) rest (length-to_be k v)

  pub field_fits : ltb (length (to_be k v ++ rest)) k ≡ false
  field_fits = ground (arith, length_field)

  pub parse_int-field :
      (cfg : Config) (p : Parser) (fmt : Format)
      → int_width fmt ≡ some k
      → v < 256 ^ k
      → parse_int cfg p k fmt (to_be k v ++ rest)
        ≡ ok (alloc_cur p (new_object (int (int_value fmt v)) cfg.priority), k)
  unfolding parse_int
  parse_int-field cfg p fmt hw hv =
      rw (field_fits, hw) (rw (field_fits, take_field, from_be-to_be k v hv))

pub parse_float-field :
    (v : ℕ) (rest : Bytes) (cfg : Config) (p : Parser)
    → v < 2 ^ 64
    → parse_float cfg p 8 Format.float64 (to_be 8 v ++ rest)
      ≡ ok (alloc_cur p (new_object (float v) cfg.priority), 8)
unfolding parse_float
parse_float-field v rest cfg p hv =
    rw (field_fits 8 v rest, take_field 8 v rest, from_be-to_be 8 v hv)
