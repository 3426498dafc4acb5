-- ===== src/Msgpack/Codec/Scalars.antt =====
-- The bytes of integers, floats, booleans and null, between writer and reader.
use libucl.Base.{
  ℕ, suc, ◌+◌, ◌-◌, ◌%◌, ◌^◌, ◌≤◌, ◌<◌, ◌≡◌, refl, ◌∙◌, arith, Bool, true, false, ltb, leb, [], ◌∷◌,
  some, Bytes, from_be, bit_and, bit_or, Bool-cases, ltb→lt, inl, inr,
}
use libucl.Base.Bits.{agree_below, agrees}
use libucl.Store.{Config, Parser, Obj, new_object, alloc_cur}
use libucl.Store
use libucl.Msgpack.Format.{
  get_parser_from_type, Format, ParseFunction, Entry, find_parser, parsers, has, flag_fixed,
  flag_typevalue,
}
use libucl.Msgpack.Values.{parse_with, parse_int, parse_bool, parse_null, int_value, int_width}
use libucl.Msgpack.Emit.{
  print_int, print_positive, print_negative, print_double, print_bool, print_null, field_of,
}
use libucl.Msgpack.Codec.Fields.{parse_int-field, parse_float-field}
use libucl.Msgpack.Codec.Reads.{Reads, IsPlain, Reads-field, Reads-type_value}

abbrev positive_fixint_entry : Entry
positive_fixint_entry = record {
  prefix = 0;
  prefixlen = 1;
  fmt = Format.positive_fixint;
  len = 0;
  flags = 5;
  func = ParseFunction.parse_int;
}

abbrev negative_fixint_entry : Entry
negative_fixint_entry = record {
  prefix = 0xe0;
  prefixlen = 3;
  fmt = Format.negative_fixint;
  len = 0;
  flags = 5;
  func = ParseFunction.parse_int;
}

positive_fixint_type : (w : ℕ) → w < 128 → get_parser_from_type w ≡ some positive_fixint_entry
unfolding get_parser_from_type parsers find_parser
positive_fixint_type w h = ground arith

negative_fixint_type :
    (w : ℕ) → 0xe0 ≤ w → w < 256 → get_parser_from_type w ≡ some negative_fixint_entry
unfolding get_parser_from_type parsers find_parser
negative_fixint_type w lo hi = ground arith

mod_small : (w : ℕ) → w < 2 ^ 64 → w % 2 ^ 64 ≡ w
mod_small w h = omega arith

low_seven : (b : ℕ) → b < 256 → bit_and b 0x7f ≡ b % 128
unfolding agrees
low_seven = agree_below 256 (λ b. bit_and b 0x7f) (λ b. b % 128) refl

byte_seven : (b : ℕ) → b < 128 → bit_and 0x7f b ≡ b
unfolding agrees
byte_seven = agree_below 128 (λ b. bit_and 0x7f b) (λ b. b) refl

from_be_one : (b : ℕ) → from_be (b ∷ []) ≡ b
unfolding from_be
from_be_one b = omega arith

low_five : (b : ℕ) → b < 256 → bit_and b 0x1f ≡ b % 32
unfolding agrees
low_five = agree_below 256 (λ b. bit_and b 0x1f) (λ b. b % 32) refl

negative_byte : (u : ℕ) → u < 32 → bit_and (bit_or 0xe0 u) 0xff ≡ 0xe0 + u
unfolding agrees
negative_byte = agree_below 32 (λ u. bit_and (bit_or 0xe0 u) 0xff) (λ u. 0xe0 + u) refl

module _ (cfg : Config) (rest : Bytes) where
  abbrev int_object : ℕ → Obj
  int_object w = new_object (Store.int w) cfg.priority

  -- An integer in a field, whichever entry of the table its prefix has.
  Reads-int :
      {e : Entry} (b k v w : ℕ)
      → get_parser_from_type b ≡ some e
      → (e.len ≡ suc k) × (has e flag_fixed ≡ true) × (has e flag_typevalue ≡ false) × IsPlain e
      → (e.func ≡ ParseFunction.parse_int) × (int_width e.fmt ≡ some (suc k))
      → int_value e.fmt (v % 256 ^ suc k) ≡ w
      → v % 256 ^ suc k < 256 ^ suc k
      → Reads cfg (field_of b (suc k) v) (int_object w) rest
  unfolding parse_with
  Reads-int {e} b k v w hb he (hf, hw) hv lt =
      Reads-field cfg (int_object w) rest b k (v % 256 ^ suc k) hb he λ p.
        rw (hf, parse_with)
          (rw (← hv) (parse_int-field (suc k) (v % 256 ^ suc k) rest cfg p e.fmt hw lt))

  Reads-fixint :
      {e : Entry} (b w : ℕ)
      → get_parser_from_type b ≡ some e
      → (ltb 1 e.len ≡ false)
        × (has e flag_fixed ≡ true)
        × (has e flag_typevalue ≡ true)
        × IsPlain e
      → (e.func ≡ ParseFunction.parse_int) × (int_width e.fmt ≡ some 1)
      → int_value e.fmt b ≡ w
      → Reads cfg (b ∷ []) (int_object w) rest
  unfolding parse_with parse_int
  Reads-fixint {e} b w hb he (hf, hw) hv =
      Reads-type_value cfg (int_object w) rest b hb he
        λ p. rw (hf, parse_with) (rw (hw, parse_int) (rw (from_be_one b, hv) (ground arith)))

  Reads-positive_fixint : (w : ℕ) → w < 128 → Reads cfg (w ∷ []) (int_object w) rest
  unfolding int_value
  Reads-positive_fixint w h =
      Reads-fixint w w (positive_fixint_type w h) (refl, refl, refl, (refl, refl)) (refl, refl)
        (low_seven w (omega arith) ∙ omega arith)

  Reads-negative_fixint :
      (w : ℕ)
      → 2 ^ 64 - 32 < w
      → w < 2 ^ 64
      → Reads cfg (bit_and (bit_or 0xe0 (2 ^ 64 - w)) 0xff ∷ []) (int_object w) rest
  unfolding int_value
  Reads-negative_fixint w lo hi = rw (negative_byte (2 ^ 64 - w) (omega arith)) (
      Reads-fixint (0xe0 + (2 ^ 64 - w)) w (negative_fixint_type _ (omega arith) (omega arith))
        (refl, refl, refl, (refl, refl)) (refl, refl)
        (omega (arith, low_five (0xe0 + (2 ^ 64 - w)) (omega arith))))

  -- Every branch of `ucl_emitter_print_int_msgpack` for a value that is not negative
  print_positive-Reads : (w : ℕ) → w < 2 ^ 63 → Reads cfg (print_positive w) (int_object w) rest
  unfolding print_positive get_parser_from_type parsers find_parser int_value
  print_positive-Reads w h = elim (Bool-cases (leb w 0x7f)) [
    | inl a ↦ rw (a, byte_seven w (ground arith)) (Reads-positive_fixint w (ground arith))
    | inr a ↦ elim (Bool-cases (leb w 0xff)) [
      | inl b ↦
          rw (a, b)
            (Reads-int 0xcc 0 w w refl (refl, refl, refl, (refl, refl)) (refl, refl) (ground arith)
              (omega arith))
      | inr b ↦ elim (Bool-cases (leb w 0xffff)) [
        | inl c ↦
            rw (a, b, c)
              (Reads-int 0xcd 1 w w refl (refl, refl, refl, (refl, refl)) (refl, refl)
                (ground arith) (omega arith))
        | inr c ↦ elim (Bool-cases (leb w 0xffff_ffff)) [
          | inl d ↦
              rw (a, b, c, d)
                (Reads-int 0xce 3 w w refl (refl, refl, refl, (refl, refl)) (refl, refl)
                  (ground arith) (omega arith))
          | inr d ↦
              rw (a, b, c, d)
                (Reads-int 0xcf 7 w w refl (refl, refl, refl, (refl, refl)) (refl, refl)
                  (ground arith) (omega arith))
        ]
      ]
    ]
  ]

  -- Every branch for a negative value
  print_negative-Reads :
      (w : ℕ)
      → 2 ^ 63 ≤ w
      → w < 2 ^ 64
      → Reads cfg (print_negative w (2 ^ 64 - w)) (int_object w) rest
  unfolding print_negative get_parser_from_type parsers find_parser int_value
  print_negative-Reads w lo hi = elim (Bool-cases (ltb (2 ^ 64 - 32) w)) [
    | inl a ↦ rw a (Reads-negative_fixint w (ltb→lt _ _ a) hi)
    | inr a ↦ elim (Bool-cases (leb (2 ^ 64 - w) 0x7f)) [
      | inl b ↦
          rw (a, b)
            (Reads-int 0xd0 0 w w refl (refl, refl, refl, (refl, refl)) (refl, refl) (ground arith)
              (omega arith))
      | inr b ↦ elim (Bool-cases (leb (2 ^ 64 - w) 0x7fff)) [
        | inl c ↦
            rw (a, b, c)
              (Reads-int 0xd1 1 w w refl (refl, refl, refl, (refl, refl)) (refl, refl)
                (ground arith) (omega arith))
        | inr c ↦ elim (Bool-cases (leb (2 ^ 64 - w) 0x7fff_ffff)) [
          | inl d ↦
              rw (a, b, c, d)
                (Reads-int 0xd2 3 w w refl (refl, refl, refl, (refl, refl)) (refl, refl)
                  (ground arith) (omega arith))
          | inr d ↦
              rw (a, b, c, d)
                (Reads-int 0xd3 7 w w refl (refl, refl, refl, (refl, refl)) (refl, refl)
                  (ground arith) (omega arith))
        ]
      ]
    ]
  ]

  pub print_int-Reads : (w : ℕ) → w < 2 ^ 64 → Reads cfg (print_int w) (int_object w) rest
  unfolding print_int
  print_int-Reads w h = elim (Bool-cases (ltb w (2 ^ 63))) [
    | inl a ↦ rw a (print_positive-Reads w (ltb→lt _ _ a))
    | inr a ↦ rw a (print_negative-Reads w (ground arith) h)
  ]

  pub print_double-Reads :
      (w : ℕ)
      → w < 2 ^ 64
      → Reads cfg (print_double w) (new_object (Store.float w) cfg.priority) rest
  unfolding print_double get_parser_from_type parsers find_parser parse_with
  print_double-Reads w h =
      Reads-field cfg (new_object (Store.float w) cfg.priority) rest 0xcb 7 (w % 2 ^ 64) refl
        (refl, refl, refl, (refl, refl))
        (λ p. rw (mod_small w h) (parse_float-field w rest cfg p h))

  pub print_bool-Reads :
      (v : Bool) → Reads cfg (print_bool v) (new_object (Store.boolean v) cfg.priority) rest
  unfolding print_bool get_parser_from_type parsers find_parser parse_with parse_bool
  print_bool-Reads true =
      Reads-type_value cfg (new_object (Store.boolean true) cfg.priority) rest 0xc3 refl
        (refl, refl, refl, (refl, refl)) (λ p. ground arith)
  print_bool-Reads false =
      Reads-type_value cfg (new_object (Store.boolean false) cfg.priority) rest 0xc2 refl
        (refl, refl, refl, (refl, refl)) (λ p. ground arith)

  pub print_null-Reads : Reads cfg print_null (new_object Store.null cfg.priority) rest
  unfolding print_null get_parser_from_type parsers find_parser parse_with parse_null
  print_null-Reads =
      Reads-type_value cfg (new_object Store.null cfg.priority) rest 0xc0 refl
        (refl, refl, refl, (refl, refl)) (λ p. ground arith)
