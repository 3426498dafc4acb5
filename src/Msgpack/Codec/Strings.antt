-- ===== src/Msgpack/Codec/Strings.antt =====
-- Strings, text and binary, behind their headers.
use libucl.Base.{
  ℕ, ◌+◌, ◌-◌, ◌^◌, ◌≤◌, ◌<◌, ◌≡◌, refl, arith, Bool, true, false, leb, ◌∷◌, ◌++◌, some, Bytes,
  length, bit_and, bit_or, Bool-cases, inl, inr, length-append, take-append,
}
use native.Mathlib.Nat.{mod-eq_of_lt}
use libucl.Base.Bits.{agree_below, agrees}
use libucl.Store.{Config, Parser, alloc_cur}
use libucl.Msgpack.Format.{
  get_parser_from_type, Format, ParseFunction, Entry, find_parser, parsers, has, flag_fixed,
}
use libucl.Msgpack.Values.{parse_with, parse_string, string_object, is_binary}
use libucl.Msgpack.Outcome.{ok}
use libucl.Msgpack.Emit.{print_string, print_binary_string, string_header, binary_header, field_of}
use libucl.Msgpack.Codec.Reads.{Reads, IsPlain, Reads-short, Reads-long}
use libucl.Msgpack.Machine.{is_length_size}

abbrev pub fixstr_entry : Entry
fixstr_entry = record {
  prefix = 0xa0;
  prefixlen = 3;
  fmt = Format.fixstr;
  len = 0;
  flags = 33;
  func = ParseFunction.parse_string;
}

pub fixstr_type : (w : ℕ) → 0xa0 ≤ w → w < 0xc0 → get_parser_from_type w ≡ some fixstr_entry
unfolding get_parser_from_type parsers find_parser
fixstr_type w lo hi = ground arith

pub fixstr_byte : (n : ℕ) → n < 32 → bit_and (bit_or n 0xa0) 0xff ≡ 0xa0 + n
unfolding agrees
fixstr_byte = agree_below 32 (λ n. bit_and (bit_or n 0xa0) 0xff) (λ n. 0xa0 + n) refl

pub fixstr_len : (n : ℕ) → n < 32 → bit_and (0xa0 + n) (255 - 0xa0) ≡ n
unfolding agrees
fixstr_len = agree_below 32 (λ n. bit_and (0xa0 + n) (255 - 0xa0)) (λ n. n) refl

module _ (cfg : Config) (rest : Bytes) (s : Bytes) where
  parse_string-append :
      (p : Parser) (fmt : Format)
      → parse_string cfg p (length s) fmt (s ++ rest)
        ≡ ok (alloc_cur p (string_object (is_binary fmt) s cfg.priority), length s)
  unfolding parse_string
  parse_string-append p fmt =
      rw (take-append (length s) s rest refl) (ground (arith, length-append s rest))

  Reads-string :
      {e : Entry} (b k : ℕ) (binary : Bool)
      → get_parser_from_type b ≡ some e
      → (e.len ≡ k) × (has e flag_fixed ≡ false) × (is_length_size k ≡ true) × IsPlain e
      → (e.func ≡ ParseFunction.parse_string) × (is_binary e.fmt ≡ binary)
      → length s < 256 ^ k
      → Reads cfg (field_of b k (length s) ++ s) (string_object binary s cfg.priority) rest
  unfolding parse_with
  Reads-string {e} b k binary hb he (hf, hw) lt = rw (mod-eq_of_lt lt) (
      Reads-long cfg (string_object binary s cfg.priority) rest b k s (tt, refl) hb he lt
        λ p. rw (hf, parse_with) (rw (← hw) (parse_string-append p e.fmt)))

  Reads-fixstr :
      length s < 32 → Reads cfg ((0xa0 + length s) ∷ s) (string_object false s cfg.priority) rest
  unfolding parse_with
  Reads-fixstr h =
      Reads-short cfg (string_object false s cfg.priority) rest (0xa0 + length s) s (tt, refl)
        (fixstr_type (0xa0 + length s) (omega arith) (omega arith)) (refl, refl, refl, (refl, refl))
        (fixstr_len (length s) h) (λ p. parse_string-append p Format.fixstr)

  pub print_string-Reads :
      length s < 2 ^ 32 → Reads cfg (print_string s) (string_object false s cfg.priority) rest
  unfolding print_string string_header get_parser_from_type parsers find_parser
  print_string-Reads h = elim (Bool-cases (leb (length s) 0x1f)) [
    | inl a ↦ rw a (rw (fixstr_byte (length s) (ground arith)) (Reads-fixstr (ground arith)))
    | inr a ↦ elim (Bool-cases (leb (length s) 0xff)) [
      | inl b ↦
          rw (a, b)
            (Reads-string 0xd9 1 false refl (refl, refl, refl, (refl, refl)) (refl, refl)
              (ground arith))
      | inr b ↦ elim (Bool-cases (leb (length s) 0xffff)) [
        | inl c ↦
            rw (a, b, c)
              (Reads-string 0xda 2 false refl (refl, refl, refl, (refl, refl)) (refl, refl)
                (ground arith))
        | inr c ↦
            rw (a, b, c)
              (Reads-string 0xdb 4 false refl (refl, refl, refl, (refl, refl)) (refl, refl)
                (ground arith))
      ]
    ]
  ]

  pub print_binary_string-Reads :
      length s < 2 ^ 32 → Reads cfg (print_binary_string s) (string_object true s cfg.priority) rest
  unfolding print_binary_string binary_header get_parser_from_type parsers find_parser
  print_binary_string-Reads h = elim (Bool-cases (leb (length s) 0xff)) [
    | inl b ↦
        rw b (
          Reads-string 0xc4 1 true refl (refl, refl, refl, (refl, refl)) (refl, refl)
            (ground arith))
    | inr b ↦ elim (Bool-cases (leb (length s) 0xffff)) [
      | inl c ↦
          rw (b, c)
            (Reads-string 0xc5 2 true refl (refl, refl, refl, (refl, refl)) (refl, refl)
              (ground arith))
      | inr c ↦
          rw (b, c)
            (Reads-string 0xc6 4 true refl (refl, refl, refl, (refl, refl)) (refl, refl)
              (ground arith))
    ]
  ]
