-- ===== src/Msgpack/Codec/Headers.antt =====
-- The headers of arrays and objects, between writer and reader.
use libucl.Base.{
  ℕ, ◌+◌, ◌-◌, ◌^◌, ◌%◌, ◌≤◌, ◌<◌, ◌≡◌, refl, ◌∙◌, arith, true, false, leb, [], ◌∷◌, ◌++◌, some,
  Bytes, to_be, from_be-to_be, bit_and, bit_or, Bool-cases, inl, inr,
}
use libucl.Base.Bits.{agree_below, agrees}
use native.Mathlib.Nat.{mod-eq_of_lt}
use libucl.Msgpack.Format.{
  get_parser_from_type, Format, ParseFunction, Entry, find_parser, parsers, has, flag_fixed,
  flag_typevalue, flag_container,
}
use libucl.Msgpack.Outcome.{ok}
use libucl.Msgpack.Machine.{
  Machine, State, start_array, start_assoc, do_read_type, read_fixed, read_length, after_type,
  is_length_size,
}
use libucl.Msgpack.Emit.{print_array, print_object, field_of}
use libucl.Msgpack.Codec.Fields.{field_fits, take_field, drop_field}
use libucl.Msgpack.Codec.Reads.{do_read_type-fixed, do_read_type-length}

-- `bs` is the header of a container of `n` elements, which the state `start` then sets up with `func`.
pub record Opens (bs : Bytes) (start : State) (func : ParseFunction) (n : ℕ) (rest : Bytes)
    : Type 0 where
  pub first : ℕ
  pub tail : Bytes
  pub starts : bs ++ rest ≡ first ∷ tail
  pub entry : Entry
  pub is_func : entry.func ≡ func
  pub is_open : has entry flag_container ≡ true
  pub typed :
      (m : Machine)
      → m.input ≡ first ∷ tail
      → do_read_type m first tail
        ≡ ok (record m { entry = some entry; len = n; input = rest; state = start })

read_fixed-container :
    (m : Machine) (e : Entry) (b : ℕ) (tl : Bytes)
    → e.len ≡ 0
    → has e flag_typevalue ≡ false
    → read_fixed m e b tl
      ≡ ok (record m {
        entry = some e;
        len = bit_and b (255 - e.prefix);
        input = tl;
        state = after_type e m.next_state;
      })
unfolding read_fixed
read_fixed-container m e b tl hl ht = rw (ht, hl) (ground arith)

read_length-container :
    (m : Machine) (e : Entry) (k v : ℕ) (tl : Bytes)
    → e.len ≡ k
    → is_length_size k ≡ true
    → v < 256 ^ k
    → read_length m e (to_be k v ++ tl)
      ≡ ok (record m { entry = some e; len = v; input = tl; state = after_type e m.next_state })
unfolding read_length
read_length-container m e k v tl hk hs hv =
    rw hk
      (rw (field_fits k v tl, hs) (rw (take_field k v tl, drop_field k v tl, from_be-to_be k v hv)))

module _ (start : State) (func : ParseFunction) (n : ℕ) (rest : Bytes) where
  header_short :
      {e : Entry} (b : ℕ)
      → get_parser_from_type b ≡ some e
      → (e.func ≡ func) × (has e flag_container ≡ true)
      → ((s : State) → after_type e s ≡ start)
      → (e.len ≡ 0) × (has e flag_fixed ≡ true) × (has e flag_typevalue ≡ false)
      → bit_and b (255 - e.prefix) ≡ n
      → Opens (b ∷ []) start func n rest
  header_short {e} b hb (hfn, ho) hs (hk, hf, ht) hl = record {
    first = b;
    tail = rest;
    starts = refl;
    entry = e;
    is_func = hfn;
    is_open = ho;
    typed = λ m hm.
        do_read_type-fixed m b rest e hb hf
        ∙ rw (← hs m.next_state, ← hl) (read_fixed-container m e b rest hk ht);
  }

  header_long :
      {e : Entry} (b k : ℕ)
      → get_parser_from_type b ≡ some e
      → (e.func ≡ func) × (has e flag_container ≡ true)
      → ((s : State) → after_type e s ≡ start)
      → (e.len ≡ k) × (has e flag_fixed ≡ false) × (is_length_size k ≡ true)
      → n < 256 ^ k
      → Opens (field_of b k n) start func n rest
  header_long {e} b k hb (hfn, ho) hs (hk, hf, ht) lt = record {
    first = b;
    tail = to_be k (n % 256 ^ k) ++ rest;
    starts = refl;
    entry = e;
    is_func = hfn;
    is_open = ho;
    typed = λ m hm.
        do_read_type-length m b (to_be k (n % 256 ^ k) ++ rest) e hb hf
        ∙ rw (← hs m.next_state, mod-eq_of_lt lt) (read_length-container m e k n rest hk ht lt);
  }

abbrev fixarray_entry : Entry
fixarray_entry = record {
  prefix = 0x90;
  prefixlen = 4;
  fmt = Format.fixarray;
  len = 0;
  flags = 3;
  func = ParseFunction.parse_array;
}

abbrev fixmap_entry : Entry
fixmap_entry = record {
  prefix = 0x80;
  prefixlen = 4;
  fmt = Format.fixmap;
  len = 0;
  flags = 19;
  func = ParseFunction.parse_map;
}

fixarray_type : (w : ℕ) → 0x90 ≤ w → w < 0xa0 → get_parser_from_type w ≡ some fixarray_entry
unfolding get_parser_from_type parsers find_parser
fixarray_type w lo hi = ground arith

fixmap_type : (w : ℕ) → 0x80 ≤ w → w < 0x90 → get_parser_from_type w ≡ some fixmap_entry
unfolding get_parser_from_type parsers find_parser
fixmap_type w lo hi = ground arith

pub fixarray_byte : (n : ℕ) → n < 16 → bit_and (bit_or n 0x90) 0xff ≡ 0x90 + n
unfolding agrees
fixarray_byte = agree_below 16 (λ n. bit_and (bit_or n 0x90) 0xff) (λ n. 0x90 + n) refl

fixarray_len : (n : ℕ) → n < 16 → bit_and (0x90 + n) (255 - 0x90) ≡ n
unfolding agrees
fixarray_len = agree_below 16 (λ n. bit_and (0x90 + n) (255 - 0x90)) (λ n. n) refl

pub fixmap_byte : (n : ℕ) → n < 16 → bit_and (bit_or n 0x80) 0xff ≡ 0x80 + n
unfolding agrees
fixmap_byte = agree_below 16 (λ n. bit_and (bit_or n 0x80) 0xff) (λ n. 0x80 + n) refl

fixmap_len : (n : ℕ) → n < 16 → bit_and (0x80 + n) (255 - 0x80) ≡ n
unfolding agrees
fixmap_len = agree_below 16 (λ n. bit_and (0x80 + n) (255 - 0x80)) (λ n. n) refl

module _ (n : ℕ) (rest : Bytes) where
  pub print_array-Opens :
      n < 2 ^ 32 → Opens (print_array n) start_array ParseFunction.parse_array n rest
  unfolding print_array get_parser_from_type parsers find_parser
  print_array-Opens h = elim (Bool-cases (leb n 0xf)) [
    | inl a ↦
        rw (a, fixarray_byte n (ground arith))
          (header_short start_array ParseFunction.parse_array n rest (0x90 + n)
            (fixarray_type (0x90 + n) (omega arith) (ground arith)) (refl, refl) (λ s. refl)
            (refl, refl, refl) (fixarray_len n (ground arith)))
    | inr a ↦ elim (Bool-cases (leb n 0xffff)) [
      | inl b ↦
          rw (a, b)
            (header_long start_array ParseFunction.parse_array n rest 0xdc 2 refl (refl, refl)
              (λ s. refl) (refl, refl, refl) (ground arith))
      | inr b ↦
          rw (a, b)
            (header_long start_array ParseFunction.parse_array n rest 0xdd 4 refl (refl, refl)
              (λ s. refl) (refl, refl, refl) h)
    ]
  ]

  pub print_object-Opens :
      n < 2 ^ 32 → Opens (print_object n) start_assoc ParseFunction.parse_map n rest
  unfolding print_object get_parser_from_type parsers find_parser
  print_object-Opens h = elim (Bool-cases (leb n 0xf)) [
    | inl a ↦
        rw (a, fixmap_byte n (ground arith))
          (header_short start_assoc ParseFunction.parse_map n rest (0x80 + n)
            (fixmap_type (0x80 + n) (omega arith) (ground arith)) (refl, refl) (λ s. refl)
            (refl, refl, refl) (fixmap_len n (ground arith)))
    | inr a ↦ elim (Bool-cases (leb n 0xffff)) [
      | inl b ↦
          rw (a, b)
            (header_long start_assoc ParseFunction.parse_map n rest 0xde 2 refl (refl, refl)
              (λ s. refl) (refl, refl, refl) (ground arith))
      | inr b ↦
          rw (a, b)
            (header_long start_assoc ParseFunction.parse_map n rest 0xdf 4 refl (refl, refl)
              (λ s. refl) (refl, refl, refl) h)
    ]
  ]
