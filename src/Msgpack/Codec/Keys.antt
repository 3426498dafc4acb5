-- ===== src/Msgpack/Codec/Keys.antt =====
-- A string in the place of a key: the `read_type` and `read_assoc_key` states of src/ucl_msgpack.c.
use libucl.Base.{
  ℕ, ◌+◌, ◌^◌, ◌<◌, ◌≡◌, refl, ap, ◌∙◌, arith, true, false, leb, ltb, ◌==◌, ◌||◌, [], ◌∷◌, ◌++◌,
  some, Bytes, length, to_be, Bool-cases, inl, inr, length-append, take-append, drop-append,
}
use native.Mathlib.Nat.{mod-eq_of_lt}
use mathlib.Core.List.{append_assoc}
use libucl.Store.{Config}
use libucl.Msgpack.Format.{
  get_parser_from_type, Entry, find_parser, parsers, has, flag_fixed, flag_key,
}
use libucl.Msgpack.Outcome.{ok}
use libucl.Msgpack.Emit.{print_string, string_header, field_of}
use libucl.Msgpack.Codec.Reads.{
  IsPlain, do_read_type-fixed, do_read_type-length, read_fixed-embedded, read_length-field,
}
use libucl.Msgpack.Codec.Strings.{fixstr_entry, fixstr_type, fixstr_byte, fixstr_len}
use libucl.Msgpack.Machine.{
  Machine, is_length_size, do_read_type, do_assoc_key, step, step_in, read_type, read_assoc_key,
  read_assoc_value,
}
use libucl.Msgpack.Steps.{Steps, here, next}

-- `bs` is the text of the key `k`.
pub record Names (bs k : Bytes) (rest : Bytes) : Type 0 where
  pub first : ℕ
  pub tail : Bytes
  pub starts : bs ++ rest ≡ first ∷ tail
  pub entry : Entry
  pub is_key : has entry flag_key ≡ true
  pub typed :
      (m : Machine)
      → m.input ≡ first ∷ tail
      → do_read_type m first tail
        ≡ ok (record m {
          entry = some entry;
          len = length k;
          input = k ++ rest;
          state = m.next_state;
        })

module _ (k rest : Bytes) where
  Names-short : length k < 32 → Names ((0xa0 + length k) ∷ k) k rest
  Names-short lt = record {
    first = 0xa0 + length k;
    tail = k ++ rest;
    starts = refl;
    entry = fixstr_entry;
    is_key = refl;
    typed = λ m hm.
        do_read_type-fixed m (0xa0 + length k) (k ++ rest) fixstr_entry
          (fixstr_type (0xa0 + length k) (omega arith) (omega arith)) refl
        ∙ read_fixed-embedded m fixstr_entry (0xa0 + length k) (k ++ rest) refl refl (refl, refl)
        ∙ ap
            (λ n. ok (record m {
              entry = some fixstr_entry;
              len = n;
              input = k ++ rest;
              state = m.next_state;
            }))
            (fixstr_len (length k) lt);
  }

  Names-long :
      (e : Entry) (b n : ℕ)
      → get_parser_from_type b ≡ some e
      → (e.len ≡ n) × (has e flag_fixed ≡ false) × (is_length_size n ≡ true) × IsPlain e
      → has e flag_key ≡ true
      → length k < 256 ^ n
      → Names (field_of b n (length k) ++ k) k rest
  Names-long e b n hb (hn, hf, ht, hp) hk lt = rw (mod-eq_of_lt lt) (record {
    first = b;
    tail = (to_be n (length k) ++ k) ++ rest;
    starts = refl;
    entry = e;
    is_key = hk;
    typed = λ m hm.
        do_read_type-length m b ((to_be n (length k) ++ k) ++ rest) e hb hf
        ∙ rw (append_assoc (to_be n (length k)) k rest)
            (read_length-field m e n (length k) (k ++ rest) hn ht hp lt);
  })

  pub print_string-Names : length k < 2 ^ 32 → Names (print_string k) k rest
  unfolding print_string string_header get_parser_from_type parsers find_parser
  print_string-Names lt = elim (Bool-cases (leb (length k) 0x1f)) [
    | inl a ↦ rw a (rw (fixstr_byte (length k) (ground arith)) (Names-short (ground arith)))
    | inr a ↦ elim (Bool-cases (leb (length k) 0xff)) [
      | inl b ↦
          rw (a, b) (Names-long _ 0xd9 1 refl (refl, refl, refl, (refl, refl)) refl (ground arith))
      | inr b ↦ elim (Bool-cases (leb (length k) 0xffff)) [
        | inl c ↦
            rw (a, b, c)
              (Names-long _ 0xda 2 refl (refl, refl, refl, (refl, refl)) refl (ground arith))
        | inr c ↦
            rw (a, b, c)
              (Names-long _ 0xdb 4 refl (refl, refl, refl, (refl, refl)) refl (ground arith))
      ]
    ]
  ]

-- The machine behind a key: the key is known, and its value is up.
pub record KeyRead (cfg : Config) (k rest : Bytes) (m : Machine) : Type 0 where
  pub to : Machine
  pub steps : Steps cfg to m
  pub parser_is : to.parser ≡ m.parser
  pub input_is : to.input ≡ rest
  pub key_is : to.key ≡ some k
  pub state_is : to.state ≡ read_type
  pub next_is : to.next_state ≡ read_assoc_value

module _ (cfg : Config) (m : Machine) (c : ℕ) (k rest : Bytes) (hs : m.state ≡ read_type)
    (hn : m.next_state ≡ read_assoc_key) (r : Names (print_string (c ∷ k)) (c ∷ k) rest) where
  abbrev named : Machine
  named = record m {
    entry = some r.entry;
    len = length (c ∷ k);
    input = (c ∷ k) ++ rest;
    state = m.next_state;
  }

  abbrev behind_key : Machine
  behind_key = record named {
    key = some (c ∷ k);
    input = rest;
    state = read_type;
    next_state = read_assoc_value;
  }

  long_enough : (ltb (length ((c ∷ k) ++ rest)) (length (c ∷ k)) || (length (c ∷ k) == 0)) ≡ false
  long_enough = ground (arith, length-append (c ∷ k) rest)

  do_assoc_key-named : do_assoc_key named ≡ ok behind_key
  unfolding do_assoc_key
  do_assoc_key-named = rw r.is_key (
      rw long_enough (
        rw
          (
            take-append (length (c ∷ k)) (c ∷ k) rest refl,
            drop-append (length (c ∷ k)) (c ∷ k) rest refl,
          )
          refl))

  step-first : m.input ≡ print_string (c ∷ k) ++ rest → step cfg m r.first r.tail ≡ ok named
  unfolding step_in
  step-first h = ap (λ s. step_in s cfg m r.first r.tail) hs ∙ r.typed m (h ∙ r.starts)

  step-key : step cfg named c (k ++ rest) ≡ ok behind_key
  unfolding step_in
  step-key = ap (λ s. step_in s cfg named c (k ++ rest)) hn ∙ do_assoc_key-named

  Names-KeyRead : m.input ≡ print_string (c ∷ k) ++ rest → KeyRead cfg (c ∷ k) rest m
  Names-KeyRead h = record {
    to = behind_key;
    steps = next (h ∙ r.starts) (step-first h) (next refl step-key here);
    parser_is = refl;
    input_is = refl;
    key_is = refl;
    state_is = refl;
    next_is = refl;
  }

-- A machine that waits for the key of an entry, and whose input starts with what the writer prints
-- for a key of 1 to 2^32 - 1 bytes: some rounds of the loop read the same key and stop right behind
-- it, to read the value; the parser is as it was.
pub print_string-KeyRead :
    (cfg : Config) (m : Machine) (k rest : Bytes)
    → m.state ≡ read_type
    → m.next_state ≡ read_assoc_key
    → 0 < length k
    → length k < 2 ^ 32
    → m.input ≡ print_string k ++ rest
    → KeyRead cfg k rest m
print_string-KeyRead cfg m [] rest hs hn pos lt h = absurd (omega (arith, pos))
print_string-KeyRead cfg m (c ∷ k) rest hs hn pos lt h =
    Names-KeyRead cfg m c k rest hs hn (print_string-Names (c ∷ k) rest lt) h
