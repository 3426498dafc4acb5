-- ===== src/Msgpack/Codec/Reads.antt =====
-- The reader on one value, apart from the container that the value goes into.
use libucl.Base.{
  ℕ, zero, suc, ◌<◌, ◌≡◌, refl, arith, true, false, ltb, [], ◌∷◌, ◌++◌, some, Bytes, length,
  length-append, drop-append, drop, to_be, bit_and, ◌-◌, from_be-to_be, ◌^◌, ◌∙◌, sym,
}
use mathlib.Core.List.{append_assoc}
use libucl.Store.{Payload, string, Config, Parser, Obj, alloc_cur}
use libucl.Msgpack.Outcome.{ok}
use libucl.Msgpack.Format.{
  Entry, has, flag_fixed, flag_container, flag_typevalue, flag_assoc, get_parser_from_type,
}
use libucl.Msgpack.Values.{parse_with}
use libucl.Msgpack.Machine.{Machine, do_read_type, read_fixed, read_length, is_length_size}
use libucl.Msgpack.Codec.Fields.{length_field, drop_field, field_fits, take_field}

abbrev IsText : Payload → Type 0
IsText (string binary s) = Unit
IsText _ = ⊥

-- `bs` is a value that reads as the object `o`, whatever follows: its first byte has an entry that
-- leads to the next state, and the entry's function returns the object and stops at `rest`.
pub record Reads (cfg : Config) (bs : Bytes) (o : Obj) (rest : Bytes) : Type 0 where
  pub first : ℕ
  pub tail : Bytes
  pub starts : bs ++ rest ≡ first ∷ tail
  pub entry : Entry
  pub len : ℕ
  pub left : Bytes
  pub typed :
      (m : Machine)
      → m.input ≡ first ∷ tail
      → do_read_type m first tail
        ≡ ok (record m { entry = some entry; len = len; input = left; state = m.next_state })
  pub used : ℕ
  pub called :
      (p : Parser) → parse_with entry.func cfg p len entry.fmt left ≡ ok (alloc_cur p o, used)
  pub fits : ltb (length left) used ≡ false
  pub drops : drop used left ≡ rest
  pub uses : used ≡ 0 → IsText o.payload × (o.len ≡ 0)

drop-nil :
    (left : Bytes) (used : ℕ) {rest : Bytes}
    → drop used left ≡ rest
    → ltb (length left) used ≡ false
    → left ≡ []
    → (rest ≡ []) × (used ≡ 0)
drop-nil [] zero hd hf h = (sym hd, refl)
drop-nil [] (suc n) hd hf h = absurd (ground arith)
drop-nil (b ∷ bs) used hd hf h = cc

-- What is left behind the type byte is empty only for an empty value at the end of the input.
pub left-ne-nil :
    {cfg : Config} {bs : Bytes} {o : Obj} {rest : Bytes} (r : Reads cfg bs o rest)
    → r.left ≡ []
    → (rest ≡ []) × (r.used ≡ 0)
left-ne-nil r h = drop-nil r.left r.used r.drops r.fits h

-- An entry that is no container leads to the next state.
abbrev pub IsPlain : Entry → Type 0
IsPlain e = (has e flag_assoc ≡ false) × (has e flag_container ≡ false)

pub do_read_type-fixed :
    (m : Machine) (b : ℕ) (tl : Bytes) (e : Entry)
    → get_parser_from_type b ≡ some e
    → has e flag_fixed ≡ true
    → do_read_type m b tl ≡ read_fixed m e b tl
unfolding do_read_type
do_read_type-fixed m b tl e hb hf = rw (hb, do_read_type) (rw hf)

pub do_read_type-length :
    (m : Machine) (b : ℕ) (tl : Bytes) (e : Entry)
    → get_parser_from_type b ≡ some e
    → has e flag_fixed ≡ false
    → do_read_type m b tl ≡ read_length m e tl
unfolding do_read_type
do_read_type-length m b tl e hb hf = rw (hb, do_read_type) (rw hf)

-- The type byte of a fixed field of `k` bytes.
read_fixed-field :
    (m : Machine) (e : Entry) (b k : ℕ) (tl : Bytes)
    → e.len ≡ suc k
    → ltb (length m.input) (suc k) ≡ false
    → has e flag_typevalue ≡ false
    → IsPlain e
    → read_fixed m e b tl
      ≡ ok (record m { entry = some e; len = suc k; input = tl; state = m.next_state })
unfolding read_fixed
read_fixed-field m e b k tl hk hl ht (ha, hc) = rw (ha, hc, ht, hk) (ground arith)

read_fixed-value :
    (m : Machine) (e : Entry) (b : ℕ) (tl : Bytes)
    → m.input ≡ b ∷ tl
    → ltb 1 e.len ≡ false
    → has e flag_typevalue ≡ true
    → IsPlain e
    → read_fixed m e b tl
      ≡ ok (record m { entry = some e; len = 0; input = b ∷ tl; state = m.next_state })
unfolding read_fixed
read_fixed-value m e b tl hm hl ht (ha, hc) = rw (ha, hc, ht, hm) (ground arith)

pub read_fixed-embedded :
    (m : Machine) (e : Entry) (b : ℕ) (tl : Bytes)
    → e.len ≡ 0
    → has e flag_typevalue ≡ false
    → IsPlain e
    → read_fixed m e b tl
      ≡ ok (record m {
        entry = some e;
        len = bit_and b (255 - e.prefix);
        input = tl;
        state = m.next_state;
      })
unfolding read_fixed
read_fixed-embedded m e b tl hl ht (ha, hc) = rw (ha, hc, ht) (ground arith)

pub read_length-field :
    (m : Machine) (e : Entry) (k v : ℕ) (tl : Bytes)
    → e.len ≡ k
    → is_length_size k ≡ true
    → IsPlain e
    → v < 256 ^ k
    → read_length m e (to_be k v ++ tl)
      ≡ ok (record m { entry = some e; len = v; input = tl; state = m.next_state })
unfolding read_length
read_length-field m e k v tl hk hs (ha, hc) hv =
    rw (ha, hc, hk)
      (rw (field_fits k v tl, hs) (rw (take_field k v tl, drop_field k v tl, from_be-to_be k v hv)))

-- A value whose type byte is followed by a field of `k` bytes.
module _ (cfg : Config) (o : Obj) (rest : Bytes) where
  pub Reads-field :
      {e : Entry} (b k v : ℕ)
      → get_parser_from_type b ≡ some e
      → (e.len ≡ suc k) × (has e flag_fixed ≡ true) × (has e flag_typevalue ≡ false) × IsPlain e
      → ((p : Parser)
          → parse_with e.func cfg p (suc k) e.fmt (to_be (suc k) v ++ rest)
            ≡ ok (alloc_cur p o, suc k))
      → Reads cfg (b ∷ to_be (suc k) v) o rest
  Reads-field {e} b k v hb (hk, hf, ht, hp) hc = record {
    first = b;
    tail = to_be (suc k) v ++ rest;
    starts = refl;
    entry = e;
    len = suc k;
    left = to_be (suc k) v ++ rest;
    typed = λ m hm.
        do_read_type-fixed m b (to_be (suc k) v ++ rest) e hb hf
        ∙ read_fixed-field m e b k (to_be (suc k) v ++ rest) hk
            (rw hm (ground (arith, length_field (suc k) v rest))) ht hp;
    used = suc k;
    called = hc;
    fits = field_fits (suc k) v rest;
    drops = drop_field (suc k) v rest;
    uses = λ e. absurd (omega (arith, e));
  }

  -- A value that is its type byte.
  pub Reads-type_value :
      {e : Entry} (b : ℕ)
      → get_parser_from_type b ≡ some e
      → (ltb 1 e.len ≡ false)
        × (has e flag_fixed ≡ true)
        × (has e flag_typevalue ≡ true)
        × IsPlain e
      → ((p : Parser) → parse_with e.func cfg p 0 e.fmt (b ∷ rest) ≡ ok (alloc_cur p o, 1))
      → Reads cfg (b ∷ []) o rest
  Reads-type_value {e} b hb (hk, hf, ht, hp) hc = record {
    first = b;
    tail = rest;
    starts = refl;
    entry = e;
    len = 0;
    left = b ∷ rest;
    typed = λ m hm. do_read_type-fixed m b rest e hb hf ∙ read_fixed-value m e b rest hm hk ht hp;
    used = 1;
    called = hc;
    fits = ground arith;
    drops = refl;
    uses = λ e. absurd (omega (arith, e));
  }

  -- A string behind a header: its length is in the type byte.
  pub Reads-short :
      {e : Entry} (b : ℕ) (s : Bytes)
      → IsText o.payload × (o.len ≡ length s)
      → get_parser_from_type b ≡ some e
      → (e.len ≡ 0) × (has e flag_fixed ≡ true) × (has e flag_typevalue ≡ false) × IsPlain e
      → bit_and b (255 - e.prefix) ≡ length s
      → ((p : Parser)
          → parse_with e.func cfg p (length s) e.fmt (s ++ rest) ≡ ok (alloc_cur p o, length s))
      → Reads cfg (b ∷ s) o rest
  Reads-short {e} b s text hb (hk, hf, ht, hp) hl hc = record {
    first = b;
    tail = s ++ rest;
    starts = refl;
    entry = e;
    len = length s;
    left = s ++ rest;
    typed = λ m hm.
        do_read_type-fixed m b (s ++ rest) e hb hf
        ∙ rw (← hl) (read_fixed-embedded m e b (s ++ rest) hk ht hp);
    used = length s;
    called = hc;
    fits = ground (arith, length-append s rest);
    drops = drop-append (length s) s rest refl;
    uses = λ e. (text.0, text.1 ∙ e);
  }

  -- A string whose length stands in a field of `k` bytes.
  pub Reads-long :
      {e : Entry} (b k : ℕ) (s : Bytes)
      → IsText o.payload × (o.len ≡ length s)
      → get_parser_from_type b ≡ some e
      → (e.len ≡ k) × (has e flag_fixed ≡ false) × (is_length_size k ≡ true) × IsPlain e
      → length s < 256 ^ k
      → ((p : Parser)
          → parse_with e.func cfg p (length s) e.fmt (s ++ rest) ≡ ok (alloc_cur p o, length s))
      → Reads cfg (b ∷ (to_be k (length s) ++ s)) o rest
  Reads-long {e} b k s text hb (hk, hf, ht, hp) hl hc = record {
    first = b;
    tail = (to_be k (length s) ++ s) ++ rest;
    starts = refl;
    entry = e;
    len = length s;
    left = s ++ rest;
    typed = λ m hm.
        do_read_type-length m b ((to_be k (length s) ++ s) ++ rest) e hb hf
        ∙ rw (append_assoc (to_be k (length s)) s rest)
            (read_length-field m e k (length s) (s ++ rest) hk ht hp hl);
    used = length s;
    called = hc;
    fits = ground (arith, length-append s rest);
    drops = drop-append (length s) s rest refl;
    uses = λ e. (text.0, text.1 ∙ e);
  }
