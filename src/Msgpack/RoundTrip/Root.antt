-- ===== src/Msgpack/RoundTrip/Root.antt =====
-- The root of a document: its header, and the last lines of `ucl_msgpack_consume` and
-- `ucl_parse_msgpack` behind it.
use libucl.Base.{
  ℕ, suc, ◌+◌, ◌^◌, ◌<◌, ◌≡◌, refl, ap, ◌∙◌, arith, false, leb, ltb, List, [], ◌∷◌, ◌++◌, Option,
  none, some, Bytes, All, bit_and, Bool-cases, inl, inr,
}
use mathlib.Core.Path.{subst}
use libucl.Base.Bits.{agree_below, agrees}
use libucl.Store.{Config, Payload, Parser, Frame, Obj, new_object}
use libucl.Store
use libucl.Store.Update.{update-same, update-other}
use libucl.Msgpack.Outcome.{ok, fail}
use libucl.Msgpack.Values.{parse_with, parse_array, parse_map}
use libucl.Msgpack.Machine.{
  Machine, State, start_array, start_assoc, read_array_value, read_assoc_key, finish_array_value,
  finish_assoc_value, step_in, after_start, do_start_array, do_start_assoc, initial, finish_in,
  close, get_next_container, pop_finished, bad_first_byte,
}
use libucl.Msgpack.Steps.{Steps, here, next}
use libucl.Msgpack.Emit.{print_array, print_object}
use libucl.Msgpack.Codec.Headers.{print_array-Opens, print_object-Opens, fixarray_byte, fixmap_byte}
use libucl.Msgpack.OpenRoot.{opened, enter_root, behind}
use libucl.Msgpack.RoundTrip.Element.{IsFinish}
use libucl.Msgpack.RoundTrip.Open.{start}
use libucl.Msgpack.RoundTrip.Ends.{Open}

-- The root container is open.
pub record RootOpen (cfg : Config) (p : Parser) (input : Bytes) (n : ℕ) (rest : Bytes) (up : State)
    (v : Payload) : Type 0 where
  pub to : Machine
  pub steps : Steps cfg to (initial p input)
  pub input_is : to.input ≡ rest
  pub is_open : Open p.fresh n [] up v (suc p.fresh) to
  pub top_is : to.parser.top_obj ≡ p.top_obj
  pub others : (r : ℕ) → r < p.fresh → to.parser.cell r ≡ p.cell r

module _ (cfg : Config) (p : Parser) (n b : ℕ) (tl : Bytes) (hs : p.stack ≡ [])
    (input : Bytes) where
  root_open :
      (m2 : Machine) (v : Payload) (finish up : State)
      → m2.parser ≡ opened cfg p v n
      → m2.input ≡ b ∷ tl
      → IsFinish finish
      → Steps cfg (after_start (ltb 0 n) m2 finish up) (initial p input)
      → RootOpen cfg p input n (b ∷ tl) up v
  root_open m2 v finish up hp hi hf st =
      let s =
        start m2 p.fresh n [] finish up
          (ap (λ (q : Parser). q.stack) hp
            ∙ ap (λ x. record { obj = some p.fresh; len = n } ∷ x) hs)
          hf in
      let parser_is : s.to.parser ≡ opened cfg p v n = s.parser_is ∙ hp in
      let child : (opened cfg p v n).cell p.fresh ≡ new_object v cfg.priority =
        update-same p.cell p.fresh (new_object v cfg.priority) in
      record {
        to = s.to;
        steps = subst (λ x. Steps cfg x (initial p input)) s.is st;
        input_is = s.input_is ∙ hi;
        is_open = record {
          pending = s.pending;
          payload_is =
              ap (λ (q : Parser). (q.cell p.fresh).payload) parser_is
              ∙ ap (λ (x : Obj). x.payload) child;
          alone =
              ap (λ (q : Parser). (q.cell p.fresh).siblings) parser_is
              ∙ ap (λ (x : Obj). x.siblings) child;
          base_is = ap (λ (q : Parser). q.fresh) parser_is ∙ omega arith;
          below = omega (arith, ap (λ (q : Parser). q.fresh) parser_is);
        };
        top_is = ap (λ (q : Parser). q.top_obj) parser_is;
        others = λ r lt.
            ap (λ (q : Parser). q.cell r) parser_is
            ∙ update-other p.cell p.fresh r (new_object v cfg.priority)
                (λ e. absurd (omega (arith, e, lt)));
      }

  -- The header that the writer prints for an array of `n` elements, at the root of a document, and more
  -- behind it, read on a parser without an open container: some rounds of the loop make a new empty
  -- array, put it alone on the stack, waiting for `n` elements, and stop right behind the header, to read
  -- the first element or, where there is none, to finish the array; all older objects are left alone.
  pub array-RootOpen :
      n < 2 ^ 32
      → input ≡ print_array n ++ (b ∷ tl)
      → RootOpen cfg p input n (b ∷ tl) read_array_value (Store.array [])
  unfolding step_in do_start_array parse_with
  array-RootOpen lt h =
      let o = print_array-Opens n (b ∷ tl) lt in
      root_open (behind cfg (initial p input) n (b ∷ tl) lt hs start_array (Store.array []))
        (Store.array []) finish_array_value read_array_value refl refl tt
        (next (h ∙ o.starts) (o.typed (initial p input) (h ∙ o.starts)) (
          next refl
            (rw
              (enter_root cfg (initial p input) o.entry n (b ∷ tl) start_array hs o.is_open
                (Store.array [])
                (λ q. ap (λ f. parse_with f cfg q n o.entry.fmt (b ∷ tl)) o.is_func))
              refl)
            here))

  -- The header that the writer prints for an object of `n` entries, at the root of a document, and more
  -- behind it, read on a parser without an open container: some rounds of the loop make a new empty
  -- object, put it alone on the stack, waiting for `n` entries, and stop right behind the header, to read
  -- the first key or, where there is none, to finish the object; all older objects are left alone.
  pub object-RootOpen :
      n < 2 ^ 32
      → input ≡ print_object n ++ (b ∷ tl)
      → RootOpen cfg p input n (b ∷ tl) read_assoc_key (Store.object [])
  unfolding step_in do_start_assoc parse_with parse_map parse_array
  object-RootOpen lt h =
      let o = print_object-Opens n (b ∷ tl) lt in
      root_open
        (record (behind cfg (initial p input) n (b ∷ tl) lt hs start_assoc (Store.object [])) {
          key = none;
        })
        (Store.object []) finish_assoc_value read_assoc_key refl refl tt
        (next (h ∙ o.starts) (o.typed (initial p input) (h ∙ o.starts)) (
          next refl
            (rw
              (enter_root cfg (initial p input) o.entry n (b ∷ tl) start_assoc hs o.is_open
                (Store.object [])
                (λ q. ap (λ f. parse_with f cfg q n o.entry.fmt (b ∷ tl)) o.is_func))
              refl)
            here))

-- The first byte of a container is one that `ucl_parse_msgpack` accepts.
pub record Accepted (bs : Bytes) : Type 0 where
  pub first : ℕ
  pub tail : Bytes
  pub starts : bs ≡ first ∷ tail
  pub good : bad_first_byte none first ≡ false

high_bit : (n : ℕ) → n < 32 → bit_and (0x80 + n) 0x80 ≡ 0x80
unfolding agrees
high_bit = agree_below 32 (λ n. bit_and (0x80 + n) 0x80) (λ n. 0x80) refl

array_bit : (n : ℕ) → n < 16 → bit_and (0x90 + n) 0x80 ≡ 0x80
unfolding agrees
array_bit = agree_below 16 (λ n. bit_and (0x90 + n) 0x80) (λ n. 0x80) refl

pub print_array-Accepted : (n : ℕ) → Accepted (print_array n)
unfolding print_array
print_array-Accepted n = elim (Bool-cases (leb n 0xf)) [
  | inl a ↦ rw a (record {
    first = 0x90 + n;
    tail = [];
    starts = ap (λ x. x ∷ []) (fixarray_byte n (ground arith));
    good = rw (array_bit n (ground arith)) refl;
  })
  | inr a ↦ elim (Bool-cases (leb n 0xffff)) [
    | inl c ↦ rw (a, c) (record { first = 0xdc; tail = _; starts = refl; good = refl })
    | inr c ↦ rw (a, c) (record { first = 0xdd; tail = _; starts = refl; good = refl })
  ]
]

pub print_object-Accepted : (n : ℕ) → Accepted (print_object n)
unfolding print_object
print_object-Accepted n = elim (Bool-cases (leb n 0xf)) [
  | inl a ↦ rw a (record {
    first = 0x80 + n;
    tail = [];
    starts = ap (λ x. x ∷ []) (fixmap_byte n (ground arith));
    good = rw (high_bit n (ground arith)) refl;
  })
  | inr a ↦ elim (Bool-cases (leb n 0xffff)) [
    | inl c ↦ rw (a, c) (record { first = 0xde; tail = _; starts = refl; good = refl })
    | inr c ↦ rw (a, c) (record { first = 0xdf; tail = _; starts = refl; good = refl })
  ]
]

pub finish_in-IsFinish :
    (s : State) (cfg : Config) (m : Machine) → IsFinish s → finish_in s cfg m ≡ ok m.parser
unfolding finish_in
finish_in-IsFinish finish_array_value cfg m h = refl
finish_in-IsFinish finish_assoc_value cfg m h = refl
finish_in-IsFinish _ cfg m h = absurd h

pop_every :
    (done : List Frame) (r : Option ℕ) (cur : Option ℕ)
    → All (λ (g : Frame). g.len ≡ 0) done
    → pop_finished (done ++ (record { obj = r; len = 0 } ∷ [])) cur ≡ ([], r)
unfolding pop_finished
pop_every [] r cur h = refl
pop_every (g ∷ done) r cur (h, hs) = rw h (pop_every done r g.obj hs)

pub close-done :
    (p : Parser) (done : List Frame) (r : Option ℕ)
    → All (λ (g : Frame). g.len ≡ 0) done
    → p.stack ≡ done ++ (record { obj = r; len = 0 } ∷ [])
    → close p ≡ ok (record p { stack = []; cur_obj = r })
unfolding close get_next_container
close-done p done r h hs =
    ap
      (λ (x : List Frame × Option ℕ).
        let q = record p { stack = x.0; cur_obj = x.1 } in
        elim q.stack [ [] ↦ ok q | f ∷ fs ↦ fail q Store.incomplete_container ])
      (ap (λ s. pop_finished s p.cur_obj) hs ∙ pop_every done r p.cur_obj h)
