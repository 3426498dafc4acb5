-- ===== src/Msgpack/RoundTrip/Document.antt =====
-- A whole document: `ucl_parse_msgpack` on what `ucl_object_emit_msgpack` wrote.
use libucl.Base.{
  ℕ, suc, ◌+◌, ◌<◌, ◌≡◌, refl, sym, ap, ◌∙◌, arith, true, false, List, [], ◌∷◌, ◌++◌, Option, none,
  some, Bytes, All,
}
use mathlib.Core.Path.{subst}
use mathlib.Core.List.{append-nil}
use libucl.Store.{Config, Payload, Parser, Frame, Obj}
use libucl.Store
use libucl.Msgpack.Outcome.{ok}
use libucl.Msgpack.Machine.{
  Machine, State, read_array_value, read_assoc_key, enough, consume, parse_msgpack, bad_first_byte,
  top_container,
}
use libucl.Msgpack.Steps.{Steps-trans, run-Steps}
use libucl.Msgpack.Termination.Total.{run-ne-stuck}
use libucl.Msgpack.Emit.{
  Value, Items, Fields, emit, emit_items, emit_fields, count_items, count_fields, print_array,
  print_object,
}
use libucl.Msgpack.Emit
use libucl.Msgpack.RoundTrip.Spec.{
  Holds, HoldsItems, HoldsFields, size, size_items, size_fields, refs, entries, IsWritable,
  ends_well,
}
use libucl.Msgpack.RoundTrip.Element.{Pending, finishing, reading, IsFinish}
use libucl.Msgpack.RoundTrip.Fill.{Filled}
use libucl.Msgpack.RoundTrip.Ends.{items-IsCons, fields-IsCons, ends_items-true, ends_fields-true}
use libucl.Msgpack.RoundTrip.Tree.{items-Filled, fields-Filled}
use libucl.Msgpack.RoundTrip.Root.{
  RootOpen, array-RootOpen, object-RootOpen, print_array-Accepted, print_object-Accepted,
  finish_in-IsFinish, close-done,
}

-- The parser has read the text as the tree `v`, in new cells, and no other cell has changed.
pub record Parsed (cfg : Config) (p : Parser) (input : Bytes) (v : Value) : Type 0 where
  pub to : Parser
  pub parses : parse_msgpack cfg p input ≡ ok to
  pub top_is : to.top_obj ≡ some p.fresh
  pub stack_is : to.stack ≡ []
  pub fresh_is : to.fresh ≡ p.fresh + size v
  pub holds : Holds to.cell p.fresh v
  pub others : (r : ℕ) → r < p.fresh → to.cell r ≡ p.cell r

-- A root that is an array or an object
abbrev IsContainer : Value → Type 0
IsContainer (Emit.array vs) = Unit
IsContainer (Emit.object fs) = Unit
IsContainer _ = ⊥

parse_msgpack-consume :
    (cfg : Config) (p q : Parser) (input tl : Bytes) (b : ℕ)
    → input ≡ b ∷ tl
    → bad_first_byte (top_container p.stack) b ≡ false
    → consume (enough input) cfg p input ≡ ok q
    → q.top_obj ≡ none
    → parse_msgpack cfg p input ≡ ok (record q { top_obj = q.cur_obj })
unfolding parse_msgpack
parse_msgpack-consume cfg p q input tl b hi hb hc ht =
    subst
      (λ x.
        consume (enough x) cfg p x ≡ ok q
        → parse_msgpack cfg p x ≡ ok (record q { top_obj = q.cur_obj }))
      (sym hi)
      (λ e.
        rw (hb, e)
          (ap
            (λ (t : Option ℕ).
              ok (record q { top_obj = elim t [ none ↦ q.cur_obj | some r ↦ some r ] }))
            ht))
      hc

finishing-inverse :
    (m : Machine) (c : ℕ) (up : State)
    → Pending m (record { obj = some c; len = 0 } ∷ []) up
    → (done : List Frame) × All (λ (g : Frame). g.len ≡ 0) done
      × (m.parser.stack ≡ done ++ (record { obj = some c; len = 0 } ∷ []))
      × IsFinish m.state
finishing-inverse m c up (finishing done hd hs hf) = (done, hd, hs, hf)
finishing-inverse m c up (reading hs hf ht hn) = cc

module _ (cfg : Config) (p : Parser) (input rest tl : Bytes) (n b : ℕ) (up : State)
    (start filled : Payload) (root : RootOpen cfg p input n rest up start) (k : ℕ)
    (Held : (ℕ → Obj) → Type 0) (f : Filled cfg p.fresh [] up filled k Held [] root.to) where
  consume-Filled :
      consume (enough input) cfg p input
      ≡ ok (record f.to.parser { stack = []; cur_obj = some p.fresh })
  unfolding consume
  consume-Filled =
      let (done, hd, hs, hf) = finishing-inverse f.to p.fresh up f.pending in
      rw
        (
          run-Steps (enough input) (Steps-trans root.steps f.steps) f.input_is
              (run-ne-stuck cfg p input),
          finish_in-IsFinish f.to.state cfg f.to hf,
          close-done f.to.parser done (some p.fresh) hd hs,
        )
        refl

  -- A root that has been opened and filled is a document that has been read.
  Filled-Parsed :
      (v : Value)
      → input ≡ b ∷ tl
      → bad_first_byte none b ≡ false
      → p.stack ≡ []
      → p.top_obj ≡ none
      → size v ≡ suc k
      → (((f.parser.cell p.fresh).payload ≡ filled)
          → Held f.parser.cell
          → Holds f.parser.cell p.fresh v)
      → Parsed cfg p input v
  Filled-Parsed v hi hb hs ht hk join =
      let cell_is : f.to.parser.cell ≡ f.parser.cell = ap (λ (q : Parser). q.cell) f.parser_is in
      let root_fresh : root.to.parser.fresh ≡ suc p.fresh = root.is_open.base_is in
      record {
        to = record f.to.parser { stack = []; cur_obj = some p.fresh; top_obj = some p.fresh };
        parses =
            parse_msgpack-consume cfg p _ input tl b hi
              (ap (λ s. bad_first_byte (top_container s) b) hs ∙ hb) consume-Filled
              (ap (λ (q : Parser). q.top_obj) f.parser_is ∙ f.top_is ∙ root.top_is ∙ ht);
        top_is = refl;
        stack_is = refl;
        fresh_is =
            omega (arith, ap (λ (q : Parser). q.fresh) f.parser_is, f.fresh_is, root_fresh, hk);
        holds = subst (λ x. Holds x p.fresh v) (sym cell_is) (join f.payload_is f.holds);
        others = λ r lt.
            ap (λ (g : ℕ → Obj). g r) cell_is
            ∙ f.others r (λ e. absurd (omega (arith, e, lt))) (omega (arith, root_fresh, lt))
            ∙ root.others r lt;
      }

array-Parsed :
    (cfg : Config) (p : Parser) (vs : Items)
    → p.stack ≡ []
    → p.top_obj ≡ none
    → IsWritable cfg.key_lowercase (Emit.array vs)
    → ends_well (Emit.array vs) ≡ true
    → Parsed cfg p (emit (Emit.array vs)) (Emit.array vs)
unfolding emit IsWritable ends_well Holds size
array-Parsed cfg p vs hs ht (lt, ws) he =
    let (b, tl, hc) = items-IsCons cfg vs [] ws (λ e. he) in
    let root =
      array-RootOpen cfg p (count_items vs) b tl hs (print_array (count_items vs) ++ emit_items vs)
        lt (ap (λ x. print_array (count_items vs) ++ x) (sym (append-nil (emit_items vs)) ∙ hc)) in
    let f =
      items-Filled cfg vs ws p.fresh [] [] (suc p.fresh) root.to [] root.is_open
        (root.input_is ∙ sym hc) (λ e. ends_items-true false vs he) in
    let first = print_array-Accepted (count_items vs) in
    Filled-Parsed cfg p (print_array (count_items vs) ++ emit_items vs) (b ∷ tl)
      (first.tail ++ emit_items vs) (count_items vs) first.first read_array_value (Store.array [])
      (Store.array (refs (suc p.fresh) vs)) root (size_items vs)
      (λ cell. HoldsItems cell (suc p.fresh) vs) f (Emit.array vs)
      (ap (λ x. x ++ emit_items vs) first.starts) first.good hs ht refl (λ hp hh. (hp, hh))

object-Parsed :
    (cfg : Config) (p : Parser) (kvs : Fields)
    → p.stack ≡ []
    → p.top_obj ≡ none
    → IsWritable cfg.key_lowercase (Emit.object kvs)
    → ends_well (Emit.object kvs) ≡ true
    → Parsed cfg p (emit (Emit.object kvs)) (Emit.object kvs)
unfolding emit IsWritable ends_well Holds size
object-Parsed cfg p kvs hs ht (lt, ws) he =
    let (b, tl, hc) = fields-IsCons cfg kvs [] [] ws (λ e. he) in
    let root =
      object-RootOpen cfg p (count_fields kvs) b tl hs
        (print_object (count_fields kvs) ++ emit_fields kvs) lt
        (ap (λ x. print_object (count_fields kvs) ++ x)
          (sym (append-nil (emit_fields kvs)) ∙ hc)) in
    let f =
      fields-Filled cfg kvs [] ws p.fresh [] [] (suc p.fresh) root.to [] refl root.is_open
        (root.input_is ∙ sym hc) (λ e. ends_fields-true false kvs he) in
    let first = print_object-Accepted (count_fields kvs) in
    Filled-Parsed cfg p (print_object (count_fields kvs) ++ emit_fields kvs) (b ∷ tl)
      (first.tail ++ emit_fields kvs) (count_fields kvs) first.first read_assoc_key
      (Store.object []) (Store.object (entries (suc p.fresh) kvs)) root (size_fields kvs)
      (λ cell. HoldsFields cell (suc p.fresh) kvs) f (Emit.object kvs)
      (ap (λ x. x ++ emit_fields kvs) first.starts) first.good hs ht refl (λ hp hh. (hp, hh))

-- What the writer prints for an array or an object, `ucl_parse_msgpack` reads on a parser without an
-- open container or a root as that tree: the root is the first new object, the objects of the
-- elements follow it in the order of the text, and no object of before has changed. The tree is one
-- whose numbers fit 64 bits and lengths 32, whose keys are not empty and differ, with one value for
-- each key, and whose last element is no empty string, array or object.
pub emit-Parsed :
    (cfg : Config) (p : Parser) (v : Value)
    → IsContainer v
    → p.stack ≡ []
    → p.top_obj ≡ none
    → IsWritable cfg.key_lowercase v
    → ends_well v ≡ true
    → Parsed cfg p (emit v) v
emit-Parsed cfg p (Emit.array vs) c hs ht w he = array-Parsed cfg p vs hs ht w he
emit-Parsed cfg p (Emit.object kvs) c hs ht w he = object-Parsed cfg p kvs hs ht w he
emit-Parsed cfg p _ c hs ht w he = absurd c
