-- ===== src/Msgpack/RoundTrip/Scalar.antt =====
-- A value that is no container, read into an open container by two rounds.
use libucl.Base.{
  ℕ, suc, ◌+◌, ◌≡◌, ◌≢◌, refl, sym, ap, ◌∙◌, arith, Bool, true, List, [], ◌∷◌, ◌++◌, none, some,
  Bytes,
}
use mathlib.Core.Path.{subst}
use libucl.Store
use libucl.Store.{Config, Payload, Parser, Frame, Obj, alloc_cur, update}
use libucl.Store.Update.{update-same, update-other}
use libucl.Msgpack.Outcome.{ok}
use libucl.Msgpack.Machine.{
  Machine, after_value, step, step_in, call_entry, insert_current, insert_object,
}
use libucl.Msgpack.Steps.{here, next}
use libucl.Msgpack.Codec.Reads.{Reads, left-ne-nil}
use libucl.Msgpack.Emit.{Value, emit}
use libucl.Msgpack.RoundTrip.Spec.{Holds, size, ends_well}
use libucl.Msgpack.RoundTrip.Insert.{
  Place, in_array, under, grow, Accepts, KeyIs, Inserted, insert_object-Inserted,
}
use libucl.Msgpack.RoundTrip.Element.{
  Waiting, After, Settled, settle, step-value, forget, key_of, HasText, element_state, finish_state,
  IsFinish,
}

-- The writer's bytes for `v` read as one object.
pub record Scalar (cfg : Config) (v : Value) (rest : Bytes) : Type 0 where
  pub object : Obj
  pub reads : Reads cfg (emit v) object rest
  pub holds : (cell : ℕ → Obj) (n : ℕ) → (cell n).payload ≡ object.payload → Holds cell n v
  pub alone : object.siblings ≡ []
  pub one : size v ≡ 1
  pub ends : ends_well v ≡ true → reads.used ≢ 0

Accepts-HasText :
    (caseless : Bool) (place : Place) (v : Payload) → Accepts caseless place v → HasText place
Accepts-HasText caseless in_array v h = tt
Accepts-HasText caseless (under k) (Store.object es) h = h.0
Accepts-HasText caseless (under k) _ h = absurd h

finish_state-IsFinish : (place : Place) → IsFinish (finish_state place)
finish_state-IsFinish in_array = tt
finish_state-IsFinish (under k) = tt

key_of-KeyIs : (place : Place) → KeyIs place (key_of place)
key_of-KeyIs in_array = tt
key_of-KeyIs (under k) = refl

module _ (cfg : Config) (place : Place) (c l : ℕ) (fs : List Frame) (m : Machine)
    (w : Waiting cfg place c l fs m) (o : Obj) where
  abbrev allocated : Parser
  allocated = alloc_cur m.parser o

  container_kept : allocated.cell c ≡ m.parser.cell c
  container_kept =
      update-other m.parser.cell m.parser.fresh c o (λ e. absurd (omega (arith, e, w.below)))

  inserted :
      (p' : Parser) × (insert_object cfg allocated (key_of place) m.parser.fresh ≡ ok p')
      × Inserted place allocated c m.parser.fresh (record { obj = some c; len = l } ∷ fs) p'
  inserted =
      insert_object-Inserted cfg allocated c m.parser.fresh l fs
        (λ e. absurd (omega (arith, e, w.below))) w.stack_is refl place (key_of place)
        (subst (λ (x : Obj). Accepts cfg.key_lowercase place x.payload) (sym container_kept)
          w.accepts)
        (key_of-KeyIs place) (ap (λ (x : Obj). x.siblings) container_kept ∙ w.alone)

  -- The type byte has been read.
  abbrev typed : {bs rest : Bytes} → Reads cfg bs o rest → Machine
  typed r = record m { entry = some r.entry; len = r.len; input = r.left; state = m.next_state }

  abbrev called : Bytes → Machine
  called rest = record m { entry = none; input = rest; state = m.next_state; parser = allocated }

  call-typed :
      {bs rest : Bytes} (r : Reads cfg bs o rest)
      → call_entry cfg (typed r) ≡ ok (record (called rest) { len = r.len })
  unfolding call_entry
  call-typed r = rw (r.called m.parser) (rw (r.fits, r.drops) refl)

  step-typed :
      {bs rest : Bytes} (r : Reads cfg bs o rest)
      → m.input ≡ bs ++ rest
      → step cfg m r.first r.tail ≡ ok (typed r)
  unfolding step_in
  step-typed r h = ap (λ s. step_in s cfg m r.first r.tail) w.state_is ∙ r.typed m (h ∙ r.starts)

  step-called :
      {bs rest : Bytes} (r : Reads cfg bs o rest) (p' : Parser) (b : ℕ) (tl : Bytes)
      → insert_object cfg allocated (key_of place) m.parser.fresh ≡ ok p'
      → step cfg (typed r) b tl
        ≡ ok (
            after_value
              (forget place (record (called rest) { len = r.len }))
              p'
              (finish_state place)
              (element_state place))
  unfolding insert_current
  step-called {rest} r p' b tl h =
      step-value cfg (typed r) (record (called rest) { len = r.len }) p'
        (record { obj = some c; len = suc l }) fs w.stack_is (call-typed r) place b tl w.next_is
        w.key_is (Accepts-HasText cfg.key_lowercase place (m.parser.cell c).payload w.accepts) h

input-forget : (place : Place) (m : Machine) → (forget place m).input ≡ m.input
input-forget in_array m = refl
input-forget (under k) m = refl

module _ (cfg : Config) (place : Place) (c l : ℕ) (fs : List Frame) (m : Machine)
    (w : Waiting cfg place c l fs m) (v : Value) (rest : Bytes) (sc : Scalar cfg v rest) where
  abbrev settled :
      (p' : Parser)
      → Inserted place
          (allocated cfg place c l fs m w sc.object)
          c
          m.parser.fresh
          (record { obj = some c; len = l } ∷ fs)
          p'
      → Settled
          (forget place
            (record (called cfg place c l fs m w sc.object rest) { len = sc.reads.len }))
          p'
          (record { obj = some c; len = l } ∷ fs)
          (finish_state place)
          (element_state place)
  settled p' ins =
      settle
        (forget place (record (called cfg place c l fs m w sc.object rest) { len = sc.reads.len }))
        p' (record { obj = some c; len = l } ∷ fs) (finish_state place) (element_state place)
        ins.stack_is (finish_state-IsFinish place)

  abbrev kept : (allocated cfg place c l fs m w sc.object).cell c ≡ m.parser.cell c
  kept = container_kept cfg place c l fs m w sc.object

  left-After :
      (b : ℕ) (tl : Bytes) (p' : Parser)
      → sc.reads.left ≡ b ∷ tl
      → m.input ≡ emit v ++ rest
      → insert_object cfg (allocated cfg place c l fs m w sc.object) (key_of place) m.parser.fresh
        ≡ ok p'
      → Inserted place
          (allocated cfg place c l fs m w sc.object)
          c
          m.parser.fresh
          (record { obj = some c; len = l } ∷ fs)
          p'
      → After cfg place c l fs v rest m
  left-After b tl p' hl h hi ins = record {
    to = (settled p' ins).to;
    parser = p';
    steps = next (h ∙ sc.reads.starts) (step-typed cfg place c l fs m w sc.object sc.reads h) (
        next hl
          (step-called cfg place c l fs m w sc.object sc.reads p' b tl hi
            ∙ ap ok (settled p' ins).is)
          here);
    input_is = (settled p' ins).input_is ∙ input-forget place _;
    parser_is = (settled p' ins).parser_is;
    pending = (settled p' ins).pending;
    fresh_is = ins.fresh_is ∙ ap (λ x. m.parser.fresh + x) (sym sc.one);
    top_is = ins.top_is;
    container_is = ins.container_is ∙ ap (λ (x : Obj). grow place x.payload m.parser.fresh) kept;
    container_key = ins.container_key ∙ ap (λ (x : Obj). x.key) kept;
    alone = ins.siblings_are ∙ ap (λ (x : Obj). x.siblings) kept ∙ w.alone;
    holds = sc.holds p'.cell m.parser.fresh (
        ins.child_is
        ∙ ap (λ (x : Obj). x.payload) (update-same m.parser.cell m.parser.fresh sc.object));
    child_key = ins.child_key;
    others = λ r a b.
        ins.others r a (λ e. absurd (omega (arith, e, b)))
        ∙ update-other m.parser.cell m.parser.fresh r sc.object (λ e. absurd (omega (arith, e, b)));
  }

  left_cases :
      (left : Bytes)
      → sc.reads.left ≡ left
      → m.input ≡ emit v ++ rest
      → (rest ≡ [] → ends_well v ≡ true)
      → After cfg place c l fs v rest m
  left_cases [] hl h he =
      absurd (sc.ends (he (left-ne-nil sc.reads hl).0) (left-ne-nil sc.reads hl).1)
  left_cases (b ∷ tl) hl h he =
      let (p', hi, ins) = inserted cfg place c l fs m w sc.object in left-After b tl p' hl h hi ins

  -- A machine that waits for a value of an open container reads one that is no container, whatever
  -- follows, where an empty string does not end the input.
  pub Scalar-After :
      m.input ≡ emit v ++ rest → (rest ≡ [] → ends_well v ≡ true) → After cfg place c l fs v rest m
  Scalar-After = left_cases sc.reads.left refl
