-- ===== src/Msgpack/RoundTrip/Fill.antt =====
-- A container between its header and its last element: what one element and the ones behind it do.
use libucl.Base.{
  ℕ, suc, ◌+◌, ◌<◌, ◌≡◌, ◌≢◌, refl, sym, ap, ◌∙◌, arith, List, [], ◌∷◌, ◌++◌, Option, some, Bytes,
  All,
}
use mathlib.Core.Path.{subst}
use mathlib.Core.List.{append_assoc}
use libucl.Store.{Config, Payload, Parser, Frame, Obj}
use libucl.Msgpack.Machine.{Machine, State, read_type}
use libucl.Msgpack.Steps.{Steps, Steps-trans}
use libucl.Msgpack.Emit.{Value}
use libucl.Msgpack.RoundTrip.Spec.{Holds, size, size-pos, Holds-Same}
use libucl.Msgpack.RoundTrip.Insert.{Place, in_array, under, Accepts, KeyIs, HasKey}
use libucl.Msgpack.RoundTrip.Element.{
  Waiting, After, Pending, finishing, reading, value_state, element_state,
}
use libucl.Msgpack.RoundTrip.Open.{Opened}

-- The elements of the container at `c` have been read, `k` objects in all.
pub record Filled (cfg : Config) (c : ℕ) (outer : List Frame) (up : State) (filled : Payload)
    (k : ℕ) (Held : (ℕ → Obj) → Type 0) (rest : Bytes) (m : Machine) : Type 0 where
  pub to : Machine
  pub parser : Parser
  pub steps : Steps cfg to m
  pub input_is : to.input ≡ rest
  pub parser_is : to.parser ≡ parser
  pub pending : Pending to (record { obj = some c; len = 0 } ∷ outer) up
  pub fresh_is : parser.fresh ≡ m.parser.fresh + k
  pub top_is : parser.top_obj ≡ m.parser.top_obj
  pub payload_is : (parser.cell c).payload ≡ filled
  pub container_key : (parser.cell c).key ≡ (m.parser.cell c).key
  pub alone : (parser.cell c).siblings ≡ []
  pub holds : Held parser.cell
  pub others : (r : ℕ) → r ≢ c → r < m.parser.fresh → parser.cell r ≡ m.parser.cell r

-- Two machines with the same store.
pub record SameStore (m1 m : Machine) : Type 0 where
  pub cell_is : m1.parser.cell ≡ m.parser.cell
  pub fresh_is : m1.parser.fresh ≡ m.parser.fresh
  pub top_is : m1.parser.top_obj ≡ m.parser.top_obj

pub Waiting-SameStore :
    (cfg : Config) (place : Place) (c l : ℕ) (fs : List Frame) (m1 m : Machine)
    → SameStore m1 m
    → m1.state ≡ read_type
    → m1.next_state ≡ value_state place
    → m1.parser.stack ≡ record { obj = some c; len = suc l } ∷ fs
    → KeyIs place m1.key
    → Accepts cfg.key_lowercase place (m.parser.cell c).payload
    → (m.parser.cell c).siblings ≡ []
    → c < m.parser.fresh
    → Waiting cfg place c l fs m1
Waiting-SameStore cfg place c l fs m1 m s st nx hs hk ha hl lt = record {
  state_is = st;
  next_is = nx;
  stack_is = hs;
  key_is = hk;
  accepts =
      subst (λ (f : ℕ → Obj). Accepts cfg.key_lowercase place (f c).payload) (sym s.cell_is) ha;
  alone = ap (λ (f : ℕ → Obj). (f c).siblings) s.cell_is ∙ hl;
  below = subst (λ x. c < x) (sym s.fresh_is) lt;
}

HasKey-eq : (place : Place) (o o' : Obj) → o'.key ≡ o.key → HasKey place o → HasKey place o'
HasKey-eq in_array o o' e h = tt
HasKey-eq (under k) o o' e h = e ∙ h

module _ (cfg : Config) (place : Place) (c l : ℕ) (outer : List Frame) (v : Value) (rest1 : Bytes)
    (m m1 : Machine) (st : Steps cfg m1 m) (s : SameStore m1 m) (lt : c < m.parser.fresh)
    (a : After cfg place c l outer v rest1 m1) where
  abbrev n : ℕ
  n = m.parser.fresh

  fresh-after : a.to.parser.fresh ≡ n + size v
  fresh-after =
      ap (λ (q : Parser). q.fresh) a.parser_is ∙ a.fresh_is ∙ ap (λ x. x + size v) s.fresh_is

  module _ (up : State) (filled : Payload) (k : ℕ) (Held Held' : (ℕ → Obj) → Type 0) (rest : Bytes)
      (f : Filled cfg c outer up filled k Held' rest a.to) where
    unmoved : (r : ℕ) → r ≢ c → r < n + size v → f.parser.cell r ≡ a.parser.cell r
    unmoved r ne lt' =
        f.others r ne (subst (λ x. r < x) (sym fresh-after) lt')
        ∙ ap (λ (q : Parser). q.cell r) a.parser_is

    first-Holds : Holds f.parser.cell n v
    first-Holds =
        Holds-Same v a.parser.cell f.parser.cell n
          (λ r lo hi. unmoved r (λ e. absurd (omega (arith, e, lt, lo))) hi)
          (subst (λ x. Holds a.parser.cell x v) s.fresh_is a.holds)

    first-HasKey : HasKey place (f.parser.cell n)
    first-HasKey =
        HasKey-eq place (a.parser.cell n) (f.parser.cell n)
          (ap (λ (x : Obj). x.key)
            (unmoved n (λ e. absurd (omega (arith, e, lt))) (omega (arith, size-pos v))))
          (subst (λ x. HasKey place (a.parser.cell x)) s.fresh_is a.child_key)

    -- One element, and the others behind it.
    pub Filled-cons :
        (Holds f.parser.cell n v
          → HasKey place (f.parser.cell n)
          → Held' f.parser.cell
          → Held f.parser.cell)
        → Filled cfg c outer up filled (size v + k) Held rest m
    Filled-cons join = record {
      to = f.to;
      parser = f.parser;
      steps = Steps-trans st (Steps-trans a.steps f.steps);
      input_is = f.input_is;
      parser_is = f.parser_is;
      pending = f.pending;
      fresh_is = omega (arith, f.fresh_is, fresh-after);
      top_is = f.top_is ∙ ap (λ (q : Parser). q.top_obj) a.parser_is ∙ a.top_is ∙ s.top_is;
      payload_is = f.payload_is;
      container_key =
          f.container_key
          ∙ ap (λ (q : Parser). (q.cell c).key) a.parser_is
          ∙ a.container_key
          ∙ ap (λ (g : ℕ → Obj). (g c).key) s.cell_is;
      alone = f.alone;
      holds = join first-Holds first-HasKey f.holds;
      others = λ r ne lt'.
          unmoved r ne (omega (arith, lt'))
          ∙ a.others r ne (subst (λ x. r < x) (sym s.fresh_is) lt')
          ∙ ap (λ (g : ℕ → Obj). g r) s.cell_is;
    }

All-append-zero :
    (done : List Frame) (f : Frame)
    → All (λ (g : Frame). g.len ≡ 0) done
    → f.len ≡ 0
    → All (λ (g : Frame). g.len ≡ 0) (done ++ (f ∷ []))
All-append-zero [] f h hf = (hf, tt)
All-append-zero (g ∷ done) f (h, hs) hf = (h, All-append-zero done f hs hf)

-- A full container is one of those that the next round pops.
Pending-inner :
    (m : Machine) (r : Option ℕ) (outer : List Frame) (up up' : State)
    → Pending m (record { obj = r; len = 0 } ∷ outer) up
    → Pending m outer up'
Pending-inner m r outer up up' (finishing done hd hs hf) =
    finishing (done ++ (record { obj = r; len = 0 } ∷ [])) (All-append-zero done _ hd refl)
      (hs ∙ sym (append_assoc done (record { obj = r; len = 0 } ∷ []) outer)) hf
Pending-inner m r outer up up' (reading hs hf ht hn) = cc

-- A container that has been opened and filled is a value that has been read.
pub Filled-After :
    (cfg : Config) (place : Place) (c l : ℕ) (fs : List Frame) (m : Machine) (v : Value) (k cnt : ℕ)
    (start filled : Payload) (rest1 rest : Bytes) (up : State) (Held : (ℕ → Obj) → Type 0)
    (o : Opened cfg place c l fs m start cnt rest1 up)
    (f : Filled cfg m.parser.fresh
      (record { obj = some c; len = l } ∷ fs)
      up
      filled
      k
      Held
      rest
      o.to)
    → c < m.parser.fresh
    → size v ≡ suc k
    → (((f.parser.cell m.parser.fresh).payload ≡ filled)
        → Held f.parser.cell
        → Holds f.parser.cell m.parser.fresh v)
    → After cfg place c l fs v rest m
Filled-After cfg place c l fs m v k cnt start filled rest1 rest up Held o f lt hsize join =
    let opened : o.to.parser.fresh ≡ m.parser.fresh + 1 =
      ap (λ (q : Parser). q.fresh) o.parser_is ∙ o.fresh_is in
    let kept : (r : ℕ)
        → r ≢ m.parser.fresh
        → r < m.parser.fresh + 1
        → f.parser.cell r ≡ o.parser.cell r =
      λ r ne lt'.
        f.others r ne (subst (λ x. r < x) (sym opened) lt')
        ∙ ap (λ (q : Parser). q.cell r) o.parser_is in
    let kept_c : f.parser.cell c ≡ o.parser.cell c =
      kept c (λ e. absurd (omega (arith, e, lt))) (omega (arith, lt)) in
    record {
      to = f.to;
      parser = f.parser;
      steps = Steps-trans o.steps f.steps;
      input_is = f.input_is;
      parser_is = f.parser_is;
      pending =
          Pending-inner f.to (some m.parser.fresh) (record { obj = some c; len = l } ∷ fs) up
            (element_state place) f.pending;
      fresh_is = omega (arith, f.fresh_is, opened, hsize);
      top_is = f.top_is ∙ ap (λ (q : Parser). q.top_obj) o.parser_is ∙ o.top_is;
      container_is = ap (λ (x : Obj). x.payload) kept_c ∙ o.container_is;
      container_key = ap (λ (x : Obj). x.key) kept_c ∙ o.container_key;
      alone = ap (λ (x : Obj). x.siblings) kept_c ∙ o.alone;
      holds = join f.payload_is f.holds;
      child_key =
          HasKey-eq place (o.parser.cell m.parser.fresh) (f.parser.cell m.parser.fresh)
            (f.container_key ∙ ap (λ (q : Parser). (q.cell m.parser.fresh).key) o.parser_is)
            o.child_key;
      others = λ r ne lt'.
          kept r (λ e. absurd (omega (arith, e, lt'))) (omega (arith, lt')) ∙ o.others r ne lt';
    }
