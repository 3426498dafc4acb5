-- ===== src/Msgpack/RoundTrip/Ends.antt =====
-- What the induction over a tree needs of one container: its state behind the header and behind each
-- element, and the end of the text.
use libucl.Base.{
  IsCons, ℕ, suc, ◌+◌, ◌<◌, ◌≡◌, ◌≢◌, refl, ap, ◌∙◌, arith, Bool, true, false, List, [], ◌∷◌, ◌++◌,
  some, Bytes,
}
use mathlib.Core.Path.{subst}
use libucl.Store.{Config, Parser, Frame, Obj, Payload}
use libucl.Msgpack.Machine.{Machine, State}
use libucl.Msgpack.Steps.{here}
use libucl.Msgpack.Emit.{
  Value, Items, Fields, nil, item, end, field, emit, emit_items, emit_fields, print_string,
}
use libucl.Msgpack.RoundTrip.Spec.{size, IsWritableItems, IsWritableFields, ends_items, ends_fields}
use libucl.Msgpack.RoundTrip.Insert.{Place, grow}
use libucl.Msgpack.RoundTrip.Element.{After, Pending, element_state}
use libucl.Msgpack.RoundTrip.Resume.{Resumed, resume, element_of}
use libucl.Msgpack.RoundTrip.Open.{Opened}
use libucl.Msgpack.RoundTrip.Starts.{append-IsCons, print_string-IsCons, emit-IsCons}
use libucl.Msgpack.RoundTrip.Fill.{Filled, SameStore}

-- The container at `c` is open, and `n` elements are left.
pub record Open (c n : ℕ) (outer : List Frame) (up : State) (v : Payload) (base : ℕ) (m : Machine)
    : Type 0 where
  pub pending : Pending m (record { obj = some c; len = n } ∷ outer) up
  pub payload_is : (m.parser.cell c).payload ≡ v
  pub alone : (m.parser.cell c).siblings ≡ []
  pub base_is : m.parser.fresh ≡ base
  pub below : c < m.parser.fresh

-- No element left
pub Filled-nil :
    (cfg : Config) (c : ℕ) (outer : List Frame) (up : State) (v : Payload) (base : ℕ)
    (Held : (ℕ → Obj) → Type 0) (rest : Bytes) (m : Machine)
    → Open c 0 outer up v base m
    → m.input ≡ rest
    → Held m.parser.cell
    → Filled cfg c outer up v 0 Held rest m
Filled-nil cfg c outer up v base Held rest m o hi h = record {
  to = m;
  parser = m.parser;
  steps = here;
  input_is = hi;
  parser_is = refl;
  pending = o.pending;
  fresh_is = omega arith;
  top_is = refl;
  payload_is = o.payload_is;
  container_key = refl;
  alone = o.alone;
  holds = h;
  others = λ r a b. refl;
}

-- The next element of an open container is up.
pub open-Resumed :
    (cfg : Config) (c n : ℕ) (outer : List Frame) (up : State) (v : Payload) (base : ℕ)
    (m : Machine)
    → Open c (suc n) outer up v base m
    → IsCons m.input
    → element_of v ≡ up
    → Resumed cfg c n outer up m
open-Resumed cfg c n outer up v base m o (b, tl, h) he =
    resume cfg c n outer up m b tl h (ap element_of o.payload_is ∙ he) o.pending

pub resumed-SameStore :
    (cfg : Config) (c n : ℕ) (outer : List Frame) (up : State) (m : Machine)
    (r : Resumed cfg c n outer up m)
    → SameStore r.to m
resumed-SameStore cfg c n outer up m r = record {
  cell_is = ap (λ (q : Parser). q.cell) r.parser_is ∙ r.cell_is;
  fresh_is = ap (λ (q : Parser). q.fresh) r.parser_is ∙ r.fresh_is;
  top_is = ap (λ (q : Parser). q.top_obj) r.parser_is ∙ r.top_is;
}

-- The container behind an element
pub element-Open :
    (cfg : Config) (place : Place) (c l : ℕ) (outer : List Frame) (v : Value) (rest : Bytes)
    (m m1 : Machine) (n base : ℕ) (up : State) (w : Payload)
    → SameStore m1 m
    → Open c n outer up w base m
    → (a : After cfg place c l outer v rest m1) → element_state place ≡ up
    → Open c l outer up (grow place w base) (base + size v) a.to
element-Open cfg place c l outer v rest m m1 n base up w s o a hu =
    let fresh_is : a.to.parser.fresh ≡ base + size v =
      ap (λ (q : Parser). q.fresh) a.parser_is
      ∙ a.fresh_is
      ∙ ap (λ x. x + size v) (s.fresh_is ∙ o.base_is) in
    record {
      pending = subst (λ x. Pending a.to (record { obj = some c; len = l } ∷ outer) x) hu a.pending;
      payload_is =
          ap (λ (q : Parser). (q.cell c).payload) a.parser_is
          ∙ a.container_is
          ∙ ap (λ (f : ℕ → Obj). grow place (f c).payload m1.parser.fresh) s.cell_is
          ∙ ap (λ x. grow place (m.parser.cell c).payload x) (s.fresh_is ∙ o.base_is)
          ∙ ap (λ x. grow place x base) o.payload_is;
      alone = ap (λ (q : Parser). (q.cell c).siblings) a.parser_is ∙ a.alone;
      base_is = fresh_is;
      below = omega (arith, fresh_is, o.base_is, o.below);
    }

-- A new container behind its header
pub header-Open :
    (cfg : Config) (place : Place) (c l : ℕ) (fs : List Frame) (m : Machine) (v : Payload) (n : ℕ)
    (rest : Bytes) (up : State) (o : Opened cfg place c l fs m v n rest up)
    → Open m.parser.fresh n (record { obj = some c; len = l } ∷ fs) up v (suc m.parser.fresh) o.to
header-Open cfg place c l fs m v n rest up o =
    let fresh_is : o.to.parser.fresh ≡ m.parser.fresh + 1 =
      ap (λ (q : Parser). q.fresh) o.parser_is ∙ o.fresh_is in
    record {
      pending = o.pending;
      payload_is = ap (λ (q : Parser). (q.cell m.parser.fresh).payload) o.parser_is ∙ o.child_is;
      alone = ap (λ (q : Parser). (q.cell m.parser.fresh).siblings) o.parser_is ∙ o.child_alone;
      base_is = omega (arith, fresh_is);
      below = omega (arith, fresh_is);
    }

pub same-parser : (m2 m1 m : Machine) → m2.parser ≡ m1.parser → SameStore m1 m → SameStore m2 m
same-parser m2 m1 m h s = record {
  cell_is = ap (λ (q : Parser). q.cell) h ∙ s.cell_is;
  fresh_is = ap (λ (q : Parser). q.fresh) h ∙ s.fresh_is;
  top_is = ap (λ (q : Parser). q.top_obj) h ∙ s.top_is;
}

-- What follows the header of a container is not empty.
pub items-IsCons :
    (cfg : Config) (vs : Items) (rest : Bytes)
    → IsWritableItems cfg.key_lowercase vs
    → (rest ≡ [] → ends_items false vs ≡ true)
    → IsCons (emit_items vs ++ rest)
unfolding emit_items ends_items IsWritableItems
items-IsCons cfg nil [] w h = cc (h refl)
items-IsCons cfg nil (b ∷ tl) w h = (b, tl, refl)
items-IsCons cfg (item v vs) rest w h =
    append-IsCons (emit v ++ emit_items vs) rest
      (append-IsCons (emit v) (emit_items vs) (emit-IsCons cfg v w.0))

pub fields-IsCons :
    (cfg : Config) (fs : Fields) (seen : List Bytes) (rest : Bytes)
    → IsWritableFields cfg.key_lowercase seen fs
    → (rest ≡ [] → ends_fields false fs ≡ true)
    → IsCons (emit_fields fs ++ rest)
unfolding emit_fields ends_fields IsWritableFields
fields-IsCons cfg end seen [] w h = cc (h refl)
fields-IsCons cfg end seen (b ∷ tl) w h = (b, tl, refl)
fields-IsCons cfg (field k v more fs) seen rest w h =
    append-IsCons (print_string k ++ (emit v ++ emit_fields fs)) rest
      (append-IsCons (print_string k) (emit v ++ emit_fields fs) (print_string-IsCons k w.1))

cons-ne-nil : (bs : Bytes) → IsCons bs → bs ≢ []
cons-ne-nil bs (b, tl, h) e = cc

pub ends_items-true : (b : Bool) (vs : Items) → ends_items b vs ≡ true → ends_items true vs ≡ true
unfolding ends_items
ends_items-true b nil h = refl
ends_items-true b (item v vs) h = h

pub ends_fields-true :
    (b : Bool) (fs : Fields) → ends_fields b fs ≡ true → ends_fields true fs ≡ true
unfolding ends_fields
ends_fields-true b end h = refl
ends_fields-true b (field k v more fs) h = h

-- A value that ends the text is the last one of its container.
pub item_ends :
    (cfg : Config) (b : Bool) (vs : Items) (rest : Bytes)
    → IsWritableItems cfg.key_lowercase vs
    → (rest ≡ [] → ends_items b vs ≡ true)
    → emit_items vs ++ rest ≡ []
    → b ≡ true
unfolding ends_items emit_items
item_ends cfg b nil rest w h e = h e
item_ends cfg b (item v vs) rest w h e =
    absurd (cons-ne-nil _ (items-IsCons cfg (item v vs) rest w (λ x. h x)) e)

pub field_ends :
    (cfg : Config) (b : Bool) (fs : Fields) (seen : List Bytes) (rest : Bytes)
    → IsWritableFields cfg.key_lowercase seen fs
    → (rest ≡ [] → ends_fields b fs ≡ true)
    → emit_fields fs ++ rest ≡ []
    → b ≡ true
unfolding ends_fields emit_fields
field_ends cfg b end seen rest w h e = h e
field_ends cfg b (field k v more fs) seen rest w h e =
    absurd (cons-ne-nil _ (fields-IsCons cfg (field k v more fs) seen rest w (λ x. h x)) e)
