-- ===== src/Msgpack/RoundTrip/Items.antt =====
-- The elements of an array, between its header and the last of them.
use libucl.Base.{
  IsCons, ℕ, suc, ◌+◌, ◌≡◌, refl, sym, ap, ◌∙◌, true, false, List, [], ◌∷◌, ◌++◌, some, Bytes,
}
use mathlib.Core.Path.{subst}
use mathlib.Core.List.{append_assoc, append-nil}
use libucl.Store.{Config, Parser, Frame, Obj, Payload, key_eq}
use libucl.Store
use libucl.Msgpack.Machine.{Machine, read_array_value}
use libucl.Msgpack.Emit.{
  Value, Items, Fields, nil, item, end, field, emit, emit_items, emit_fields, count_items,
  count_fields, print_string, print_array, print_object,
}
use libucl.Msgpack.Emit
use libucl.Msgpack.RoundTrip.Spec.{
  Holds, HoldsItems, size, size_items, refs, IsWritable, IsWritableItems, ends_well, ends_items,
}
use libucl.Msgpack.RoundTrip.Insert.{Place, in_array, Accepts}
use libucl.Msgpack.RoundTrip.Element.{Waiting, After}
use libucl.Msgpack.RoundTrip.Resume.{Resumed}
use libucl.Msgpack.RoundTrip.Nested.{print_array-Opened}
use libucl.Msgpack.RoundTrip.Starts.{append-IsCons, emit-IsCons}
use libucl.Msgpack.RoundTrip.Fill.{Filled, Filled-cons, Filled-After, SameStore, Waiting-SameStore}
use libucl.Msgpack.RoundTrip.Ends.{
  Open, Filled-nil, open-Resumed, resumed-SameStore, element-Open, header-Open, items-IsCons,
  ends_items-true,
}

module _ (cfg : Config) where
  -- The writer's bytes for `v` are read into every place that waits for a value.
  abbrev pub Readable : Value → Type 0
  Readable v =
      (place : Place) (c l : ℕ) (fs : List Frame) (m : Machine) (rest : Bytes)
      → Waiting cfg place c l fs m
      → m.input ≡ emit v ++ rest
      → (rest ≡ [] → ends_well v ≡ true)
      → After cfg place c l fs v rest m

  abbrev pub ReadableItems : Items → Type 0
  ReadableItems vs =
      (c : ℕ) (outer : List Frame) (xs : List ℕ) (base : ℕ) (m : Machine) (rest : Bytes)
      → Open c (count_items vs) outer read_array_value (Store.array xs) base m
      → m.input ≡ emit_items vs ++ rest
      → (rest ≡ [] → ends_items true vs ≡ true)
      → Filled cfg c outer read_array_value (Store.array (xs ++ refs base vs)) (size_items vs)
          (λ cell. HoldsItems cell base vs) rest m

  pub read_nil : ReadableItems nil
  unfolding refs size_items HoldsItems emit_items count_items
  read_nil c outer xs base m rest o h he =
      subst (λ ys. Filled cfg c outer read_array_value (Store.array ys) 0 (λ cell. Unit {0}) rest m)
        (sym (append-nil xs))
        (Filled-nil cfg c outer read_array_value (Store.array xs) base (λ cell. Unit {0}) rest m o h
          tt)

  -- An element of an array is up.
  module _ (v : Value) (vs : Items) (wv : IsWritable cfg.key_lowercase v)
      (ws : IsWritableItems cfg.key_lowercase vs) (c : ℕ) (outer : List Frame) (xs : List ℕ)
      (base : ℕ) (m : Machine) (rest : Bytes)
      (o : Open c (suc (count_items vs)) outer read_array_value (Store.array xs) base m)
      (h : m.input ≡ (emit v ++ emit_items vs) ++ rest) where
    pub up : Resumed cfg c (count_items vs) outer read_array_value m
    up =
        open-Resumed cfg c (count_items vs) outer read_array_value (Store.array xs) base m o
          (subst IsCons (sym h) (
            append-IsCons (emit v ++ emit_items vs) rest
              (append-IsCons (emit v) (emit_items vs) (emit-IsCons cfg v wv))))
          refl

    up-SameStore : SameStore up.to m
    up-SameStore = resumed-SameStore cfg c (count_items vs) outer read_array_value m up

    pub up-Waiting : Waiting cfg in_array c (count_items vs) outer up.to
    up-Waiting =
        Waiting-SameStore cfg in_array c (count_items vs) outer up.to m up-SameStore up.state_is
          up.next_is (ap (λ (q : Parser). q.stack) up.parser_is ∙ up.stack_is) tt
          (subst (λ x. Accepts cfg.key_lowercase in_array x) (sym o.payload_is) tt) o.alone o.below

    pub up-input : up.to.input ≡ emit v ++ (emit_items vs ++ rest)
    up-input = up.input_is ∙ h ∙ append_assoc (emit v) (emit_items vs) rest

    pub read_item :
        (a : After cfg in_array c (count_items vs) outer v (emit_items vs ++ rest) up.to)
        → ReadableItems vs
        → (rest ≡ [] → ends_items true vs ≡ true)
        → Filled cfg c outer read_array_value
            (Store.array (xs ++ (base ∷ refs (base + size v) vs)))
            (size v + size_items vs)
            (λ cell. Holds cell base v × HoldsItems cell (base + size v) vs)
            rest
            m
    read_item a ih he =
        let f =
          ih c outer (xs ++ (base ∷ [])) (base + size v) a.to rest
            (element-Open cfg in_array c (count_items vs) outer v (emit_items vs ++ rest) m up.to
              (suc (count_items vs)) base read_array_value (Store.array xs) up-SameStore o a refl)
            a.input_is he in
        subst
          (λ ys.
            Filled cfg c outer read_array_value (Store.array ys) (size v + size_items vs)
              (λ cell. Holds cell base v × HoldsItems cell (base + size v) vs) rest m)
          (append_assoc xs (base ∷ []) (refs (base + size v) vs))
          (Filled-cons cfg in_array c (count_items vs) outer v (emit_items vs ++ rest) m up.to
            up.steps up-SameStore o.below a read_array_value _ (size_items vs) _ _ rest f
            (λ hv hk hs. (subst (λ x. Holds f.parser.cell x v) o.base_is hv, hs)))

  pub read_array :
      (vs : Items)
      → IsWritable cfg.key_lowercase (Emit.array vs)
      → ReadableItems vs
      → Readable (Emit.array vs)
  unfolding emit IsWritable ends_well Holds size
  read_array vs (lt, ws) ih place c l fs m rest wt h he =
      let (b, tl, hc) = items-IsCons cfg vs rest ws he in
      let o = print_array-Opened cfg place c l fs m wt (count_items vs) b tl lt (
        h
        ∙ append_assoc (print_array (count_items vs)) (emit_items vs) rest
        ∙ ap (λ x. print_array (count_items vs) ++ x) hc) in
      let f =
        ih m.parser.fresh (record { obj = some c; len = l } ∷ fs) [] (suc m.parser.fresh) o.to rest
          (header-Open cfg place c l fs m (Store.array []) (count_items vs) (b ∷ tl)
            read_array_value o)
          (o.input_is ∙ sym hc) (λ e. ends_items-true false vs (he e)) in
      Filled-After cfg place c l fs m (Emit.array vs) (size_items vs) (count_items vs)
        (Store.array []) (Store.array (refs (suc m.parser.fresh) vs)) (b ∷ tl) rest read_array_value
        (λ cell. HoldsItems cell (suc m.parser.fresh) vs) o f wt.below refl (λ hp hh. (hp, hh))
