-- ===== src/Msgpack/RoundTrip/Entries.antt =====
-- The entries of an object, between its header and the last of them.
use libucl.Base.{
  IsCons, ℕ, suc, ◌+◌, ◌^◌, ◌<◌, ◌≡◌, refl, sym, ap, ◌∙◌, arith, Bool, true, false, List, [], ◌∷◌,
  ◌++◌, some, Bytes, length, All,
}
use mathlib.Core.Path.{subst}
use mathlib.Core.List.{append_assoc, append-nil}
use libucl.Store.{Config, Parser, Frame, Obj, Payload, key_eq}
use libucl.Store
use libucl.Msgpack.Machine.{Machine, read_assoc_key}
use libucl.Msgpack.Steps.{Steps-trans}
use libucl.Msgpack.Emit.{
  Value, Items, Fields, nil, item, end, field, emit, emit_items, emit_fields, count_items,
  count_fields, print_string, print_array, print_object,
}
use libucl.Msgpack.Emit
use libucl.Msgpack.Codec.Keys.{KeyRead, print_string-KeyRead}
use libucl.Msgpack.RoundTrip.Spec.{
  Holds, HoldsFields, size, size_fields, entries, IsNewKey, IsWritable, ends_well, ends_fields,
}
use libucl.Msgpack.RoundTrip.Insert.{under, Accepts}
use libucl.Msgpack.RoundTrip.Element.{Waiting, After}
use libucl.Msgpack.RoundTrip.Resume.{Resumed}
use libucl.Msgpack.RoundTrip.Nested.{print_object-Opened}
use libucl.Msgpack.RoundTrip.Starts.{append-IsCons, print_string-IsCons}
use libucl.Msgpack.RoundTrip.Fill.{Filled, Filled-cons, Filled-After, SameStore, Waiting-SameStore}
use libucl.Msgpack.RoundTrip.Ends.{
  Open, Filled-nil, open-Resumed, resumed-SameStore, element-Open, header-Open, same-parser,
  fields-IsCons, ends_fields-true,
}
use libucl.Msgpack.RoundTrip.Items.{Readable}

-- The keys of an object, in order
abbrev keys : List (Bytes × ℕ) → List Bytes
keys [] = []
keys ((k, r) ∷ es) = k ∷ keys es

keys-append :
    (es : List (Bytes × ℕ)) (k : Bytes) (n : ℕ) → keys (es ++ ((k, n) ∷ [])) ≡ keys es ++ (k ∷ [])
keys-append [] k n = refl
keys-append ((j, r) ∷ es) k n = ap (λ x. j ∷ x) (keys-append es k n)

new-keys :
    (caseless : Bool) (k : Bytes) (es : List (Bytes × ℕ))
    → IsNewKey caseless k (keys es)
    → All (λ (e : Bytes × ℕ). key_eq caseless e.0 k ≡ false) es
new-keys caseless k [] h = tt
new-keys caseless k ((j, r) ∷ es) (h, hs) = (h, new-keys caseless k es hs)

module _ (cfg : Config) where
  abbrev pub ReadableFields : Fields → List Bytes → Type 0
  ReadableFields kvs seen =
      (c : ℕ) (outer : List Frame) (es : List (Bytes × ℕ)) (base : ℕ) (m : Machine) (rest : Bytes)
      → keys es ≡ seen
      → Open c (count_fields kvs) outer read_assoc_key (Store.object es) base m
      → m.input ≡ emit_fields kvs ++ rest
      → (rest ≡ [] → ends_fields true kvs ≡ true)
      → Filled cfg c outer read_assoc_key (Store.object (es ++ entries base kvs)) (size_fields kvs)
          (λ cell. HoldsFields cell base kvs) rest m

  pub read_object :
      (kvs : Fields)
      → IsWritable cfg.key_lowercase (Emit.object kvs)
      → ReadableFields kvs []
      → Readable cfg (Emit.object kvs)
  unfolding emit IsWritable ends_well Holds size
  read_object kvs (lt, ws) ih place c l fs m rest wt h he =
      let (b, tl, hc) = fields-IsCons cfg kvs [] rest ws he in
      let o = print_object-Opened cfg place c l fs m wt (count_fields kvs) b tl lt (
        h
        ∙ append_assoc (print_object (count_fields kvs)) (emit_fields kvs) rest
        ∙ ap (λ x. print_object (count_fields kvs) ++ x) hc) in
      let f =
        ih m.parser.fresh (record { obj = some c; len = l } ∷ fs) [] (suc m.parser.fresh) o.to rest
          refl
          (header-Open cfg place c l fs m (Store.object []) (count_fields kvs) (b ∷ tl)
            read_assoc_key o)
          (o.input_is ∙ sym hc) (λ e. ends_fields-true false kvs (he e)) in
      Filled-After cfg place c l fs m (Emit.object kvs) (size_fields kvs) (count_fields kvs)
        (Store.object []) (Store.object (entries (suc m.parser.fresh) kvs)) (b ∷ tl) rest
        read_assoc_key (λ cell. HoldsFields cell (suc m.parser.fresh) kvs) o f wt.below refl
        (λ hp hh. (hp, hh))

  pub read_end : (seen : List Bytes) → ReadableFields end seen
  unfolding entries size_fields HoldsFields emit_fields count_fields
  read_end seen c outer es base m rest hk o h he =
      subst (λ xs. Filled cfg c outer read_assoc_key (Store.object xs) 0 (λ cell. Unit {0}) rest m)
        (sym (append-nil es))
        (Filled-nil cfg c outer read_assoc_key (Store.object es) base (λ cell. Unit {0}) rest m o h
          tt)

  -- The key of an entry is up.
  module _ (k : Bytes) (v : Value) (kvs : Fields) (seen : List Bytes) (pos : 0 < length k)
      (ltk : length k < 2 ^ 32) (new : IsNewKey cfg.key_lowercase k seen) (c : ℕ)
      (outer : List Frame) (es : List (Bytes × ℕ)) (base : ℕ) (m : Machine) (rest : Bytes)
      (hseen : keys es ≡ seen)
      (o : Open c (suc (count_fields kvs)) outer read_assoc_key (Store.object es) base m)
      (h : m.input ≡ (print_string k ++ (emit v ++ emit_fields kvs)) ++ rest) where
    pub key_up : Resumed cfg c (count_fields kvs) outer read_assoc_key m
    key_up =
        open-Resumed cfg c (count_fields kvs) outer read_assoc_key (Store.object es) base m o
          (subst IsCons (sym h) (
            append-IsCons (print_string k ++ (emit v ++ emit_fields kvs)) rest (
              append-IsCons (print_string k) (emit v ++ emit_fields kvs)
                (print_string-IsCons k ltk))))
          refl

    pub key_read : KeyRead cfg k (emit v ++ (emit_fields kvs ++ rest)) key_up.to
    key_read =
        print_string-KeyRead cfg key_up.to k (emit v ++ (emit_fields kvs ++ rest)) key_up.state_is
          key_up.next_is pos ltk
          (key_up.input_is
            ∙ h
            ∙ append_assoc (print_string k) (emit v ++ emit_fields kvs) rest
            ∙ ap (λ x. print_string k ++ x) (append_assoc (emit v) (emit_fields kvs) rest))

    key-SameStore : SameStore key_read.to m
    key-SameStore =
        same-parser key_read.to key_up.to m key_read.parser_is
          (resumed-SameStore cfg c (count_fields kvs) outer read_assoc_key m key_up)

    pub key-Waiting : Waiting cfg (under k) c (count_fields kvs) outer key_read.to
    key-Waiting =
        Waiting-SameStore cfg (under k) c (count_fields kvs) outer key_read.to m key-SameStore
          key_read.state_is key_read.next_is
          (ap (λ (q : Parser). q.stack) (key_read.parser_is ∙ key_up.parser_is) ∙ key_up.stack_is)
          key_read.key_is
          (subst (λ x. Accepts cfg.key_lowercase (under k) x) (sym o.payload_is)
            (
              pos,
              new-keys cfg.key_lowercase k es
                  (subst (λ x. IsNewKey cfg.key_lowercase k x) (sym hseen) new),
            ))
          o.alone o.below

    pub read_field :
        (a : After cfg (under k) c (count_fields kvs) outer v (emit_fields kvs ++ rest) key_read.to)
        → ReadableFields kvs (seen ++ (k ∷ []))
        → (rest ≡ [] → ends_fields true kvs ≡ true)
        → Filled cfg c outer read_assoc_key
            (Store.object (es ++ ((k, base) ∷ entries (base + size v) kvs)))
            (size v + size_fields kvs)
            (λ cell.
              ((cell base).key ≡ k) × Holds cell base v × HoldsFields cell (base + size v) kvs)
            rest
            m
    read_field a ih he =
        let f =
          ih c outer (es ++ ((k, base) ∷ [])) (base + size v) a.to rest
            (keys-append es k base ∙ ap (λ x. x ++ (k ∷ [])) hseen)
            (element-Open cfg (under k) c (count_fields kvs) outer v (emit_fields kvs ++ rest) m
              key_read.to (suc (count_fields kvs)) base read_assoc_key (Store.object es)
              key-SameStore o a refl)
            a.input_is he in
        subst
          (λ xs.
            Filled cfg c outer read_assoc_key (Store.object xs) (size v + size_fields kvs)
              (λ cell.
                ((cell base).key ≡ k) × Holds cell base v × HoldsFields cell (base + size v) kvs)
              rest m)
          (append_assoc es ((k, base) ∷ []) (entries (base + size v) kvs))
          (Filled-cons cfg (under k) c (count_fields kvs) outer v (emit_fields kvs ++ rest) m
            key_read.to (Steps-trans key_up.steps key_read.steps) key-SameStore o.below a
            read_assoc_key _ (size_fields kvs) _ _ rest f
            (λ hv hk hs. (
              subst (λ x. (f.parser.cell x).key ≡ k) o.base_is hk,
              subst (λ x. Holds f.parser.cell x v) o.base_is hv,
              hs,
            )))

  pub count_one :
      (kvs : Fields) (more : Items)
      → more ≡ nil
      → count_fields kvs + 1 + count_items more ≡ suc (count_fields kvs)
  unfolding count_items
  count_one kvs more h = omega (arith, ap count_items h)
