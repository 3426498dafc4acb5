-- ===== src/Msgpack/RoundTrip/Tree.antt =====
-- Whole trees, read into an open container from what the writer prints.
use libucl.Base.{suc, arith, List, [], ◌∷◌, ◌++◌, Bytes}
use mathlib.Core.Path.{subst}
use libucl.Store.{Config, Parser, Frame, Obj, Payload, key_eq}
use libucl.Store
use libucl.Msgpack.Machine.{read_array_value, read_assoc_key}
use libucl.Msgpack.Emit.{
  Value, Items, Fields, nil, item, end, field, emit, emit_items, emit_fields, count_items,
  count_fields, print_string, print_array, print_object,
}
use libucl.Msgpack.Emit
use libucl.Msgpack.RoundTrip.Spec.{
  HoldsItems, HoldsFields, size_items, size_fields, refs, entries, IsWritable, IsWritableItems,
  IsWritableFields, ends_well, ends_items, ends_fields,
}
use libucl.Msgpack.RoundTrip.Insert.{in_array, under}
use libucl.Msgpack.RoundTrip.Scalars.{IsScalar-After}
use libucl.Msgpack.RoundTrip.Ends.{Open, ends_items-true, ends_fields-true, item_ends, field_ends}
use libucl.Msgpack.RoundTrip.Items.{
  Readable, ReadableItems, read_nil, up, up-Waiting, up-input, read_item, read_array,
}
use libucl.Msgpack.RoundTrip.Entries.{
  ReadableFields, read_object, read_end, key_read, key-Waiting, read_field, count_one,
}

module _ (cfg : Config) where
  mutual
    unfolding emit_items count_items size_items HoldsItems IsWritableItems refs ends_items
        emit_fields count_fields size_fields HoldsFields IsWritableFields entries ends_fields
        IsWritable

    value-After : (v : Value) → IsWritable cfg.key_lowercase v → Readable cfg v
    value-After (Emit.array vs) w = read_array cfg vs w (items-Filled vs w.1)
    value-After (Emit.object kvs) w = read_object cfg kvs w (fields-Filled kvs [] w.1)
    value-After v w =
        λ place c l fs m rest wt h he. IsScalar-After cfg place c l fs m v rest wt tt w h he

    pub items-Filled : (vs : Items) → IsWritableItems cfg.key_lowercase vs → ReadableItems cfg vs
    items-Filled nil w = read_nil cfg
    items-Filled (item v vs) w = λ c outer xs base m rest o h he.
        let o' : Open c (suc (count_items vs)) outer read_array_value (Store.array xs) base m =
          subst (λ n. Open c n outer read_array_value (Store.array xs) base m) (omega arith) o in
        read_item cfg v vs w.0 w.1 c outer xs base m rest o' h
          (value-After v w.0 in_array c (count_items vs) outer
            (up cfg v vs w.0 w.1 c outer xs base m rest o' h).to (emit_items vs ++ rest)
            (up-Waiting cfg v vs w.0 w.1 c outer xs base m rest o' h)
            (up-input cfg v vs w.0 w.1 c outer xs base m rest o' h)
            (item_ends cfg (ends_well v) vs rest w.1 he))
          (items-Filled vs w.1) (λ e. ends_items-true (ends_well v) vs (he e))

    pub fields-Filled :
        (kvs : Fields) (seen : List Bytes)
        → IsWritableFields cfg.key_lowercase seen kvs
        → ReadableFields cfg kvs seen
    fields-Filled end seen w = read_end cfg seen
    fields-Filled (field k v more kvs) seen (pos, ltk, new, hm, wv, ws) =
        λ c outer es base m rest hseen o h he.
          let o' : Open c (suc (count_fields kvs)) outer read_assoc_key (Store.object es) base m =
            subst (λ n. Open c n outer read_assoc_key (Store.object es) base m)
              (count_one cfg kvs more hm) o in
          read_field cfg k v kvs seen pos ltk new c outer es base m rest hseen o' h
            (value-After v wv (under k) c (count_fields kvs) outer
              (key_read cfg k v kvs seen pos ltk new c outer es base m rest hseen o' h).to
              (emit_fields kvs ++ rest)
              (key-Waiting cfg k v kvs seen pos ltk new c outer es base m rest hseen o' h)
              (key_read cfg k v kvs seen pos ltk new c outer es base m rest hseen o' h).input_is
              (field_ends cfg (ends_well v) kvs (seen ++ (k ∷ [])) rest ws he))
            (fields-Filled kvs (seen ++ (k ∷ [])) ws)
            (λ e. ends_fields-true (ends_well v) kvs (he e))
