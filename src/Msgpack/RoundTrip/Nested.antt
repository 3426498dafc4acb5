-- ===== src/Msgpack/RoundTrip/Nested.antt =====
-- The headers of arrays and objects that stand in an open container.
use libucl.Base.{ℕ, ◌^◌, ◌<◌, ◌≡◌, refl, ap, ◌∙◌, List, [], ◌∷◌, ◌++◌, none, some, Bytes, ltb}
use libucl.Store.{Config, Payload, Parser, Frame, Obj, alloc_cur, update, new_object}
use libucl.Store
use libucl.Msgpack.Outcome.{ok}
use libucl.Msgpack.Format.{ParseFunction}
use libucl.Msgpack.Values.{parse_with, parse_array, parse_map}
use libucl.Msgpack.Machine.{
  Machine, State, start_array, start_assoc, read_array_value, read_assoc_key, finish_array_value,
  finish_assoc_value, step, step_in, insert_object, do_start_array, do_start_assoc, after_start,
}
use libucl.Msgpack.Steps.{here, next}
use libucl.Msgpack.Emit.{print_array, print_object}
use libucl.Msgpack.Codec.Headers.{Opens, print_array-Opens, print_object-Opens}
use libucl.Msgpack.RoundTrip.Insert.{Place}
use libucl.Msgpack.RoundTrip.Element.{Waiting}
use libucl.Msgpack.RoundTrip.Open.{
  Opened, at_start, opened_in, held, enter-added, joined, added, join-Opened,
}

module _ (cfg : Config) (place : Place) (c l : ℕ) (fs : List Frame) (m : Machine)
    (w : Waiting cfg place c l fs m) (bs : Bytes) (n : ℕ) (b : ℕ) (tl : Bytes) where
  step-header :
      {start_state : State} {func : ParseFunction} (o : Opens bs start_state func n (b ∷ tl))
      → m.input ≡ bs ++ (b ∷ tl)
      → step cfg m o.first o.tail
        ≡ ok (record m { entry = some o.entry; len = n; input = b ∷ tl; state = start_state })
  unfolding step_in
  step-header o h = ap (λ s. step_in s cfg m o.first o.tail) w.state_is ∙ o.typed m (h ∙ o.starts)

  array_started :
      (o : Opens bs start_array ParseFunction.parse_array n (b ∷ tl)) (p' : Parser)
      → insert_object cfg (held cfg place c l fs m w (Store.array [])) m.key m.parser.fresh ≡ ok p'
      → do_start_array cfg
          (at_start cfg m o.entry n (b ∷ tl) start_array o.is_open (Store.array []))
        ≡ ok (
            after_start
              (ltb 0 n)
              (record (at_start cfg m o.entry n (b ∷ tl) start_array o.is_open (Store.array [])) {
                parser = opened_in n p';
                entry = none;
              })
              finish_array_value
              read_array_value)
  unfolding do_start_array parse_with
  array_started o p' h =
      rw
        (enter-added cfg m o.entry n (b ∷ tl) start_array o.is_open (Store.array []) p'
          (added cfg place c l fs m w (Store.array []) o.entry n (b ∷ tl) start_array o.is_open p'
            h)
          (λ p. ap (λ f. parse_with f cfg p n o.entry.fmt (b ∷ tl)) o.is_func))
        refl

  -- The header of an array in an open container.
  array-Opened :
      Opens bs start_array ParseFunction.parse_array n (b ∷ tl)
      → m.input ≡ bs ++ (b ∷ tl)
      → Opened cfg place c l fs m (Store.array []) n (b ∷ tl) read_array_value
  unfolding step_in
  array-Opened o h =
      let (p', hi, j) = joined cfg place c l fs m w (Store.array []) in
      join-Opened cfg place c l fs m w (Store.array []) n (b ∷ tl) p'
        (record (at_start cfg m o.entry n (b ∷ tl) start_array o.is_open (Store.array [])) {
          parser = opened_in n p';
          entry = none;
        })
        finish_array_value read_array_value j tt refl refl
        (next (h ∙ o.starts) (step-header o h) (next refl (array_started o p' hi) here))

  object_started :
      (o : Opens bs start_assoc ParseFunction.parse_map n (b ∷ tl)) (p' : Parser)
      → insert_object cfg (held cfg place c l fs m w (Store.object [])) m.key m.parser.fresh ≡ ok p'
      → do_start_assoc cfg
          (at_start cfg m o.entry n (b ∷ tl) start_assoc o.is_open (Store.object []))
        ≡ ok (
            after_start
              (ltb 0 n)
              (record (at_start cfg m o.entry n (b ∷ tl) start_assoc o.is_open (Store.object [])) {
                parser = opened_in n p';
                entry = none;
                key = none;
              })
              finish_assoc_value
              read_assoc_key)
  unfolding do_start_assoc parse_with parse_map parse_array
  object_started o p' h =
      rw
        (enter-added cfg m o.entry n (b ∷ tl) start_assoc o.is_open (Store.object []) p'
          (added cfg place c l fs m w (Store.object []) o.entry n (b ∷ tl) start_assoc o.is_open p'
            h)
          (λ p. ap (λ f. parse_with f cfg p n o.entry.fmt (b ∷ tl)) o.is_func))
        refl

  -- The header of an object in an open container.
  object-Opened :
      Opens bs start_assoc ParseFunction.parse_map n (b ∷ tl)
      → m.input ≡ bs ++ (b ∷ tl)
      → Opened cfg place c l fs m (Store.object []) n (b ∷ tl) read_assoc_key
  unfolding step_in
  object-Opened o h =
      let (p', hi, j) = joined cfg place c l fs m w (Store.object []) in
      join-Opened cfg place c l fs m w (Store.object []) n (b ∷ tl) p'
        (record (at_start cfg m o.entry n (b ∷ tl) start_assoc o.is_open (Store.object [])) {
          parser = opened_in n p';
          entry = none;
          key = none;
        })
        finish_assoc_value read_assoc_key j tt refl refl
        (next (h ∙ o.starts) (step-header o h) (next refl (object_started o p' hi) here))

module _ (cfg : Config) (place : Place) (c l : ℕ) (fs : List Frame) (m : Machine)
    (w : Waiting cfg place c l fs m) (n : ℕ) (b : ℕ) (tl : Bytes) (lt : n < 2 ^ 32) where
  -- A machine that waits for a value of an open container, which stands alone and, if it is an
  -- object, lacks the key that was read, and whose input starts with the writer's header for an
  -- array of `n` elements, and more behind it: some rounds of the loop put a new empty array behind
  -- the container's other values, count it, push it on the stack for its `n` elements, and stop
  -- right behind the header; all older objects are left alone.
  pub print_array-Opened :
      m.input ≡ print_array n ++ (b ∷ tl)
      → Opened cfg place c l fs m (Store.array []) n (b ∷ tl) read_array_value
  print_array-Opened =
      array-Opened cfg place c l fs m w (print_array n) n b tl (print_array-Opens n (b ∷ tl) lt)

  -- A machine that waits for a value of an open container, which stands alone and, if it is an
  -- object, lacks the key that was read, and whose input starts with the writer's header for an
  -- object of `n` entries, and more behind it: some rounds of the loop put a new empty object
  -- behind the container's other values, count it, push it on the stack for its `n` entries, and
  -- stop right behind the header; all older objects are left alone.
  pub print_object-Opened :
      m.input ≡ print_object n ++ (b ∷ tl)
      → Opened cfg place c l fs m (Store.object []) n (b ∷ tl) read_assoc_key
  print_object-Opened =
      object-Opened cfg place c l fs m w (print_object n) n b tl (print_object-Opens n (b ∷ tl) lt)
