-- ===== src/Msgpack/Termination/Total.antt =====
-- The checks behind the loop of `ucl_msgpack_consume`, and `ucl_parse_msgpack`.
use libucl.Base.{◌≢◌, refl, arith, List, [], ◌∷◌, none, Bytes, ◌==◌, inl, inr, not, Option-cases}
use libucl.Store.{
  Config, Parser, Payload, array, object, Frame, bad_top_level, nonempty_at_end, unfinished_value,
  invalid_finish, incomplete_container,
}
use libucl.Msgpack.Outcome.{
  ok, stuck, fault, overread, fail, Ensures, Ensures-bind, Ensures-fail, Ensures-if,
}
use libucl.Msgpack.Machine.{
  Machine, State, read_type, start_assoc, start_array, read_assoc_value, finish_assoc_value,
  read_array_value, finish_array_value, run, get_next_container, consume, finish_in, close, initial,
  enough, end_container, end_value, parse_msgpack, bad_first_byte, top_container,
}
use libucl.Msgpack.Termination.Calls.{Called, call_entry-Called}
use libucl.Msgpack.Termination.TypeByte.{IsSound}
use libucl.Msgpack.Termination.Rounds.{
  EndsP, insert_current-ends, Ensures-with_container, good, room, enter_container-Called,
}
use libucl.Msgpack.Termination.Loop.{
  call_none, enter_none, run_on-IsSound, ne-stuck, ne-overread, initial-IsSound,
}

end_container-ends :
    (cfg : Config) (m : Machine) (v : Payload) → IsSound m → EndsP (end_container cfg m v)
unfolding end_container
end_container-ends cfg m v s =
    Ensures-if _ (not (m.len == 0)) _ _ (λ _. Ensures-fail _ m.parser nonempty_at_end)
      λ _. Ensures-with_container _ m.parser.stack m.parser _ (elim (Option-cases m.entry) [
        | inl e ↦ Ensures-bind (λ _. ⊥) _ _ _ (enter_none cfg m e v) (λ _ x. absurd x)
        | inr (e, he) ↦
            Ensures-bind (Called m e) _ _ _ (enter_container-Called cfg m s e he v) (λ _ _. tt)
      ])

end_value-ends : (cfg : Config) (m : Machine) → IsSound m → EndsP (end_value cfg m)
unfolding end_value
end_value-ends cfg m s =
    Ensures-if _ (not (m.len == 0)) _ _ (λ _. Ensures-fail _ m.parser unfinished_value)
      λ _. Ensures-with_container _ m.parser.stack m.parser _ (elim (Option-cases m.entry) [
        | inl e ↦ Ensures-bind (λ _. ⊥) _ _ _ (call_none cfg m e) (λ _ x. absurd x)
        | inr (e, he) ↦
            Ensures-bind (Called m e) _ _ _
              (call_entry-Called cfg m e he (good cfg m s e he) (room cfg m s e he))
              (λ m' _. insert_current-ends cfg m'.parser none)
      ])

finish_in-ends : (st : State) (cfg : Config) (m : Machine) → IsSound m → EndsP (finish_in st cfg m)
unfolding finish_in
finish_in-ends start_array cfg m s = end_container-ends cfg m (array []) s
finish_in-ends start_assoc cfg m s = end_container-ends cfg m (object []) s
finish_in-ends read_array_value cfg m s = end_value-ends cfg m s
finish_in-ends read_assoc_value cfg m s = end_value-ends cfg m s
finish_in-ends finish_array_value cfg m s = tt
finish_in-ends finish_assoc_value cfg m s = tt
finish_in-ends read_type cfg m s = tt
finish_in-ends _ cfg m s = Ensures-fail _ m.parser invalid_finish

close-ends : (p : Parser) → EndsP (close p)
unfolding close
close-ends p = by_stack (get_next_container p).stack
  where
    by_stack :
        (fs : List Frame)
        → EndsP (elim fs [
          | [] ↦ ok (get_next_container p)
          | f ∷ rest ↦ fail (get_next_container p) incomplete_container
        ])
    by_stack [] = tt
    by_stack (f ∷ rest) = Ensures-fail _ (get_next_container p) incomplete_container

run-IsSound :
    (cfg : Config) (p : Parser) (input : Bytes)
    → Ensures IsSound (run (enough input) cfg (initial p input))
run-IsSound cfg p input =
    run_on-IsSound input (enough input) cfg (initial p input) refl (initial-IsSound p input)
      (omega arith)

-- The loop runs within its fuel, so what the rounds of `Steps` give is what `run` returns.
pub run-ne-stuck :
    (cfg : Config) (p : Parser) (input : Bytes) → run (enough input) cfg (initial p input) ≢ stuck
run-ne-stuck cfg p input = ne-stuck IsSound _ (run-IsSound cfg p input)

consume-ends :
    (cfg : Config) (p : Parser) (input : Bytes) → EndsP (consume (enough input) cfg p input)
unfolding consume
consume-ends cfg p input =
    Ensures-bind IsSound (λ _. Unit {0}) _ _ (run-IsSound cfg p input)
      λ m s.
        Ensures-bind (λ _. Unit {0}) (λ _. Unit {0}) _ _ (finish_in-ends m.state cfg m s)
          λ q _. close-ends q

parse_msgpack-inside :
    (cfg : Config) (p : Parser) (input : Bytes) → EndsP (parse_msgpack cfg p input)
unfolding parse_msgpack
parse_msgpack-inside cfg p [] = tt
parse_msgpack-inside cfg p (b ∷ tl) =
    Ensures-if _ (bad_first_byte (top_container p.stack) b) _ _
      (λ _. Ensures-fail _ p bad_top_level)
      λ _. Ensures-bind (λ _. Unit {0}) _ _ _ (consume-ends cfg p (b ∷ tl)) (λ _ _. tt)

-- `ucl_parse_msgpack` ends on every input, well formed or not, with any parser and any flags: its loop
-- never uses up the fuel of four rounds for each byte and four more; and no number is read past the end
-- of the input. The result is a parser, an error, or another fault at which the program fails an
-- assertion or leaves its defined behaviour.
pub parse_msgpack-ends :
    (cfg : Config) (p : Parser) (input : Bytes)
    → (parse_msgpack cfg p input ≢ stuck) × (parse_msgpack cfg p input ≢ fault overread)
parse_msgpack-ends cfg p input =
    let ends = parse_msgpack-inside cfg p input in
    (ne-stuck (λ _. Unit {0}) _ ends, ne-overread (λ _. Unit {0}) _ ends)
