-- ===== src/Array/Examples.antt =====
-- Concrete arrays: the vector as a list.
use libucl.Base.{
  ℕ, zero, suc, ◌<◌, ◌≡◌, refl, arith, false, ◌+◌, ◌%◌, ◌^◌, List, [], ◌∷◌, ◌++◌, Option, none,
  some, length,
}
use libucl.Array.Vector.{KVec, nth, remove_at, set_at}
use libucl.Array.Ops.{
  Array, array_append, array_prepend, array_delete, array_pop_last, array_pop_first,
  array_replace_index, array_merge, index_from,
}
use libucl.Array.Spec.{
  Command, append, prepend, delete, pop_last, pop_first, replace_index, exec, exec_all, spec_all,
  elements,
}
use libucl.Array.Refines.{RefinedAll, exec_all-RefinedAll}
use libucl.Array.Merge.{array_merge-len}
use libucl.Array.Reads.{Observed, array-Observed}

abbrev element : List ℕ → ℕ → ℕ
element xs i = elim (nth xs i) [ none ↦ 0 | some x ↦ x ]

nth-element : (xs : List ℕ) (i : ℕ) → i < length xs → nth xs i ≡ some (element xs i)
nth-element [] i lt = absurd (omega arith)
nth-element (x ∷ xs) zero lt = refl
nth-element (x ∷ xs) (suc i) lt = nth-element xs i (omega arith)

abbrev lists : KVec
lists = record {
  Vec = List ℕ;
  init = [];
  push = λ v x. v ++ (x ∷ []);
  prepend = λ v x. x ∷ v;
  concat = λ v w. v ++ w;
  del = remove_at;
  at = element;
  assign = set_at;
  size = length;
  items = λ v. v;
  items-init = refl;
  items-push = λ v x. refl;
  items-prepend = λ v x. refl;
  items-concat = λ v w. refl;
  items-del = λ v i lt. refl;
  nth-items = nth-element;
  items-assign = λ v i x lt. refl;
  size-items = λ v. refl;
}

abbrev fresh : Array lists
fresh = record { av = none; len = 0 }

abbrev commands : List Command
commands =
    append 5
    ∷ append 7
    ∷ prepend 3
    ∷ append 7
    ∷ delete 7
    ∷ replace_index 0 4
    ∷ pop_last
    ∷ pop_first
    ∷ []

run_commands :
    exec_all lists commands fresh
    ≡ some (
      none ∷ none ∷ none ∷ none ∷ some 7 ∷ some 3 ∷ some 7 ∷ some 4 ∷ [],
      record { av = some (5 ∷ []); len = 1 },
    )
unfolding exec_all exec array_append array_prepend array_delete array_pop_last array_pop_first
    array_replace_index index_from
run_commands = refl

exec_all-RefinedAll_example :
    (out : List (Option ℕ) × Array lists) × (exec_all lists commands fresh ≡ some out)
    × RefinedAll lists out (spec_all commands [])
exec_all-RefinedAll_example = exec_all-RefinedAll lists commands fresh refl (omega arith)

abbrev two : Array lists
two = record { av = some (5 ∷ 7 ∷ []); len = 2 }

array-Observed_example : Observed lists two (5 ∷ 7 ∷ [])
array-Observed_example = array-Observed lists two (omega arith)

-- Two and one elements make three, and a `len` of four.
array_merge-len_example :
    (b : Array lists) × (array_merge lists false
        (some (record { av = some (5 ∷ 7 ∷ []); len = 2 }))
        (some (record { av = some (9 ∷ []); len = 1 }))
      ≡ some (some b))
    × (elements lists b ≡ (5 ∷ 7 ∷ []) ++ (9 ∷ []))
    × (b.len ≡ (2 + 2) % 2 ^ 32)
array_merge-len_example =
    array_merge-len lists (5 ∷ 7 ∷ []) (9 ∷ []) 2 1 (refl, (refl, (refl, tt))) (omega arith)
      (omega arith) false
