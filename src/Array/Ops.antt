-- ===== src/Array/Ops.antt =====
-- `ucl_array_append` to `ucl_array_replace_index` of src/ucl_util.c, on objects of type UCL_ARRAY.
use libucl.Base.{
  ℕ, Bool, zero, suc, ◌+◌, ◌-◌, ◌%◌, ◌^◌, ltb, ◌==◌, ◌&&◌, if◌then◌else◌, Option, none, some,
}
use libucl.Array.Vector.{KVec}

-- How a search for an element ends, if it does
pub data Scan : Type 0 where
  found : ℕ → Scan
  missing : Scan
  endless : Scan

-- What `ucl_array_index_of` returns
abbrev pub returned : Scan → Option ℕ
returned missing = some (2 ^ 32 - 1)
returned (found i) = some i
returned endless = none

module _ (K : KVec) where
  -- `value.av`, null until the first element comes, and the 32-bit `len` of an array
  pub record Array : Type 0 where
    pub av : Option K.Vec
    pub len : ℕ

  -- `top->len ++` and `top->len --`
  abbrev increment : ℕ → ℕ
  increment n = (n + 1) % 2 ^ 32

  abbrev decrement : ℕ → ℕ
  decrement n = (n + (2 ^ 32 - 1)) % 2 ^ 32

  -- `ucl_array_append`; `none` for a result `false`
  unfoldable pub array_append : Option Array → Option ℕ → Option Array
  array_append (some top) (some elt) = some record {
    av = some (K.push (elim top.av [ none ↦ K.init | some vec ↦ vec ]) elt);
    len = increment top.len;
  }
  array_append _ _ = none

  -- `ucl_array_prepend`
  unfoldable pub array_prepend : Option Array → Option ℕ → Option Array
  array_prepend (some top) (some elt) = some record {
    av = some (elim top.av [ none ↦ K.push K.init elt | some vec ↦ K.prepend vec elt ]);
    len = increment top.len;
  }
  array_prepend _ _ = none

  -- The loop of `ucl_array_merge` over the 32-bit `i`, with the `len` that it counts up; null is 0. `none`
  -- where so many rounds as there are elements do not end it.
  unfoldable pub count_from : K.Vec → ℕ → ℕ → ℕ → Option ℕ
  count_from vec zero i len = if ltb i (K.size vec) then none else some len
  count_from vec (suc k) i len =
      let rest =
        count_from vec k ((i + 1) % 2 ^ 32) (if K.at vec i == 0 then len else increment len) in
      if ltb i (K.size vec) then rest else some len

  abbrev pub merged : K.Vec → Option ℕ → Option (Option Array)
  merged vec none = none
  merged vec (some len) = some (some record { av = some vec; len = len })

  -- `ucl_array_merge` without a copy; `same` where both are the same object, so that `v2->n` is the number
  -- of elements behind the concatenation. `none` where the loop never ends.
  unfoldable pub array_merge : Bool → Option Array → Option Array → Option (Option Array)
  unfolding count_from
  array_merge same (some top) (some elt) = elim top.av [
    | none ↦ some (some top)
    | some v1 ↦ elim elt.av [
      | none ↦ some (some top)
      | some v2 ↦
          let v = K.concat v1 v2 in
          merged v
            (count_from v (K.size v) ((if same then K.size v else K.size v2) % 2 ^ 32) top.len)
    ]
  ]
  array_merge same _ _ = some none

  -- The loop of `ucl_array_delete` and `ucl_array_index_of` over the 32-bit `i`. Where so many rounds as
  -- there are elements do not end it, `i` has come back to an index that it had before.
  unfoldable pub index_from : K.Vec → ℕ → ℕ → ℕ → Scan
  index_from vec elt zero i = if ltb i (K.size vec) then endless else missing
  index_from vec elt (suc k) i =
      let rest = index_from vec elt k ((i + 1) % 2 ^ 32) in
      if ltb i (K.size vec) then (if K.at vec i == elt then found i else rest) else missing

  -- What is left to do behind the loop
  abbrev pub delete_at : Array → K.Vec → ℕ → Scan → Option (Option ℕ × Array)
  delete_at top vec elt missing = some (none, top)
  delete_at top vec elt (found i) =
      some (some elt, record { av = some (K.del vec i); len = decrement top.len })
  delete_at top vec elt endless = none

  -- `ucl_array_delete`; `none` where its loop never ends
  unfoldable pub array_delete : Array → ℕ → Option (Option ℕ × Array)
  array_delete top elt = elim top.av [
    | none ↦ some (none, top)
    | some vec ↦ delete_at top vec elt (index_from vec elt (K.size vec) 0)
  ]

  -- `ucl_array_head`
  unfoldable pub array_head : Array → Option ℕ
  array_head top = elim top.av [
    | none ↦ none
    | some vec ↦ if ltb 0 (K.size vec) then some (K.at vec 0) else none
  ]

  -- `ucl_array_tail`
  unfoldable pub array_tail : Array → Option ℕ
  array_tail top = elim top.av [
    | none ↦ none
    | some vec ↦ if ltb 0 (K.size vec) then some (K.at vec (K.size vec - 1)) else none
  ]

  -- `ucl_array_pop_last`
  unfoldable pub array_pop_last : Array → Option ℕ × Array
  array_pop_last top = elim top.av [
    | none ↦ (none, top)
    | some vec ↦
        let last = K.size vec - 1 in
        if ltb 0 (K.size vec)
        then (some (K.at vec last), record { av = some (K.del vec last); len = decrement top.len })
        else (none, top)
  ]

  -- `ucl_array_pop_first`
  unfoldable pub array_pop_first : Array → Option ℕ × Array
  array_pop_first top = elim top.av [
    | none ↦ (none, top)
    | some vec ↦
        if ltb 0 (K.size vec)
        then (some (K.at vec 0), record { av = some (K.del vec 0); len = decrement top.len })
        else (none, top)
  ]

  -- `ucl_array_size`, an `unsigned int`
  unfoldable pub array_size : Array → ℕ
  array_size top = elim top.av [ none ↦ 0 | some vec ↦ K.size vec % 2 ^ 32 ]

  -- `ucl_array_find_index`
  unfoldable pub array_find_index : Array → ℕ → Option ℕ
  array_find_index top index = elim top.av [
    | none ↦ none
    | some vec ↦
        if ltb 0 (K.size vec) && ltb index (K.size vec) then some (K.at vec index) else none
  ]

  -- `ucl_array_index_of`; `none` where its loop never ends
  unfoldable pub array_index_of : Array → ℕ → Option ℕ
  array_index_of top elt = elim top.av [
    | none ↦ some (2 ^ 32 - 1)
    | some vec ↦ returned (index_from vec elt (K.size vec) 0)
  ]

  -- `ucl_array_replace_index`
  unfoldable pub array_replace_index : Array → ℕ → ℕ → Option ℕ × Array
  array_replace_index top elt index = elim top.av [
    | none ↦ (none, top)
    | some vec ↦
        if ltb 0 (K.size vec) && ltb index (K.size vec)
        then (some (K.at vec index), record { av = some (K.assign vec index elt); len = top.len })
        else (none, top)
  ]
