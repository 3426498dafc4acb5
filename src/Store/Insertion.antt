-- ===== src/Store/Insertion.antt =====
-- Each branch of `ucl_parser_process_object_element` on a container with distinct keys.
use libucl.Base.{
  ℕ, ◌+◌, ◌<◌, ◌≡◌, ◌≢◌, refl, sym, ap, ◌∙◌, arith, Bool, true, false, not, ltb, ◌==◌,
  if◌then◌else◌, List, [], ◌∷◌, ◌++◌, Option, none, some, Bytes, Option-cases, inl, inr,
}
use mathlib.Core.Path.{subst}
use libucl.Store.{
  Config, Parser, Obj, array, object, Strategy, append, merge, rewrite, error, update, array_append,
  new_object, key_eq, search_entries, search_chain, entries_of, hash_insert, hash_replace,
  replace_entries, append_elt, by_priority, is_container, process_duplicate, process_object_element,
}
use libucl.Store.Update.{
  update-same, update-other, hash_insert-payload, hash_insert-siblings, hash_insert-keys,
  hash_replace-keys, hash_replace-siblings, hash_replace-payload, array_append-keys,
  array_append-others, key-update,
}
use libucl.Store.Keys.{key_eq_refl}
use libucl.Store.Container.{
  Container, Holding, Holding-same, Holding-added, Holding-replaced, found-under, winner, by_age,
  holder,
}

module _ (cfg : Config) (p : Parser) (c new : ℕ) (es : List (Bytes × ℕ))
    (ct : Container cfg.key_lowercase p.cell p.fresh c es) (ne : new ≢ c) (ltn : new < p.fresh)
    (ltc : c < p.fresh) where
  abbrev k : Bytes
  k = (p.cell new).key

  abbrev Holds : Parser → ℕ → Type 0
  Holds q r = Holding cfg.key_lowercase q.cell q.fresh c es k r

  -- The key is new.
  insert-Holding :
      search_entries cfg.key_lowercase k es ≡ none
      → Holds
          (record p {
            cell =
                update
                  (hash_insert p.cell c new)
                  new
                  (record (hash_insert p.cell c new new) { siblings = [] });
          })
          new
  insert-Holding hs =
      let cell1 = hash_insert p.cell c new in
      let o = record (cell1 new) { siblings = [] } in
      let cell2 = update cell1 new o in
      let keep : (r : ℕ) → (cell2 r).key ≡ (p.cell r).key =
        λ r. key-update cell1 new o refl r ∙ hash_insert-keys p.cell c new r in
      let at_c : cell2 c ≡ cell1 c = update-other cell1 new c o (λ e. ne (sym e)) in
      Holding-added cfg p (record p { cell = cell2 }) c es ct (λ r lt. keep r) (omega arith)
        (ap (λ (x : Obj). x.siblings) at_c ∙ hash_insert-siblings p.cell c new ∙ ct.alone) k new
        (ap (λ (x : Obj). x.payload) at_c ∙ hash_insert-payload p.cell c new es ct.payload_is)
        (keep new) ne ltn hs

  -- An object of the key is there.
  module _ (old : ℕ) (hs : search_entries cfg.key_lowercase k es ≡ some old) where
    old_is : (old ≢ c) × (old < p.fresh) × (key_eq cfg.key_lowercase (p.cell old).key k ≡ true)
    old_is =
        let (j, (hk, neo, lto), same) = found-under cfg.key_lowercase k old _ es ct.named hs in
        (neo, lto, ap (λ x. key_eq cfg.key_lowercase x k) hk ∙ same)

    -- Nothing changes under the key.
    keep-Holding : Holds p old
    keep-Holding = Holding-same cfg p p c es ct (λ r lt. refl) (omega arith) ct.alone k old refl hs

    -- The new object takes the old one's place.
    replace-Holding :
        Holds (record p { cell = hash_replace cfg.key_lowercase p.cell c old new }) new
    replace-Holding =
        let cell1 = hash_replace cfg.key_lowercase p.cell c old new in
        Holding-replaced cfg p (record p { cell = cell1 }) c es ct
          (λ r lt. hash_replace-keys cfg.key_lowercase p.cell c old new r) (omega arith)
          (hash_replace-siblings cfg.key_lowercase p.cell c old new ∙ ct.alone) k k old new
          (hash_replace-payload cfg.key_lowercase p.cell c old new es ct.payload_is) old_is.2
          old_is.2 (hash_replace-keys cfg.key_lowercase p.cell c old new new) ne ltn hs

    -- A sibling of the old object
    sibling : ℕ → Obj
    sibling =
        update p.cell old (record (p.cell old) {
          multivalue = true;
          siblings = (p.cell old).siblings ++ (new ∷ []);
        })

    implicit-Holding :
        Holds
          (record p { cell = update sibling c (record (sibling c) { len = (sibling c).len + 1 }) })
          old
    unfolding sibling
    implicit-Holding =
        let cell1 = update sibling c (record (sibling c) { len = (sibling c).len + 1 }) in
        let at_c : sibling c ≡ p.cell c = update-other p.cell old c _ (λ e. old_is.0 (sym e)) in
        let same = update-same sibling c (record (sibling c) { len = (sibling c).len + 1 }) in
        Holding-same cfg p (record p { cell = cell1 }) c es ct
          (λ r lt. key-update sibling c _ refl r ∙ key-update p.cell old _ refl r) (omega arith)
          (ap (λ (o : Obj). o.siblings) same ∙ ap (λ (o : Obj). o.siblings) at_c ∙ ct.alone) k old
          (ap (λ (o : Obj). o.payload) same ∙ ap (λ (o : Obj). o.payload) at_c) hs

    explicit-Holding : Holds (record p { cell = array_append p.cell old new }) old
    explicit-Holding =
        let at_c = array_append-others p.cell old new c (λ e. old_is.0 (sym e)) in
        Holding-same cfg p (record p { cell = array_append p.cell old new }) c es ct
          (λ r lt. array_append-keys p.cell old new r) (omega arith)
          (ap (λ (o : Obj). o.siblings) at_c ∙ ct.alone) k old (ap (λ (o : Obj). o.payload) at_c) hs

    -- The array that takes the old object's place
    array_cell : ℕ → Obj
    array_cell =
        update p.cell p.fresh
          (record (new_object (array []) 0) { key = (p.cell old).key; multivalue = true })

    array_cell-key : (r : ℕ) → r < p.fresh → (array_cell r).key ≡ (p.cell r).key
    unfolding array_cell
    array_cell-key r lt =
        ap (λ (o : Obj). o.key)
          (update-other p.cell p.fresh r _ (λ e. absurd (omega (arith, e, lt))))

    joined : ℕ → Obj
    joined = array_append (array_append array_cell p.fresh old) p.fresh new

    joined-keys : (r : ℕ) → (joined r).key ≡ (array_cell r).key
    unfolding joined
    joined-keys r =
        array_append-keys (array_append array_cell p.fresh old) p.fresh new r
        ∙ array_append-keys array_cell p.fresh old r

    joined-others : (r : ℕ) → r < p.fresh → joined r ≡ p.cell r
    unfolding joined array_cell
    joined-others r lt =
        let ne' : r ≢ p.fresh = λ e. absurd (omega (arith, e, lt)) in
        array_append-others (array_append array_cell p.fresh old) p.fresh new r ne'
        ∙ array_append-others array_cell p.fresh old r ne'
        ∙ update-other p.cell p.fresh r _ ne'

    array-Holding :
        Holds
          (record p {
            cell = hash_replace cfg.key_lowercase joined c old p.fresh;
            fresh = p.fresh + 1;
          })
          p.fresh
    unfolding array_cell
    array-Holding =
        let cell1 = hash_replace cfg.key_lowercase joined c old p.fresh in
        let at_c = joined-others c ltc in
        let new_key : (joined p.fresh).key ≡ (p.cell old).key =
          joined-keys p.fresh ∙ ap (λ (o : Obj). o.key) (update-same p.cell p.fresh _) in
        let old_key : (joined old).key ≡ (p.cell old).key =
          ap (λ (o : Obj). o.key) (joined-others old old_is.1) in
        Holding-replaced cfg p (record p { cell = cell1; fresh = p.fresh + 1 }) c es ct
          (λ r lt.
            hash_replace-keys cfg.key_lowercase joined c old p.fresh r
            ∙ ap (λ (o : Obj). o.key) (joined-others r lt))
          (omega arith)
          (hash_replace-siblings cfg.key_lowercase joined c old p.fresh
            ∙ ap (λ (o : Obj). o.siblings) at_c
            ∙ ct.alone)
          k (p.cell old).key old p.fresh
          (hash_replace-payload cfg.key_lowercase joined c old p.fresh es
              (ap (λ (o : Obj). o.payload) at_c ∙ ct.payload_is)
            ∙ ap (λ x. object (replace_entries cfg.key_lowercase x (joined p.fresh).key p.fresh es))
                old_key
            ∙ ap (λ x. object (replace_entries cfg.key_lowercase (p.cell old).key x p.fresh es))
                new_key)
          (key_eq_refl cfg.key_lowercase (p.cell old).key) old_is.2
          (hash_replace-keys cfg.key_lowercase joined c old p.fresh p.fresh ∙ new_key)
          (λ e. absurd (omega (arith, e, ltc))) (omega arith) hs

  Holds-if :
      (b : Bool) (x y : Parser) (r s : ℕ)
      → Holds x r
      → Holds y s
      → Holds (if b then x else y) (if b then r else s)
  Holds-if true x y r s h h' = h
  Holds-if false x y r s h h' = h'

  module _ (old : ℕ) (hs : search_entries cfg.key_lowercase k es ≡ some old) where
    append_elt-Holding : Holds (append_elt cfg p c old new) (
        if not cfg.no_implicit_arrays
        then old
        else if (p.cell old).multivalue
        then old
        else p.fresh)
    unfolding append_elt sibling array_cell joined
    append_elt-Holding =
        Holds-if (not cfg.no_implicit_arrays) _ _ _ _ (implicit-Holding old hs) (
          Holds-if (p.cell old).multivalue _ _ _ _ (explicit-Holding old hs) (array-Holding old hs))

    by_priority-Holding :
        (priold prinew : ℕ)
        → Holds
            (by_priority cfg p c old new priold prinew)
            (by_age cfg p.cell p.fresh old new priold prinew)
    unfolding by_priority
    by_priority-Holding priold prinew =
        Holds-if (priold == prinew) _ _ _ _ append_elt-Holding
          (Holds-if (ltb prinew priold) _ _ _ _ (keep-Holding old hs) (replace-Holding old hs))

    process_duplicate-Holding :
        (s : Strategy)
        → Holds (process_duplicate s cfg p c old new) (winner s cfg p.cell p.fresh old new)
    unfolding process_duplicate
    process_duplicate-Holding append =
        by_priority-Holding (p.cell old).priority
          (if (p.cell old).inherited then (p.cell old).priority + 1 else (p.cell new).priority)
    process_duplicate-Holding rewrite = replace-Holding old hs
    process_duplicate-Holding error = keep-Holding old hs
    process_duplicate-Holding merge =
        let priold = (p.cell old).priority in
        let prinew = (p.cell new).priority in
        Holds-if (is_container (p.cell old).payload) (record p { cur_obj = some old })
          (record (by_priority cfg p c old new priold prinew) { cur_obj = some new }) old
          (by_age cfg p.cell p.fresh old new priold prinew) (keep-Holding old hs)
          (by_priority-Holding priold prinew)

  search_chain-alone :
      search_chain cfg.key_lowercase p.cell k (c ∷ (p.cell c).siblings)
      ≡ search_entries cfg.key_lowercase k es
  unfolding search_chain
  search_chain-alone =
      ap (λ l. search_chain cfg.key_lowercase p.cell k (c ∷ l)) ct.alone
      ∙ ap
          (λ v. elim (search_entries cfg.key_lowercase k (entries_of v)) [
            | none ↦ none
            | some r ↦ some r
          ])
          ct.payload_is
      ∙ elim (Option-cases (search_entries cfg.key_lowercase k es)) [
        | inl a ↦ rw a refl
        | inr (r, a) ↦ rw a refl
      ]

  process-found :
      (o : Option ℕ)
      → search_entries cfg.key_lowercase k es ≡ o
      → Holds
          (elim o [
            | none ↦ record p {
              cell =
                  update
                    (hash_insert p.cell c new)
                    new
                    (record (hash_insert p.cell c new new) { siblings = [] });
              cur_obj = some new;
            }
            | some tobj ↦ process_duplicate cfg.strategy cfg p c tobj new
          ])
          (holder cfg p.cell p.fresh o new)
  process-found none h = insert-Holding h
  process-found (some old) h = process_duplicate-Holding old h cfg.strategy

  -- An object of the store joins a container whose keys are distinct and the keys of its objects, and which
  -- stands alone: afterwards its keys are distinct again and the keys of its objects, the new object's key
  -- leads to the object that the strategy and the priorities choose (the new one, if the key is new), and
  -- every other key leads to the object it led to before.
  pub process_object_element-Holding :
      Holding cfg.key_lowercase
        (process_object_element cfg p c new).cell
        (process_object_element cfg p c new).fresh
        c
        es
        (p.cell new).key
        (holder cfg p.cell p.fresh (search_entries cfg.key_lowercase (p.cell new).key es) new)
  unfolding process_object_element
  process_object_element-Holding =
      let s = search_entries cfg.key_lowercase k es in
      subst
        (λ o.
          Holds
            (elim o [
              | none ↦ record p {
                cell =
                    update (hash_insert p.cell c new) new
                      (record (hash_insert p.cell c new new) { siblings = [] });
                cur_obj = some new;
              }
              | some tobj ↦ process_duplicate cfg.strategy cfg p c tobj new
            ])
            (holder cfg p.cell p.fresh s new))
        (sym search_chain-alone) (process-found s refl)
