-- ===== src/Msgpack/RoundTrip/Insert.antt =====
-- `ucl_msgpack_insert_object` where it succeeds: into an array, and into an object under a new key.
use libucl.Base.{
  ℕ, suc, ◌-◌, ◌<◌, ◌≡◌, ◌≢◌, refl, sym, ◌∙◌, ap, arith, Bool, false, List, [], ◌∷◌, ◌++◌, Option,
  none, some, Bytes, length, All, ◌==◌,
}
use libucl.Store.{
  Config, Obj, Parser, Frame, Payload, key_eq, update, array_append, hash_insert, search_entries,
  search_chain, process_object_element, entries_of,
}
use libucl.Store
use libucl.Store.Update.{
  update-same, update-other, array_append-same, hash_insert-payload, hash_insert-siblings,
  hash_insert-key, hash_insert-other,
}
use libucl.Msgpack.Outcome.{ok}
use libucl.Msgpack.Machine.{count_down, insert_object, insert_on, insert_into}

-- Where a value goes: into an array, or into an object under a key.
pub data Place : Type 0 where
  in_array : Place
  under : Bytes → Place

-- The payload of a container with one more child.
abbrev pub grow : Place → Payload → ℕ → Payload
grow in_array (Store.array items) n = Store.array (items ++ (n ∷ []))
grow (under k) (Store.object es) n = Store.object (es ++ ((k, n) ∷ []))
grow place v n = v

-- The container is one for the place, and has no such key.
abbrev pub Accepts : Bool → Place → Payload → Type 0
Accepts caseless in_array (Store.array items) = Unit
Accepts caseless (under k) (Store.object es) =
    (0 < length k) × All (λ (e : Bytes × ℕ). key_eq caseless e.0 k ≡ false) es
Accepts caseless _ _ = ⊥

abbrev pub KeyIs : Place → Option Bytes → Type 0
KeyIs in_array key = Unit
KeyIs (under k) key = key ≡ some k

abbrev pub HasKey : Place → Obj → Type 0
HasKey in_array o = Unit
HasKey (under k) o = o.key ≡ k

-- What an insertion of the object at `n` does to the store and the stack.
pub record Inserted (place : Place) (p : Parser) (c n : ℕ) (stack : List Frame) (p' : Parser)
    : Type 0 where
  pub stack_is : p'.stack ≡ stack
  pub cur_is : p'.cur_obj ≡ some n
  pub fresh_is : p'.fresh ≡ p.fresh
  pub top_is : p'.top_obj ≡ p.top_obj
  pub err_is : p'.err ≡ p.err
  pub container_is : (p'.cell c).payload ≡ grow place (p.cell c).payload n
  pub container_key : (p'.cell c).key ≡ (p.cell c).key
  pub siblings_are : (p'.cell c).siblings ≡ (p.cell c).siblings
  pub child_is : (p'.cell n).payload ≡ (p.cell n).payload
  pub child_siblings : (p.cell n).siblings ≡ [] → (p'.cell n).siblings ≡ []
  pub child_key : HasKey place (p'.cell n)
  pub others : (r : ℕ) → r ≢ c → r ≢ n → p'.cell r ≡ p.cell r

not_zero : (l : ℕ) → 0 < l → (l == 0) ≡ false
not_zero l h = ground arith

search_entries-new :
    (caseless : Bool) (k : Bytes) (es : List (Bytes × ℕ))
    → All (λ (e : Bytes × ℕ). key_eq caseless e.0 k ≡ false) es
    → search_entries caseless k es ≡ none
unfolding search_entries
search_entries-new caseless k [] h = refl
search_entries-new caseless k ((j, r) ∷ es) (h, hs) = rw h (search_entries-new caseless k es hs)

suc_ne_zero : (l : ℕ) → (suc l == 0) ≡ false
suc_ne_zero l = ground arith

suc_minus_one : (l : ℕ) → suc l - 1 ≡ l
suc_minus_one l = omega arith

module _ (cfg : Config) (p : Parser) (c n l : ℕ) (fs : List Frame) (ne : c ≢ n)
    (hs : p.stack ≡ record { obj = some c; len = suc l } ∷ fs) (hc : p.cur_obj ≡ some n) where
  abbrev counted : List Frame
  counted = record { obj = some c; len = l } ∷ fs

  insert_counted :
      (key : Option Bytes) (q : Parser)
      → insert_into (p.cell c).payload cfg p c key n ≡ ok q
      → insert_on (record { obj = some c; len = suc l } ∷ fs) cfg p key n
        ≡ ok (record q { stack = count_down q.stack })
  unfolding insert_on
  insert_counted key q h = rw (suc_ne_zero l) (rw h refl)

  insert_array :
      (items : List ℕ) (key : Option Bytes)
      → (p.cell c).payload ≡ Store.array items
      → insert_object cfg p key n
        ≡ ok (record p { cell = array_append p.cell c n; stack = count_down p.stack })
  unfolding insert_into insert_object
  insert_array items key h =
      ap (λ s. insert_on s cfg p key n) hs
      ∙ insert_counted key (record p { cell = array_append p.cell c n })
          (ap (λ v. insert_into v cfg p c key n) h)

  stack_counted : count_down p.stack ≡ counted
  stack_counted = ap count_down hs ∙ rw (suc_minus_one l) refl

  Inserted-array :
      (items : List ℕ)
      → (p.cell c).payload ≡ Store.array items
      → Inserted in_array p c n counted
          (record p { cell = array_append p.cell c n; stack = count_down p.stack })
  unfolding array_append
  Inserted-array items h = record {
    stack_is = stack_counted;
    cur_is = hc;
    fresh_is = refl;
    top_is = refl;
    err_is = refl;
    container_is = rw (array_append-same p.cell c n items h, h) refl;
    container_key = rw (array_append-same p.cell c n items h) refl;
    siblings_are = rw (array_append-same p.cell c n items h) refl;
    child_is = rw (update-other p.cell c n _ (λ e. ne (sym e))) refl;
    child_siblings = λ e. rw (update-other p.cell c n _ (λ x. ne (sym x))) e;
    child_key = tt;
    others = λ r a b. update-other p.cell c r _ a;
  }

  -- The store when the key is set, and the store and the parser when the hash has the entry.
  abbrev keyed : Bytes → ℕ → Obj
  keyed k = update p.cell n (record (p.cell n) { key = k })

  abbrev put : Bytes → ℕ → Obj
  put k = hash_insert (keyed k) c n

  abbrev put_parser : Bytes → Parser
  put_parser k = record p {
    cell = update (put k) n (record (put k n) { siblings = [] });
    cur_obj = some n;
    stack = count_down p.stack;
  }

  key_set : (k : Bytes) → (keyed k n).key ≡ k
  key_set k = rw (update-same p.cell n (record (p.cell n) { key = k })) refl

  keyed-other : (k : Bytes) → keyed k c ≡ p.cell c
  keyed-other k = update-other p.cell n c (record (p.cell n) { key = k }) ne

  module _ (k : Bytes) (es : List (Bytes × ℕ)) (h : (p.cell c).payload ≡ Store.object es)
      (hsib : (p.cell c).siblings ≡ [])
      (hn : All (λ (e : Bytes × ℕ). key_eq cfg.key_lowercase e.0 k ≡ false) es) where
    no_key_found :
        search_chain cfg.key_lowercase (keyed k) (keyed k n).key (c ∷ (keyed k c).siblings) ≡ none
    unfolding search_chain
    no_key_found =
        rw (key_set k, keyed-other k, hsib)
          (rw (keyed-other k, search_chain)
            (rw h (rw (search_entries-new cfg.key_lowercase k es hn) refl)))

    process_new : process_object_element cfg (record p { cell = keyed k }) c n ≡ record p {
      cell = update (put k) n (record (put k n) { siblings = [] });
      cur_obj = some n;
    }
    unfolding process_object_element
    process_new = rw (no_key_found, process_object_element) refl

    insert_new : 0 < length k → insert_object cfg p (some k) n ≡ ok (put_parser k)
    unfolding insert_into insert_object
    insert_new pos =
        ap (λ s. insert_on s cfg p (some k) n) hs
        ∙ insert_counted (some k)
            (record p {
              cell = update (put k) n (record (put k n) { siblings = [] });
              cur_obj = some n;
            })
            (ap (λ v. insert_into v cfg p c (some k) n) h
              ∙ rw (not_zero (length k) pos) (ap ok process_new))

    put_child : put k n ≡ record (p.cell n) { key = k }
    put_child =
        hash_insert-other (keyed k) c n n (λ e. ne (sym e))
        ∙ update-same p.cell n (record (p.cell n) { key = k })

    container_cell : (put_parser k).cell c ≡ put k c
    container_cell = update-other (put k) n c _ ne

    child_cell : (put_parser k).cell n ≡ record (p.cell n) { key = k; siblings = [] }
    child_cell = update-same (put k) n _ ∙ ap (λ (o : Obj). record o { siblings = [] }) put_child

    Inserted-new : Inserted (under k) p c n counted (put_parser k)
    Inserted-new = record {
      stack_is = stack_counted;
      cur_is = refl;
      fresh_is = refl;
      top_is = refl;
      err_is = refl;
      container_is =
          ap (λ (o : Obj). o.payload) container_cell
          ∙ hash_insert-payload (keyed k) c n es (ap (λ (o : Obj). o.payload) (keyed-other k) ∙ h)
          ∙ ap (λ j. Store.object (es ++ ((j, n) ∷ []))) (key_set k)
          ∙ sym (ap (λ v. grow (under k) v n) h);
      container_key =
          ap (λ (o : Obj). o.key) container_cell
          ∙ hash_insert-key (keyed k) c n
          ∙ ap (λ (o : Obj). o.key) (keyed-other k);
      siblings_are =
          ap (λ (o : Obj). o.siblings) container_cell
          ∙ hash_insert-siblings (keyed k) c n
          ∙ ap (λ (o : Obj). o.siblings) (keyed-other k);
      child_is = ap (λ (o : Obj). o.payload) child_cell;
      child_siblings = λ e. ap (λ (o : Obj). o.siblings) child_cell;
      child_key = ap (λ (o : Obj). o.key) child_cell;
      others = λ r a b.
          update-other (put k) n r _ b
          ∙ hash_insert-other (keyed k) c n r a
          ∙ update-other p.cell n r _ b;
    }

  insert_payload :
      (v : Payload) (place : Place) (key : Option Bytes)
      → (p.cell c).payload ≡ v
      → Accepts cfg.key_lowercase place v
      → KeyIs place key
      → (p.cell c).siblings ≡ []
      → (p' : Parser) × (insert_object cfg p key n ≡ ok p') × Inserted place p c n counted p'
  insert_payload (Store.array items) in_array key h ha hk hsib = (
    record p { cell = array_append p.cell c n; stack = count_down p.stack },
    insert_array items key h,
    Inserted-array items h,
  )
  insert_payload (Store.object es) (under k) key h (pos, hn) hk hsib = (
    put_parser k,
    ap (λ x. insert_object cfg p x n) hk ∙ insert_new k es h hsib hn pos,
    Inserted-new k es h hsib hn,
  )
  insert_payload _ in_array key h ha hk hsib = absurd ha
  insert_payload _ (under k) key h ha hk hsib = absurd ha

  -- A value that the store has at `n` joins the container on top of the stack, which stands alone
  -- and is an array or an object that lacks the key: the insertion succeeds, the container has the
  -- value behind its others and waits for one element less, the value is the current object, and no
  -- other object is touched.
  pub insert_object-Inserted :
      (place : Place) (key : Option Bytes)
      → Accepts cfg.key_lowercase place (p.cell c).payload
      → KeyIs place key
      → (p.cell c).siblings ≡ []
      → (p' : Parser) × (insert_object cfg p key n ≡ ok p') × Inserted place p c n counted p'
  insert_object-Inserted place key ha hk hsib =
      insert_payload (p.cell c).payload place key refl ha hk hsib
