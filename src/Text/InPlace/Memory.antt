-- ===== src/Text/InPlace/Memory.antt =====
-- Bytes in a buffer behind writes to it.
use libucl.Base.{
  ℕ, suc, ◌+◌, ◌≤◌, ◌<◌, ◌≡◌, ◌≢◌, refl, ap, ◌∙◌, arith, Bool, true, false, ◌==◌, ==_iff,
  if◌then◌else◌, [], ◌∷◌, ◌++◌, Bytes, length, length-append, Bool-cases, inl, inr,
}
use mathlib.Core.Path.{subst}
use libucl.Text.InPlace.{Buffer, put, write_at, Has, Source}

pub put-same : (buf : Buffer) (t c : ℕ) → put buf t c t ≡ c
put-same buf t c = ap (λ b. if b then c else buf t) ((==_iff t t).1 refl)

pub put-other : (buf : Buffer) (t c i : ℕ) → i ≢ t → put buf t c i ≡ buf i
put-other buf t c i ne = elim (Bool-cases (i == t)) [
  | inl a ↦ absurd (ne ((==_iff i t).0 a))
  | inr a ↦ rw a refl
]

pub Has-keep :
    (buf buf' : Buffer) (t : ℕ) (cs : Bytes)
    → ((i : ℕ) → t ≤ i → i < t + length cs → buf' i ≡ buf i)
    → Has buf t cs
    → Has buf' t cs
Has-keep buf buf' t [] h x = tt
Has-keep buf buf' t (c ∷ cs) h (x, xs) = (
  h t (omega arith) (omega arith) ∙ x,
  Has-keep buf buf' (suc t) cs (λ i a b. h i (omega arith) (omega arith)) xs,
)

write_at-other :
    (cs : Bytes) (buf : Buffer) (t i : ℕ)
    → ((t ≤ i) → t + length cs ≤ i)
    → write_at buf t cs i ≡ buf i
unfolding write_at
write_at-other [] buf t i h = refl
write_at-other (c ∷ cs) buf t i h =
    write_at-other cs (put buf t c) (suc t) i (λ a. omega (arith, h (omega arith)))
    ∙ put-other buf t c i (λ e. absurd (omega (arith, h (omega (arith, e)), e)))

write_at-Has : (cs : Bytes) (buf : Buffer) (t : ℕ) → Has (write_at buf t cs) t cs
unfolding write_at
write_at-Has [] buf t = tt
write_at-Has (c ∷ cs) buf t = (
  write_at-other cs (put buf t c) (suc t) t (λ a. absurd (omega arith)) ∙ put-same buf t c,
  write_at-Has cs (put buf t c) (suc t),
)

Has-append :
    (buf : Buffer) (t : ℕ) (cs ds : Bytes)
    → Has buf t cs
    → Has buf (t + length cs) ds
    → Has buf t (cs ++ ds)
Has-append buf t [] ds h k = subst (λ x. Has buf x ds) (omega arith) k
Has-append buf t (c ∷ cs) ds (h, hs) k =
    (h, Has-append buf (suc t) cs ds hs (subst (λ x. Has buf x ds) (omega arith) k))

-- The loop has written `out` at `t`, and nothing else.
pub record Wrote (res : Buffer × ℕ) (buf : Buffer) (t : ℕ) (out : Bytes) : Type 0 where
  pub moved : res.1 ≡ t + length out
  pub wrote : Has res.0 t out
  pub others : (i : ℕ) → ((t ≤ i) → t + length out ≤ i) → res.0 i ≡ buf i

pub Wrote-nothing : (buf : Buffer) (t : ℕ) → Wrote (buf, t) buf t []
Wrote-nothing buf t = record { moved = omega arith; wrote = tt; others = λ i h. refl }

pub Wrote-more :
    (res : Buffer × ℕ) (buf : Buffer) (t : ℕ) (w out : Bytes)
    → Wrote res (write_at buf t w) (t + length w) out
    → Wrote res buf t (w ++ out)
Wrote-more res buf t w out d = record {
  moved = omega (arith, d.moved, length-append w out);
  wrote =
      Has-append res.0 t w out
        (Has-keep (write_at buf t w) res.0 t w
          (λ i a b. d.others i (λ x. absurd (omega (arith, b, x)))) (write_at-Has w buf t))
        d.wrote;
  others = λ i h.
      d.others i (λ x. omega (arith, length-append w out, h (omega (arith, x))))
      ∙ write_at-other w buf t i (λ x. omega (arith, length-append w out, h x));
}

pub Wrote-if :
    (b : Bool) (x y : Buffer × ℕ) (buf : Buffer) (t : ℕ) (o o' : Bytes)
    → Wrote x buf t o
    → Wrote y buf t o'
    → Wrote (if b then x else y) buf t (if b then o else o')
Wrote-if true x y buf t o o' h k = h
Wrote-if false x y buf t o o' h k = k

-- What is still to be read lies behind what is written.
pub Source-keep :
    (buf : Buffer) (t h : ℕ) (w cs : Bytes)
    → t + length w ≤ h
    → Has buf h (cs ++ (0 ∷ []))
    → Source (write_at buf t w) h cs
Source-keep buf t h w [] le x = tt
Source-keep buf t h w (c ∷ cs) le x =
    Has-keep buf (write_at buf t w) h ((c ∷ cs) ++ (0 ∷ []))
      (λ i a b. write_at-other w buf t i (λ y. omega (arith, le, a))) x

pub Wrote-one :
    (res : Buffer × ℕ) (buf : Buffer) (t c : ℕ) (out : Bytes)
    → Wrote res (put buf t c) (suc t) out
    → Wrote res buf t (c ∷ out)
unfolding write_at
Wrote-one res buf t c out d =
    Wrote-more res buf t (c ∷ []) out (subst (λ x. Wrote res (put buf t c) x out) (omega arith) d)

pub Source-put :
    (buf : Buffer) (t h c : ℕ) (cs : Bytes)
    → t < h
    → Has buf h (cs ++ (0 ∷ []))
    → Source (put buf t c) h cs
unfolding write_at
Source-put buf t h c cs lt x = Source-keep buf t h (c ∷ []) cs (omega arith) x
