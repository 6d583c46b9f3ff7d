-- ===== src/Packet/Parse.antt =====
-- The abstract view of a packet that is being read: the bytes that are left, and the allocator.
-- A parser over that view is what a reader promises; `fault` in a parser promises nothing.
use dimq.Prelude.{refl, sym, subst, arith, ℕ, ◌-◌, ◌≤◌, ◌<◌, ◌^◌, ◌≡◌, List, take, drop, length}
use dimq.Result.{Result, ok, err, fault}
use dimq.Packet.{Packet, Heap, M, bind, ◌>>=◌}

unfoldable pub unread : Packet → List ℕ
unread p = take (p.remaining_length - p.pos) (drop p.pos p.payload)

-- What the framing layer sets up and every reader keeps.
pub record IsReadable (p : Packet) : Type 0 where
  pub within : p.pos ≤ p.remaining_length
  pub backed : p.remaining_length ≤ length p.payload
  pub sized : p.remaining_length < 2 ^ 31

-- A reader moves in the packet and leaves everything else alone.
pub record SameBuffer (p q : Packet) : Type 0 where
  pub same_payload : q.payload ≡ p.payload
  pub same_remaining : q.remaining_length ≡ p.remaining_length
  pub same_packet_length : q.packet_length ≡ p.packet_length
  pub onward : p.pos ≤ q.pos

abbrev pub Parse : Type 0 → Type 0
Parse A = List ℕ → Heap → Result (A × List ℕ × Heap)

abbrev pub Agrees : {A : Type 0} → Packet → Result A × Packet → Result (A × List ℕ × Heap) → Type 0
Agrees p (ok a, q) (ok (b, r, h)) =
    (a ≡ b) × (unread q ≡ r) × (q.heap ≡ h) × IsReadable q × SameBuffer p q
Agrees p (err e, q) (ok _) = ⊥
Agrees p (fault, q) (ok _) = ⊥
Agrees p (ok a, q) (err f) = ⊥
Agrees p (err e, q) (err f) = e ≡ f
Agrees p (fault, q) (err f) = ⊥
Agrees p (ok a, q) fault = Unit
Agrees p (err a, q) fault = Unit
Agrees p (fault, q) fault = Unit

abbrev pub Refines : {A : Type 0} → M A → Parse A → Type 0
Refines m s = (p : Packet) → IsReadable p → Agrees p (m p) (s (unread p) p.heap)

abbrev pub after :
    {A B : Type 0} → Result (A × List ℕ × Heap) → (A → Parse B) → Result (B × List ℕ × Heap)
after (ok (a, r, h)) t = t a r h
after (err e) t = err e
after fault t = fault

abbrev pub chain : {A B : Type 0} → Parse A → (A → Parse B) → Parse B
chain s t bs h = after (s bs h) t

SameBuffer-trans : {p q r : Packet} → SameBuffer p q → SameBuffer q r → SameBuffer p r
SameBuffer-trans a b = ground arith

Agrees-trans :
    {B : Type 0} (p q : Packet) (x : Result B × Packet) (y : Result (B × List ℕ × Heap))
    → SameBuffer p q
    → Agrees q x y
    → Agrees p x y
Agrees-trans p q (ok a, r) (ok (b, s, h)) st (e, u, v, w, z) = (e, u, v, w, SameBuffer-trans st z)
Agrees-trans p q (err e, r) (ok _) st g = g
Agrees-trans p q (fault, r) (ok _) st g = g
Agrees-trans p q (ok a, r) (err f) st g = g
Agrees-trans p q (err e, r) (err f) st g = g
Agrees-trans p q (fault, r) (err f) st g = g
Agrees-trans p q (ok a, r) fault st g = g
Agrees-trans p q (err e, r) fault st g = g
Agrees-trans p q (fault, r) fault st g = g

pub no_claim : {A : Type 0} (p : Packet) (x : Result A × Packet) → Agrees p x fault
no_claim p (ok a, q) = tt
no_claim p (err a, q) = tt
no_claim p (fault, q) = tt

pub Agrees-bind :
    {A B : Type 0} (p : Packet) (x : Result A × Packet) (y : Result (A × List ℕ × Heap))
    (f : A → M B) (t : A → Parse B)
    → ((a : A) (r : List ℕ) (h : Heap) → y ≡ ok (a, r, h) → Refines (f a) (t a))
    → Agrees p x y
    → Agrees p (bind x f) (after y t)
Agrees-bind p (ok a, q) (ok (b, r, h)) f t k (e, u, v, w, z) =
    Agrees-trans p q (f a q) (t b r h) z (
      subst (λ c. Agrees q (f c q) (t b r h)) (sym e)
        (subst (λ s. Agrees q (f b q) (t b s h)) u
          (subst (λ g. Agrees q (f b q) (t b (unread q) g)) v (k b r h refl q w))))
Agrees-bind p (err e, q) (ok _) f t k g = absurd g
Agrees-bind p (fault, q) (ok _) f t k g = absurd g
Agrees-bind p (ok a, q) (err e) f t k g = absurd g
Agrees-bind p (err e, q) (err _) f t k g = g
Agrees-bind p (fault, q) (err e) f t k g = g
Agrees-bind p (ok a, q) fault f t k g = no_claim p (f a q)
Agrees-bind p (err e, q) fault f t k g = g
Agrees-bind p (fault, q) fault f t k g = g

-- Readers that refine parsers compose; the second may rely on what the first parser returns.
pub Refines-bind_with :
    {A B : Type 0} (P : A → Type 0) (m : M A) (s : Parse A) (f : A → M B) (t : A → Parse B)
    → Refines m s
    → ((bs : List ℕ) (g : Heap) (a : A) (r : List ℕ) (h : Heap) → s bs g ≡ ok (a, r, h) → P a)
    → ((a : A) → P a → Refines (f a) (t a))
    → Refines (m >>= f) (chain s t)
Refines-bind_with P m s f t h known k p v =
    Agrees-bind p (m p) (s (unread p) p.heap) f t (λ a r g e. k a (known (unread p) p.heap a r g e))
      (h p v)

pub Refines-bind :
    {A B : Type 0} (m : M A) (s : Parse A) (f : A → M B) (t : A → Parse B)
    → Refines m s
    → ((a : A) → Refines (f a) (t a))
    → Refines (m >>= f) (chain s t)
Refines-bind m s f t h k p r =
    Agrees-bind p (m p) (s (unread p) p.heap) f t (λ a _ _ _. k a) (h p r)
