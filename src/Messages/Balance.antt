-- ===== src/Messages/Balance.antt =====
-- The send quota of a client, lib/messages_dimq.c and lib/util_dimq.c: what each operation does to the
-- number of messages in flight.
use dimq.Result.{protocol, Result, ok, err, fault}
use dimq.Prelude.{
  ==_iff, ℕ, zero, suc, ◌+◌, ◌≡◌, inl, inr, ◌==◌, List, [], ◌∷◌, ◌++◌, length, Bool-cases, arith,
  refl, ap, sym, subst, if◌then◌else◌,
}
use dimq.Messages.{
  Message, MsgState, Net, rest_of, Released, release, is_waiting, is_invalid, to_send, past,
  remove_from,
}
use dimq.Messages.Release.{IsOpen, IsQos, AllQos, release-none, release-sent, release-behind}

-- 1 for a message that was sent and is not yet acknowledged.
abbrev pub weight : MsgState → ℕ
weight s = if is_invalid s then 0 else 1

-- How many messages are in flight.
unfoldable pub flying : List Message → ℕ
flying [] = 0
flying (m ∷ ms) = weight m.state + flying ms

waits : (m : Message) → IsQos m → is_waiting m ≡ is_invalid m.state
waits m (inl e) = rw e refl
waits m (inr e) = rw e refl

sent_weight : (m : Message) → IsQos m → weight (to_send m).state ≡ 1
sent_weight m (inl e) = rw e refl
sent_weight m (inr e) = rw e refl

sent_IsQos : (m : Message) → IsQos m → IsQos (to_send m)
sent_IsQos m (inl e) = rw e (inl refl)
sent_IsQos m (inr e) = rw e (inr refl)

-- What a release keeps.
abbrev pub IsKept : List Message → ℕ → Released → Type 0
IsKept ms quota r =
    (r.quota + flying r.messages ≡ quota + flying ms)
    × (length r.messages ≡ length ms)
    × AllQos r.messages

pub release-IsKept :
    (ms : List Message) (quota : ℕ) (net : Net)
    → IsOpen net
    → AllQos ms
    → IsKept ms quota (release ms quota net)
unfolding flying
release-IsKept [] quota net all qos = unfold release in (refl, refl, tt)
release-IsKept (m ∷ ms) zero net all qos = rw (release-none (m ∷ ms) net) (refl, refl, qos)
release-IsKept (m ∷ ms) (suc q) net all qos = elim (Bool-cases (is_waiting m)) [
  | inl t ↦
      let (sum, len, kept) = release-IsKept ms q (rest_of net) (λ i. all (suc i)) qos.1 in
      let one = sent_weight m qos.0 in
      let none_yet : weight m.state ≡ 0 = rw (sym (waits m qos.0), t) refl in
      rw (release-sent m ms q net all t)
        (omega (arith, sum, one, none_yet), ap suc len, (sent_IsQos m qos.0, kept))
  | inr t ↦
      let (sum, len, kept) = release-IsKept ms (suc q) net all qos.1 in
      rw (release-behind m ms q net t) (omega (arith, sum), ap suc len, (qos.0, kept))
]

-- The message that was found, and what is left.
abbrev pub IsTaken : ℕ → List Message → Message → List Message → Type 0
IsTaken mid ms m rest =
    (m.mid ≡ mid)
    × (flying ms ≡ weight m.state + flying rest)
    × (length ms ≡ suc (length rest))
    × AllQos rest

pub past-ok :
    (n m : Message) (rest : List Message) (r : Result (Message × List Message))
    → past n r ≡ ok (m, rest)
    → (left : List Message) × (r ≡ ok (m, left)) × (n ∷ left ≡ rest)
past-ok n m rest (ok (found, left)) e =
    let both : ◌≡◌ {A = Message × List Message} (found, n ∷ left) (m, rest) = cc in
    (left, ap (λ y. ok (y.0, left)) both, ap (λ y. y.1) both)
past-ok n m rest (err c) e = cc
past-ok n m rest fault e = cc

pub remove_from-IsTaken :
    (mid qos : ℕ) (ms rest : List Message) (m : Message)
    → AllQos ms
    → remove_from mid qos ms ≡ ok (m, rest)
    → IsTaken mid ms m rest
unfolding flying remove_from
remove_from-IsTaken mid qos [] rest m all e = cc
remove_from-IsTaken mid qos (n ∷ ms) rest m all e = elim (Bool-cases (n.mid == mid)) [
  | inl t ↦ elim (Bool-cases (n.qos == qos)) [
    | inl u ↦
        let same : ◌≡◌ {A = Result (Message × List Message)} (ok (n, ms)) (ok (m, rest)) =
          rw (t, u) at e in
        let both : ◌≡◌ {A = Message × List Message} (n, ms) (m, rest) = cc in
        subst (λ y. IsTaken mid (n ∷ ms) y.0 y.1) both ((==_iff n.mid mid).0 t, refl, refl, all.1)
    | inr u ↦
        let bad : ◌≡◌ {A = Result (Message × List Message)} (err protocol) (ok (m, rest)) =
          rw (t, u) at e in
        absurd cc
  ]
  | inr t ↦
      let (left, found, same) = past-ok n m rest (remove_from mid qos ms) (rw t at e) in
      let (id, sum, len, kept) = remove_from-IsTaken mid qos ms left m all.1 found in
      subst (IsTaken mid (n ∷ ms) m) same (id, omega (arith, sum), ap suc len, (all.0, kept))
]

pub flying-append :
    (ms : List Message) (m : Message) → flying (ms ++ m ∷ []) ≡ flying ms + weight m.state
unfolding flying
flying-append [] m = omega arith
flying-append (n ∷ ms) m = let more = flying-append ms m in omega (arith, more)

pub append-AllQos : (ms : List Message) (m : Message) → AllQos ms → IsQos m → AllQos (ms ++ m ∷ [])
append-AllQos [] m all q = (q, tt)
append-AllQos (n ∷ ms) m all q = (all.0, append-AllQos ms m all.1 q)
