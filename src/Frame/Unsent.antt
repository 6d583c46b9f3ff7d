-- ===== src/Frame/Unsent.antt =====
-- lib/packet_dimq.c: what packets that are sent come to, however the socket takes them.
use dimq.Prelude.{
  take-append-drop, append-nil, sym, ap, ◌∙◌, ◌==◌, ◌%◌, Bool-cases, List, [], ◌∷◌, ◌++◌, ℕ, ◌+◌,
  ◌≡◌, ◌≤◌, inl, inr, refl, arith, true, Option, none, some, drop, length, min, append_assoc,
}
use dimq.Result.{Status, success}
use dimq.Packet.Basic.{drop-drop}
use dimq.Frame.Write.{
  Sending, Queue, Answer, wrote, stuck, Sent, send, send_all, took, taken_from, after_bytes,
  after_sent, count_down, stop_or, Wrote,
}

-- The bytes of a packet that are still to be sent
abbrev pub left_of : Sending → List ℕ
left_of p = drop p.pos p.payload

abbrev pub lefts : List Sending → List ℕ
lefts [] = []
lefts (p ∷ ps) = left_of p ++ lefts ps

abbrev pub current_of : Option Sending → List ℕ
current_of none = []
current_of (some p) = left_of p

-- The bytes that are still to be sent, in their order
abbrev pub unsent : Queue → List ℕ
unsent q = current_of q.current_out_packet ++ lefts q.out_packet

-- `to_process` is what is left of the packet.
abbrev pub IsExact : Sending → Type 0
IsExact p = p.pos + p.to_process ≡ length p.payload

abbrev pub AreExact : List Sending → Type 0
AreExact [] = Unit {0}
AreExact (p ∷ ps) = IsExact p × AreExact ps

abbrev pub IsExactOption : Option Sending → Type 0
IsExactOption none = Unit {0}
IsExactOption (some p) = IsExact p

-- Every packet is as long as it says, and the queue is counted.
abbrev pub IsExactQueue : Queue → Type 0
IsExactQueue q =
    IsExactOption q.current_out_packet
    × AreExact q.out_packet
    × (q.out_packet_count ≡ length q.out_packet % 4294967296)

pub left_of-done : (pos : ℕ) (xs : List ℕ) → pos ≡ length xs → drop pos xs ≡ []
left_of-done pos xs e = rw e (all xs)
  where
    all : (ys : List ℕ) → drop (length ys) ys ≡ []
    all [] = refl
    all (y ∷ ys) = all ys

-- What one packet comes to
abbrev pub IsSent : Sending → Sent → Type 0
IsSent p r =
    (r.bytes ++ left_of r.packet ≡ left_of p)
    × IsExact r.packet
    × ((r.stop ≡ none) → left_of r.packet ≡ [])

pub finished : (p : Sending) → IsExact p → (p.to_process == 0) ≡ true → left_of p ≡ []
finished p e t =
    let all : p.pos ≡ length p.payload = ground (arith, e, t) in left_of-done p.pos p.payload all

pub took-IsExact : (k : ℕ) (p : Sending) → k ≤ p.to_process → IsExact p → IsExact (took k p)
took-IsExact k p le e = omega (arith, le, e)

pub took-IsSent :
    (k : ℕ) (p : Sending) (r : Sent)
    → IsSent (took k p) r
    → IsSent p (after_bytes (taken_from k p) r)
took-IsSent k p r (all, exact, done) = (
  append_assoc (taken_from k p) r.bytes (left_of r.packet)
      ∙ ap (λ (x : List ℕ). taken_from k p ++ x) (all ∙ sym (drop-drop k p.pos p.payload))
      ∙ take-append-drop k (drop p.pos p.payload),
  exact,
  done,
)

pub send-IsSent : (answers : List Answer) (p : Sending) → IsExact p → IsSent p (send answers p)
unfolding send
send-IsSent [] p e = elim (Bool-cases (p.to_process == 0)) [
  | inl t ↦ rw t (refl, e, λ s. finished p e t)
  | inr t ↦ rw t (refl, e, λ s. cc)
]
send-IsSent (wrote n ∷ answers) p e =
    let k = min n p.to_process in
    let le : k ≤ p.to_process = omega arith in
    let ih = send-IsSent answers (took k p) (took-IsExact k p le e) in
    elim (Bool-cases (p.to_process == 0)) [
      | inl t ↦ rw t (refl, e, λ s. finished p e t)
      | inr t ↦ rw t (elim (Bool-cases (n == 0)) [
        | inl u ↦ rw u (refl, e, λ s. cc)
        | inr u ↦ rw u (took-IsSent k p (send answers (took k p)) ih)
      ])
    ]
send-IsSent (stuck h ∷ answers) p e = elim (Bool-cases (p.to_process == 0)) [
  | inl t ↦ rw t (refl, e, λ s. finished p e t)
  | inr t ↦ rw t (refl, e, λ s. cc)
]

-- What a call comes to
abbrev pub IsWrote : List ℕ → Wrote → Type 0
IsWrote bs r = (r.bytes ++ unsent r.queue ≡ bs) × IsExactQueue r.queue

-- One packet, and the others where it was finished
pub stop_or-IsWrote :
    (stop : Option Status) (bs bs' : List ℕ) (p : Sending) (ps : List Sending) (count : ℕ)
    (more : Wrote)
    → bs ++ left_of p ≡ bs'
    → IsExact p
    → (stop ≡ none → left_of p ≡ [])
    → AreExact ps
    → count ≡ length ps % 4294967296
    → IsWrote (lefts ps) more
    → IsWrote (bs' ++ lefts ps) (
        after_sent bs (
          stop_or stop
            (record {
              code = success;
              queue = record {
                current_out_packet = some p;
                out_packet = ps;
                out_packet_count = count;
              };
              bytes = [];
            })
            more))
stop_or-IsWrote none bs bs' p ps count more all exact done exacts counted (rest, ok_queue) =
    let same : bs ≡ bs' =
      sym (append-nil bs) ∙ ap (λ (x : List ℕ). bs ++ x) (sym (done refl)) ∙ all in
    (
      append_assoc bs more.bytes (unsent more.queue)
          ∙ ap (λ (x : List ℕ). bs ++ x) rest
          ∙ ap (λ (x : List ℕ). x ++ lefts ps) same,
      ok_queue,
    )
stop_or-IsWrote (some code) bs bs' p ps count more all exact done exacts counted more_ok = (
  rw (append-nil bs)
      (sym (append_assoc bs (left_of p) (lefts ps)) ∙ ap (λ (x : List ℕ). x ++ lefts ps) all),
  (exact, exacts, counted),
)

pub count_down-counted :
    (ps : List Sending) (count : ℕ)
    → count ≡ length ps % 4294967296
    → AreExact ps
    → (p : Sending) (qs : List Sending) → ps ≡ p ∷ qs
    → count_down ps count ≡ length qs % 4294967296
count_down-counted [] count c e p qs same = cc
count_down-counted (p' ∷ ps) count c e p qs same =
    let len : length (p' ∷ ps) ≡ length (p ∷ qs) = ap length same in omega (arith, c, len)

pub send_all-IsWrote :
    (ps : List Sending) (count : ℕ) (answers : List Answer)
    → AreExact ps
    → ((p : Sending) → (qs : List Sending) → ps ≡ p ∷ qs → count ≡ length qs % 4294967296)
    → (ps ≡ [] → count ≡ 0)
    → IsWrote (lefts ps) (send_all ps count answers)
unfolding send_all
send_all-IsWrote [] count answers exacts c z = (refl, (tt, tt, z refl))
send_all-IsWrote (p ∷ ps) count answers (exact, exacts) c z =
    let (all, exact', done) = send-IsSent answers p exact in
    let r = send answers p in
    let counted = c p ps refl in
    let ih =
      send_all-IsWrote ps (count_down ps count) r.rest exacts
        (count_down-counted ps count counted exacts) (none_left ps count counted) in
    stop_or-IsWrote r.stop r.bytes (left_of p) r.packet ps count
      (send_all ps (count_down ps count) r.rest) all exact' done exacts counted ih
  where
    none_left :
        (qs : List Sending) (n : ℕ) → n ≡ length qs % 4294967296 → qs ≡ [] → count_down qs n ≡ 0
    none_left [] n e s = e ∙ omega arith
    none_left (q ∷ qs) n e s = cc
