-- ===== src/Frame/Sends.antt =====
-- lib/packet_dimq.c: a socket that goes on taking bytes takes all packets.
use dimq.Frame.Queued.{queue-IsWrote, pick-IsExactQueue, enqueue-IsExactQueue}
use dimq.Prelude.{
  ◌∙◌, append-nil, sym, inr, inl, length-drop, Bool-cases, ◌==◌, length-append, ap, List, [], ◌∷◌,
  ◌++◌, ℕ, ◌+◌, ◌-◌, ◌≡◌, ◌≤◌, ◌<◌, refl, arith, true, false, Option, none, some, length, min,
}
use dimq.Result.{success}
use dimq.Frame.Write.{
  Sending, Queue, Answer, wrote, stuck, send, send_all, took, count_down, write, queue, enqueue,
  loop, pick, Wrote,
}
use dimq.Frame.Unsent.{
  left_of, lefts, current_of, unsent, AreExact, IsExactOption, IsExactQueue, IsWrote,
}

-- The socket takes at least a byte at each write, and is asked at least so many times.
abbrev pub AreTaken : List Answer → Type 0
AreTaken [] = Unit {0}
AreTaken (wrote n ∷ answers) = (0 < n) × AreTaken answers
AreTaken (stuck h ∷ answers) = ⊥

-- A packet for which there are answers enough
send-completes :
    (answers : List Answer) (p : Sending)
    → AreTaken answers
    → p.to_process ≤ length answers
    → ((send answers p).stop ≡ none)
      × AreTaken (send answers p).rest
      × (length answers ≤ length (send answers p).rest + p.to_process)
unfolding send
send-completes [] p taken enough =
    let t : (p.to_process == 0) ≡ true = ground (arith, enough) in rw t (refl, tt, omega arith)
send-completes (wrote n ∷ answers) p (some_taken, taken) enough =
    elim (Bool-cases (p.to_process == 0)) [
      | inl t ↦ rw t (refl, (some_taken, taken), omega arith)
      | inr t ↦
          let k = min n p.to_process in
          let u : (n == 0) ≡ false = ground (arith, some_taken) in
          let todo : 0 < p.to_process = ground (arith, t) in
          let less : p.to_process - k < p.to_process = omega (arith, some_taken, todo) in
          let (done, taken', left) =
            send-completes answers (took k p) taken (omega (arith, enough, less)) in
          rw (t, u) (done, taken', omega (arith, left, less))
    ]
send-completes (stuck h ∷ answers) p taken enough = absurd taken

total : List Sending → ℕ
total [] = 0
total (p ∷ ps) = p.to_process + total ps

send_all-completes :
    (ps : List Sending) (count : ℕ) (answers : List Answer)
    → AreTaken answers
    → total ps ≤ length answers
    → ((send_all ps count answers).code ≡ success)
      × ((send_all ps count answers).queue.current_out_packet ≡ none)
      × ((send_all ps count answers).queue.out_packet ≡ [])
unfolding send_all total
send_all-completes [] count answers taken enough = (refl, refl, refl)
send_all-completes (p ∷ ps) count answers taken enough =
    let (done, taken', left) = send-completes answers p taken (omega (arith, enough)) in
    rw done (
      send_all-completes ps (count_down ps count) (send answers p).rest taken'
        (omega (arith, left, enough)))

total-lefts : (ps : List Sending) → AreExact ps → total ps ≡ length (lefts ps)
unfolding total
total-lefts [] e = refl
total-lefts (p ∷ ps) (e, es) =
    omega (
      arith,
      total-lefts ps es,
      length-append (left_of p) (lefts ps),
      length-drop p.pos p.payload,
      e,
    )

loop-completes :
    (current : Option Sending) (ps : List Sending) (count : ℕ) (answers : List Answer)
    → AreTaken answers
    → IsExactOption current
    → AreExact ps
    → length (current_of current ++ lefts ps) ≤ length answers
    → (current ≡ none → ps ≡ [])
    → ((loop current ps count answers).code ≡ success)
      × ((loop current ps count answers).queue.current_out_packet ≡ none)
      × ((loop current ps count answers).queue.out_packet ≡ [])
loop-completes none ps count answers taken e es enough idle = (refl, refl, idle refl)
loop-completes (some p) ps count answers taken e es enough idle =
    let all = total-lefts (p ∷ ps) (e, es) in
    send_all-completes (p ∷ ps) count answers taken (omega (arith, all, enough))

pick-idle :
    (current : Option Sending) (ps : List Sending) (count : ℕ)
    → (pick current ps count).current_out_packet ≡ none
    → (pick current ps count).out_packet ≡ []
pick-idle none [] count e = refl
pick-idle none (p ∷ ps) count e = cc
pick-idle (some p) ps count e = cc

write-completes :
    (answers : List Answer) (q : Queue)
    → AreTaken answers
    → IsExactQueue q
    → length (unsent q) ≤ length answers
    → ((write true false answers q).code ≡ success)
      × ((write true false answers q).queue.current_out_packet ≡ none)
      × ((write true false answers q).queue.out_packet ≡ [])
unfolding write
write-completes answers q taken (e, exacts, c) enough =
    let picked = pick q.current_out_packet q.out_packet q.out_packet_count in
    let ((e', exacts', c'), same) =
      pick-IsExactQueue q.current_out_packet q.out_packet q.out_packet_count e exacts c in
    loop-completes picked.current_out_packet picked.out_packet picked.out_packet_count answers taken
      e' exacts' (omega (arith, ap length same, enough))
      (pick-idle q.current_out_packet q.out_packet q.out_packet_count)

-- Nothing is left.
emptied :
    (bs : List ℕ) (r : Wrote)
    → IsWrote bs r
    → r.queue.current_out_packet ≡ none
    → r.queue.out_packet ≡ []
    → (r.bytes ≡ bs)
      × (r.queue ≡ record { current_out_packet = none; out_packet = []; out_packet_count = 0 })
emptied bs r (all, (e, es, c)) current out =
    let nothing : unsent r.queue ≡ [] = rw (current, out) refl in
    let none_counted : r.queue.out_packet_count ≡ 0 = omega (arith, c, ap length out) in
    (
      sym (append-nil r.bytes) ∙ ap (λ (x : List ℕ). r.bytes ++ x) (sym nothing) ∙ all,
      λ i. record {
        current_out_packet = current i;
        out_packet = out i;
        out_packet_count = none_counted i;
      },
    )

-- Where every packet is as long as it says and the queue is counted, on a connection that is open, when
-- the socket takes at least a byte at each write and is asked at least as often as there are bytes:
-- `packet__queue` of a packet succeeds, and the socket has taken what was still to be sent before, and
-- then the packet, and nothing is left in the queue.
pub queue_completes :
    (answers : List Answer) (payload : List ℕ) (q : Queue)
    → IsExactQueue q
    → AreTaken answers
    → length (unsent q ++ payload) ≤ length answers
    → ((queue true false answers payload (length payload) q).code ≡ success)
      × ((queue true false answers payload (length payload) q).bytes ≡ unsent q ++ payload)
      × ((queue true false answers payload (length payload) q).queue
          ≡ record { current_out_packet = none; out_packet = []; out_packet_count = 0 })
unfolding queue
queue_completes answers payload q exact taken enough =
    let q' = enqueue payload (length payload) q in
    let (exact', same) = enqueue-IsExactQueue payload q exact in
    let (code, current, out) =
      write-completes answers q' taken exact' (omega (arith, ap length same, enough)) in
    let (bytes, left) =
      emptied (unsent q ++ payload) (write true false answers q')
        (queue-IsWrote true false answers payload q exact) current out in
    (code, bytes, left)
