-- ===== src/Frame/Queued.antt =====
-- lib/packet_dimq.c: `packet__write` and `packet__queue` lose no byte, however the socket takes them.
use dimq.Frame.Unsent.{
  send_all-IsWrote, current_of, unsent, left_of, IsWrote, lefts, IsExactQueue, IsExactOption,
  AreExact,
}
use dimq.Prelude.{
  subst, length-append, append-nil, sym, ap, ◌∙◌, ◌%◌, List, [], ◌∷◌, ◌++◌, ℕ, ◌≡◌, refl, arith,
  Bool, true, false, Option, none, some, length, append_assoc,
}
use dimq.Frame.Write.{Sending, Queue, Answer, write, queue, enqueue, loop, pick}

loop-IsWrote :
    (current : Option Sending) (ps : List Sending) (count : ℕ) (answers : List Answer)
    → IsExactOption current
    → AreExact ps
    → count ≡ length ps % 4294967296
    → IsWrote (current_of current ++ lefts ps) (loop current ps count answers)
loop-IsWrote none ps count answers e exacts c = (refl, (tt, exacts, c))
loop-IsWrote (some p) ps count answers e exacts c =
    send_all-IsWrote (p ∷ ps) count answers (e, exacts)
      (λ p' qs same.
        let len : length (p ∷ ps) ≡ length (p' ∷ qs) = ap length same in omega (arith, c, len))
      (λ same. cc)

pub pick-IsExactQueue :
    (current : Option Sending) (ps : List Sending) (count : ℕ)
    → IsExactOption current
    → AreExact ps
    → count ≡ length ps % 4294967296
    → IsExactQueue (pick current ps count)
      × (unsent (pick current ps count) ≡ current_of current ++ lefts ps)
pick-IsExactQueue none [] count e exacts c = ((tt, tt, c), refl)
pick-IsExactQueue none (p ∷ ps) count e (exact, exacts) c =
    ((exact, exacts, omega (arith, c)), refl)
pick-IsExactQueue (some p) ps count e exacts c = ((e, exacts, c), refl)

-- Where every packet is as long as it says and the queue is counted, `packet__write`, whatever the
-- socket answers: the bytes that the socket took, and then those that are still to be sent, are those
-- that were to be sent, in their order, and every packet is as long as it says and the queue is counted
-- again.
pub write-IsWrote :
    (has_sock is_pending : Bool) (answers : List Answer) (q : Queue)
    → IsExactQueue q
    → IsWrote (unsent q) (write has_sock is_pending answers q)
unfolding write
write-IsWrote false is_pending answers q exact = (refl, exact)
write-IsWrote true true answers q (e, exacts, c) =
    let (exact, same) =
      pick-IsExactQueue q.current_out_packet q.out_packet q.out_packet_count e exacts c in
    (same, exact)
write-IsWrote true false answers q (e, exacts, c) =
    let picked = pick q.current_out_packet q.out_packet q.out_packet_count in
    let ((e', exacts', c'), same) =
      pick-IsExactQueue q.current_out_packet q.out_packet q.out_packet_count e exacts c in
    subst
      (λ bs.
        IsWrote bs
          (loop picked.current_out_packet picked.out_packet picked.out_packet_count answers))
      same
      (loop-IsWrote picked.current_out_packet picked.out_packet picked.out_packet_count answers e'
        exacts' c')

lefts-append : (ps qs : List Sending) → lefts (ps ++ qs) ≡ lefts ps ++ lefts qs
lefts-append [] qs = refl
lefts-append (p ∷ ps) qs =
    ap (λ (x : List ℕ). left_of p ++ x) (lefts-append ps qs)
    ∙ sym (append_assoc (left_of p) (lefts ps) (lefts qs))

append-AreExact : (ps qs : List Sending) → AreExact ps → AreExact qs → AreExact (ps ++ qs)
append-AreExact [] qs e e' = e'
append-AreExact (p ∷ ps) qs (e, es) e' = (e, append-AreExact ps qs es e')

-- What `packet__queue` adds
pub enqueue-IsExactQueue :
    (payload : List ℕ) (q : Queue)
    → IsExactQueue q
    → IsExactQueue (enqueue payload (length payload) q)
      × (unsent (enqueue payload (length payload) q) ≡ unsent q ++ payload)
enqueue-IsExactQueue payload q (e, exacts, c) =
    let added : Sending = record { payload = payload; pos = 0; to_process = length payload } in
    let len = length-append q.out_packet (added ∷ []) in
    (
      (
        e,
        append-AreExact q.out_packet (added ∷ []) exacts (omega arith, tt),
        omega (arith, c, len),
      ),
      ap (λ (x : List ℕ). current_of q.current_out_packet ++ x)
            (lefts-append q.out_packet (added ∷ []))
          ∙ sym
              (append_assoc (current_of q.current_out_packet) (lefts q.out_packet) (payload ++ []))
          ∙ ap (λ (x : List ℕ). unsent q ++ x) (append-nil payload),
    )

-- Where every packet is as long as it says and the queue is counted, `packet__queue` of a packet of
-- `packet_length` bytes, whatever the socket answers: the bytes that the socket took, and then those
-- that are still to be sent, are those that were to be sent, and then the packet, and every packet is as
-- long as it says and the queue is counted again.
pub queue-IsWrote :
    (has_sock is_pending : Bool) (answers : List Answer) (payload : List ℕ) (q : Queue)
    → IsExactQueue q
    → IsWrote (unsent q ++ payload) (queue has_sock is_pending answers payload (length payload) q)
unfolding queue
queue-IsWrote has_sock is_pending answers payload q exact =
    let (exact', same) = enqueue-IsExactQueue payload q exact in
    subst (λ bs. IsWrote bs (queue has_sock is_pending answers payload (length payload) q)) same
      (write-IsWrote has_sock is_pending answers (enqueue payload (length payload) q) exact')
