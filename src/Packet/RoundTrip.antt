-- ===== src/Packet/RoundTrip.antt =====
-- What a writer wrote, a reader reads back.
use dimq.Packet.Laws.{
  parse_string-format, parse_varint-format, parse_uint32-format, parse_uint16-format, after_copy,
  drop-append,
}
use dimq.Packet.Read.{
  read_string-Refines, read_varint-Refines, read_uint32-Refines, read_uint16-Refines,
}
use dimq.Packet.Write.{
  write_string-Writes, write_varint-Writes, write_uint32-Writes, write_uint16-Writes, Writes,
  HasRoom, Wrote,
}
use dimq.Prelude.{
  append-nil, ◌∙◌, subst, ap, true, sym, length-take, ◌++◌, arith, ℕ, ◌+◌, ◌≤◌, ◌<◌, ◌^◌, ◌≡◌, List,
  [], take, drop, length,
}
use dimq.Packet.Format.{
  parse_string, parse_varint, format_uint32, parse_uint32, parse_uint16, format_uint16,
  format_varint, format_binary,
}
use dimq.Packet.{
  read_string, write_string, read_varint, write_varint, read_uint32, read_uint16, write_uint32,
  write_uint16, varint_bytes, Heap, Packet, M,
}
use dimq.Packet.Basic.{drop-take}
use dimq.Packet.Parse.{Refines, Agrees, unread, Parse, IsReadable}
use dimq.Utf8.Sound.{Encodes}
use dimq.Result.{Result, ok, err, fault, Status, success}

-- The bytes that a writer put between `p` and `q`, as a packet that is read.
abbrev pub reopened : Packet → Packet → Packet
reopened p q = record q { pos = p.pos; remaining_length = q.pos }

length-filled : (p : Packet) → p.pos ≤ length p.payload → length (take p.pos p.payload) ≡ p.pos
length-filled p h = omega (arith, length-take {0} p.pos p.payload)

drop-append_at : (xs ys : List ℕ) (n : ℕ) → n ≡ length xs → drop n (xs ++ ys) ≡ ys
drop-append_at xs ys n e = rw e (drop-append xs ys)

unread-reopened :
    (p q : Packet) (bs : List ℕ) (code : Status)
    → HasRoom p (length bs)
    → Wrote p bs code q
    → unread (reopened p q) ≡ bs
unfolding unread
unread-reopened p q bs code r w =
    sym (drop-take p.pos q.pos q.payload (omega (arith, w.moved)))
    ∙ ap (drop p.pos) w.filled
    ∙ drop-append_at (take p.pos p.payload) bs p.pos
        (sym (length-filled p (omega (arith, r.fits, r.backed))))

reopened-IsReadable :
    (p q : Packet) (bs : List ℕ) (code : Status)
    → HasRoom p (length bs)
    → p.packet_length < 2 ^ 31
    → Wrote p bs code q
    → IsReadable (reopened p q)
reopened-IsReadable p q bs code r l w = record {
  within = omega (arith, w.moved);
  backed = omega (arith, w.moved, r.fits, r.backed, w.same_size);
  sized = omega (arith, w.moved, r.fits);
}

Agrees-ok :
    {A : Type 0} (p : Packet) (x : Result A × Packet) (a : A) (r : List ℕ) (h : Heap)
    → Agrees p x (ok (a, r, h))
    → x.0 ≡ ok a
Agrees-ok p (ok b, q) a r h g = ap ok g.0
Agrees-ok p (err e, q) a r h g = absurd g
Agrees-ok p (fault, q) a r h g = absurd g

-- A reader against the writer of the same field. What the reader refines may depend on the packet.
pub read-write_at :
    {A : Type 0} (m : M (Unit {0})) (rd : M A) (s : Parse A) (bs : List ℕ) (a : A) (g : Heap)
    (p : Packet)
    → Writes m bs
    → (let q = reopened p (m p).1 in IsReadable q → Agrees q (rd q) (s (unread q) q.heap))
    → HasRoom p (length bs)
    → p.packet_length < 2 ^ 31
    → s bs p.heap ≡ ok (a, [], g)
    → ((m p).0 ≡ success) × ((rd (reopened p (m p).1)).0 ≡ ok a)
read-write_at m rd s bs a g p w r room l e =
    let q = (m p).1 in
    let wrote = w p room in
    let agrees = r (reopened-IsReadable p q bs _ room l wrote) in
    (
      wrote.done,
      Agrees-ok (reopened p q) _ a [] g (
          subst (λ y. Agrees (reopened p q) (rd (reopened p q)) y)
            (subst (λ u. s u q.heap ≡ ok (a, [], g)) (sym (unread-reopened p q bs _ room wrote))
              (subst (λ h. s bs h ≡ ok (a, [], g)) (sym wrote.same_heap) e))
            agrees),
    )

pub read-write :
    {A : Type 0} (m : M (Unit {0})) (rd : M A) (s : Parse A) (bs : List ℕ) (a : A) (g : Heap)
    (p : Packet)
    → Writes m bs
    → Refines rd s
    → HasRoom p (length bs)
    → p.packet_length < 2 ^ 31
    → s bs p.heap ≡ ok (a, [], g)
    → ((m p).0 ≡ success) × ((rd (reopened p (m p).1)).0 ≡ ok a)
read-write m rd s bs a g p w r = read-write_at m rd s bs a g p w (r (reopened p (m p).1))

-- A uint16_t that is written where two bytes are free is read back.
pub read_uint16-write_uint16 :
    (w : ℕ) (p : Packet)
    → w < 2 ^ 16
    → HasRoom p 2
    → p.packet_length < 2 ^ 31
    → ((write_uint16 w p).0 ≡ success) × ((read_uint16 (reopened p (write_uint16 w p).1)).0 ≡ ok w)
read_uint16-write_uint16 w p h room l =
    read-write (write_uint16 w) read_uint16 parse_uint16 (format_uint16 w) w p.heap p
      (write_uint16-Writes w) read_uint16-Refines (unfold format_uint16 in room) l
      (rw append-nil at (parse_uint16-format w [] p.heap h))

-- A uint32_t that is written where four bytes are free is read back.
pub read_uint32-write_uint32 :
    (w : ℕ) (p : Packet)
    → w < 2 ^ 32
    → HasRoom p 4
    → p.packet_length < 2 ^ 31
    → ((write_uint32 w p).0 ≡ success) × ((read_uint32 (reopened p (write_uint32 w p).1)).0 ≡ ok w)
read_uint32-write_uint32 w p h room l =
    read-write (write_uint32 w) read_uint32 parse_uint32 (format_uint32 w) w p.heap p
      (write_uint32-Writes w) read_uint32-Refines (unfold format_uint32 in room) l
      (rw append-nil at (parse_uint32-format w [] p.heap h))

pub length-format_varint : (w : ℕ) → w < 2 ^ 28 → length (format_varint w) ≡ varint_bytes w
unfolding format_varint varint_bytes
length-format_varint w h = ground arith

-- A variable byte integer below 2^28 that is written where `packet__varint_bytes` bytes are free is
-- read back, and that is the number of bytes that the reader reports.
pub read_varint-write_varint :
    (w : ℕ) (p : Packet)
    → w < 2 ^ 28
    → HasRoom p (varint_bytes w)
    → p.packet_length < 2 ^ 31
    → ((write_varint w p).0 ≡ success)
      × ((read_varint (reopened p (write_varint w p).1)).0 ≡ ok (w, varint_bytes w))
read_varint-write_varint w p h room l =
    let len = length-format_varint w h in
    read-write (write_varint w) read_varint parse_varint (format_varint w) (w, varint_bytes w)
      p.heap p (write_varint-Writes w h) read_varint-Refines (subst (HasRoom p) (sym len) room) l
      (rw (append-nil, len) at (parse_varint-format w [] p.heap h))

pub length-format_binary : (s : List ℕ) → length (format_binary s) ≡ length s + 2
unfolding format_binary format_uint16
length-format_binary s = omega arith

-- A string of allowed characters that is written where its bytes and two more are free is read back,
-- if the allocator gives the reader its copy.
pub read_string-write_string :
    (s : List ℕ) (p : Packet)
    → length s < 2 ^ 16
    → Encodes s
    → HasRoom p (length s + 2)
    → p.packet_length < 2 ^ 31
    → p.heap 0 ≡ true
    → ((write_string s p).0 ≡ success) × ((read_string (reopened p (write_string s p).1)).0 ≡ ok s)
read_string-write_string s p h e room l k =
    read-write (write_string s) read_string parse_string (format_binary s) s (after_copy s p.heap) p
      (write_string-Writes s h) read_string-Refines
      (subst (HasRoom p) (sym (length-format_binary s)) room) l
      (rw append-nil at (parse_string-format s [] p.heap h e k))
