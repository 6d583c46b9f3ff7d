-- ===== src/Packet/Write.antt =====
-- Every writer appends the format of its field to what is written already, where it has room.
use dimq.Prelude.{
  ◌==◌, if◌then◌else◌, false, inr, inl, ltb, Bool-cases, sym, subst, true, append_assoc, length-set,
  length-append, leb, append-nil, ap, ◌∙◌, arith, ◌++◌, set, ℕ, suc, zero, ◌+◌, ◌/◌, ◌%◌, ◌≤◌, ◌<◌,
  ◌^◌, ◌≡◌, List, [], ◌∷◌, take, drop, length, refl,
}
use native.Mathlib.Nat.{pow-suc}
use dimq.Packet.Format.{format_varint, format_uint32, format_uint16, format_binary}
use dimq.Packet.{
  write_varint, write_varint_loop, write_uint32, write_uint16, write_string, write_bytes,
  write_byte, return, ◌>>◌, copy_in, set_all, assert_room, Packet, M, bind,
}
use dimq.Word.{shr, lsb, u8, u16, msb, u32}
use dimq.Packet.Basic.{drop-drop}
use dimq.Result.{ok, err, fault, Status, success}

-- `n` more bytes fit the packet, whose payload was allocated with `packet_length` bytes.
pub record HasRoom (p : Packet) (n : ℕ) : Type 0 where
  pub fits : p.pos + n ≤ p.packet_length
  pub backed : p.packet_length ≤ length p.payload
  pub sized : p.packet_length < 2 ^ 32

pub record Wrote (p : Packet) (bs : List ℕ) (code : Status) (q : Packet) : Type 0 where
  pub done : code ≡ success
  pub filled : take q.pos q.payload ≡ take p.pos p.payload ++ bs
  pub moved : q.pos ≡ p.pos + length bs
  pub same_size : length q.payload ≡ length p.payload
  pub behind : drop q.pos q.payload ≡ drop q.pos p.payload
  pub same_packet_length : q.packet_length ≡ p.packet_length
  pub same_remaining : q.remaining_length ≡ p.remaining_length
  pub same_heap : q.heap ≡ p.heap

abbrev pub Writes : M (Unit {0}) → List ℕ → Type 0
Writes m bs = (p : Packet) → HasRoom p (length bs) → Wrote p bs (m p).0 (m p).1

take-set : (xs : List ℕ) (i b : ℕ) → i < length xs → take (suc i) (set xs i b) ≡ take i xs ++ b ∷ []
take-set [] i b h = absurd (omega arith)
take-set (x ∷ xs) zero b h = refl
take-set (x ∷ xs) (suc i) b h = ap (λ r. x ∷ r) (take-set xs i b (omega arith))

drop-set : (xs : List ℕ) (i j b : ℕ) → i < j → drop j (set xs i b) ≡ drop j xs
drop-set [] i j b h = refl
drop-set (x ∷ xs) i zero b h = absurd (omega arith)
drop-set (x ∷ xs) zero (suc j) b h = refl
drop-set (x ∷ xs) (suc i) (suc j) b h = drop-set xs i j b (omega arith)

length-set_all : (xs : List ℕ) (i : ℕ) (bs : List ℕ) → length (set_all xs i bs) ≡ length xs
length-set_all xs i [] = refl
length-set_all xs i (b ∷ bs) = length-set_all (set xs i b) (i + 1) bs ∙ length-set xs i b

take-set_all :
    (xs : List ℕ) (i : ℕ) (bs : List ℕ)
    → i + length bs ≤ length xs
    → take (i + length bs) (set_all xs i bs) ≡ take i xs ++ bs
take-set_all xs i [] h = let e : i + 0 ≡ i = omega arith in rw (e, append-nil)
take-set_all xs i (b ∷ bs) h =
    let e : i + length (b ∷ bs) ≡ suc i + length bs = omega arith in
    let s : i + 1 ≡ suc i = omega arith in
    rw (e, s)
      (take-set_all (set xs i b) (suc i) bs (omega (arith, length-set xs i b))
        ∙ rw (take-set xs i b (omega arith), append_assoc) refl)

drop-set_all :
    (xs : List ℕ) (i j : ℕ) (bs : List ℕ) → i + length bs ≤ j → drop j (set_all xs i bs) ≡ drop j xs
drop-set_all xs i j [] h = refl
drop-set_all xs i j (b ∷ bs) h =
    drop-set_all (set xs i b) (i + 1) j bs (omega arith) ∙ drop-set xs i j b (omega arith)

Writes-bytes : (bs : List ℕ) (n : ℕ) → n ≡ length bs → Writes (assert_room n >> copy_in bs) bs
unfolding assert_room copy_in
Writes-bytes bs n e p r =
    let room : leb (u32 (p.pos + n)) p.packet_length ≡ true = ground arith in
    let inside : leb (p.pos + length bs) (length p.payload) ≡ true = ground arith in
    rw (room, inside)
      (record {
        done = refl;
        filled = take-set_all p.payload p.pos bs (omega arith);
        moved = refl;
        same_size = length-set_all p.payload p.pos bs;
        behind = drop-set_all p.payload p.pos _ bs (omega arith);
        same_packet_length = refl;
        same_remaining = refl;
        same_heap = refl;
      })

Wrote-bind :
    (p : Packet) (bs cs : List ℕ) (x : Status × Packet) (k : M (Unit {0}))
    → HasRoom p (length (bs ++ cs))
    → Wrote p bs x.0 x.1
    → Writes k cs
    → Wrote p (bs ++ cs) (bind x (λ _. k)).0 (bind x (λ _. k)).1
Wrote-bind p bs cs (err e, q) k r w h = absurd (ground (arith, w.done))
Wrote-bind p bs cs (fault, q) k r w h = absurd (ground (arith, w.done))
Wrote-bind p bs cs (ok tt, q) k r w h =
    let len = length-append bs cs in
    let v = h q (record {
      fits = omega (arith, len, w.moved, w.same_packet_length);
      backed = omega (arith, w.same_size, w.same_packet_length);
      sized = omega (arith, w.same_packet_length);
    }) in
    let later : (j : ℕ) → j ≡ q.pos + length cs → drop j q.payload ≡ drop j p.payload = λ j e.
      rw e (
        sym (drop-drop (length cs) q.pos q.payload)
        ∙ ap (drop (length cs)) w.behind
        ∙ drop-drop (length cs) q.pos p.payload) in
    record {
      done = v.done;
      filled = v.filled ∙ rw (w.filled, append_assoc) refl;
      moved = omega (arith, v.moved, w.moved, len);
      same_size = v.same_size ∙ w.same_size;
      behind = v.behind ∙ later _ v.moved;
      same_packet_length = v.same_packet_length ∙ w.same_packet_length;
      same_remaining = v.same_remaining ∙ w.same_remaining;
      same_heap = v.same_heap ∙ w.same_heap;
    }

-- Writers compose.
pub Writes-bind :
    (m k : M (Unit {0})) (bs cs : List ℕ) → Writes m bs → Writes k cs → Writes (m >> k) (bs ++ cs)
Writes-bind m k bs cs h g p r =
    Wrote-bind p bs cs (m p) k r
      (h p (record {
        fits = omega (arith, length-append bs cs, r.fits);
        backed = r.backed;
        sized = r.sized;
      }))
      g

pub return-Writes : Writes (return tt) []
return-Writes p r = record {
  done = refl;
  filled = sym (append-nil (take p.pos p.payload));
  moved = omega arith;
  same_size = refl;
  behind = refl;
  same_packet_length = refl;
  same_remaining = refl;
  same_heap = refl;
}

Writes-eq : (m : M (Unit {0})) (bs cs : List ℕ) → bs ≡ cs → Writes m bs → Writes m cs
Writes-eq m bs cs e h = subst (Writes m) e h

pub write_byte-Writes : (b : ℕ) → Writes (write_byte b) (b ∷ [])
unfolding write_byte
write_byte-Writes b = Writes-bytes (b ∷ []) 1 refl

pub write_bytes-Writes : (bs : List ℕ) → Writes (write_bytes bs) bs
unfolding write_bytes
write_bytes-Writes bs = Writes-bytes bs (length bs) refl

pub write_uint16-Writes : (w : ℕ) → Writes (write_uint16 w) (format_uint16 w)
unfolding write_uint16
write_uint16-Writes w =
    Writes-eq _ (msb w ∷ lsb w ∷ []) (format_uint16 w) (unfold format_uint16 in ground arith)
      (Writes-bind _ _ (msb w ∷ []) (lsb w ∷ []) (write_byte-Writes _) (write_byte-Writes _))

pub write_uint32-Writes : (w : ℕ) → Writes (write_uint32 w) (format_uint32 w)
unfolding write_uint32
write_uint32-Writes w =
    Writes-eq _ (u8 (shr w 24) ∷ u8 (shr w 16) ∷ u8 (shr w 8) ∷ u8 w ∷ []) (format_uint32 w)
      (unfold format_uint32 in ground arith)
      (Writes-bind _ _ _ _ (write_byte-Writes (u8 (shr w 24))) (
        Writes-bind _ _ _ _ (write_byte-Writes (u8 (shr w 16)))
          (Writes-bind _ _ _ _ (write_byte-Writes (u8 (shr w 8))) (write_byte-Writes (u8 w)))))

pub write_string-Writes :
    (s : List ℕ) → length s < 2 ^ 16 → Writes (write_string s) (format_binary s)
unfolding write_string format_binary
write_string-Writes s h =
    let e : u16 (length s) ≡ length s = omega arith in
    rw e (Writes-bind _ _ _ _ (write_uint16-Writes (length s)) (write_bytes-Writes s))

-- What the loop writes when `k` rounds are left.
digits : ℕ → ℕ → List ℕ
digits zero w = []
digits (suc k) w =
    let rest = digits k (w / 128) in
    if ltb 0 (w / 128) then (w % 128 + 128) ∷ rest else (w % 128) ∷ []

digits_more :
    (k w : ℕ) → ltb 0 (w / 128) ≡ true → digits (suc k) w ≡ (w % 128 + 128) ∷ digits k (w / 128)
unfolding digits
digits_more k w t = rw t refl

digits_last : (k w : ℕ) → ltb 0 (w / 128) ≡ false → digits (suc k) w ≡ (w % 128) ∷ []
unfolding digits
digits_last k w t = rw t refl

loop_more :
    (k w : ℕ)
    → ltb 0 (w / 128) ≡ true
    → write_varint_loop (suc k) w ≡ (write_byte (w % 128 + 128) >> write_varint_loop k (w / 128))
unfolding write_varint_loop
loop_more k w t = rw t refl

loop_last :
    (k w : ℕ)
    → ltb 0 (w / 128) ≡ false
    → write_varint_loop (suc (suc k)) w ≡ (write_byte (w % 128) >> return tt)
unfolding write_varint_loop
loop_last k w t = let e : (suc k == 0) ≡ false = ground arith in rw (t, e) refl

write_varint_loop-Writes :
    (k w : ℕ)
    → w < 128 ^ suc k
    → Writes (write_varint_loop (suc (suc k)) w) (digits (suc (suc k)) w)
write_varint_loop-Writes zero w h =
    rw (loop_last zero w (ground arith), digits_last 1 w (ground arith))
      (Writes-bind _ _ (w % 128 ∷ []) [] (write_byte-Writes (w % 128)) return-Writes)
write_varint_loop-Writes (suc k) w h = elim (Bool-cases (ltb 0 (w / 128))) [
  | inl t ↦
      rw (loop_more (suc (suc k)) w t, digits_more (suc (suc k)) w t)
        (Writes-bind _ _ ((w % 128 + 128) ∷ []) (digits (suc (suc k)) (w / 128))
          (write_byte-Writes _)
          (write_varint_loop-Writes k (w / 128) (omega (arith, pow-suc 128 (suc k)))))
  | inr t ↦
      rw (loop_last (suc k) w t, digits_last (suc (suc k)) w t)
        (Writes-bind _ _ (w % 128 ∷ []) [] (write_byte-Writes (w % 128)) return-Writes)
]

pub write_varint-Writes : (w : ℕ) → w < 2 ^ 28 → Writes (write_varint w) (format_varint w)
unfolding write_varint
write_varint-Writes w h =
    Writes-eq _ (digits 5 w) (format_varint w) (unfold format_varint digits in ground arith)
      (write_varint_loop-Writes 3 w (omega arith))
