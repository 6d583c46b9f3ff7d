-- ===== src/Packet/Read.antt =====
-- Every reader refines its parser: it answers what the parser answers on the bytes that are left,
-- moves over the bytes that the parser takes, and touches no byte outside the packet.
use dimq.Packet.Format.{
  parse_valid, varint_digits, parse_varint, parse_text, parse_string, parse_body, parse_binary,
  parse_uint32, parse_uint16, parse_byte,
}
use dimq.Packet.{
  keep_valid, malloc, fail, next, varint_loop, uint32_loop, read_varint, read_uint32, read_uint16,
  read_string, read_binary, check_string, binary_body, need, Heap, return, read_byte, M,
}
use dimq.Prelude.{
  ◌++◌, some, false, ◌&&◌, lt→ltb, inr, inl, ◌==◌, true, subst, arith, ℕ, suc, zero, ◌+◌, ◌*◌, ◌%◌,
  ◌<◌, ◌≡◌, List, [], ◌∷◌, length, refl, Bool, ltb, if◌then◌else◌,
}
use dimq.Word.{has_bit, u16, u32}
use dimq.Utf8.{validate_utf8}
use dimq.Packet.Parse.{
  Refines-bind_with, Agrees-bind, unread, Agrees, Parse, Refines, chain, Refines-bind,
}
use dimq.Packet.Basic.{
  copy_out-Refines, malloc-Refines, next-cases, parse_copy, parse_malloc, next-Refines,
  need-Refines, parse_next, parse_need,
}
use dimq.Result.{Status, Err, ok, err, fault, malformed_packet, malformed_utf8}

Refines-eq :
    {A : Type 0} (m : M A) (s t : Parse A)
    → Refines m s
    → ((bs : List ℕ) (h : Heap) → s bs h ≡ t bs h)
    → Refines m t
Refines-eq m s t r e p v = subst (Agrees p (m p)) (e (unread p) p.heap) (r p v)

pub return-Refines : {A : Type 0} (a : A) → Refines (return a) (λ bs h. ok (a, bs, h))
return-Refines a p r = (refl, refl, refl, r, ground arith)

parse_byte_steps :
    (bs : List ℕ) (h : Heap) → chain (parse_need 1) (λ _. parse_next) bs h ≡ parse_byte bs h
unfolding parse_byte
parse_byte_steps [] h = refl
parse_byte_steps (b ∷ bs) h = ground arith

pub read_byte-Refines : Refines read_byte parse_byte
unfolding read_byte
read_byte-Refines =
    Refines-eq _ _ parse_byte
      (Refines-bind (need 1) (parse_need 1) _ _ (need-Refines 1 (omega arith)) λ _. next-Refines)
      parse_byte_steps

abbrev uint16_steps : Parse ℕ
uint16_steps =
    chain (parse_need 2)
      λ _. chain parse_next λ m. chain parse_next λ l bs h. ok (u16 (m * 256 + l), bs, h)

parse_uint16_steps : (bs : List ℕ) (h : Heap) → uint16_steps bs h ≡ parse_uint16 bs h
unfolding parse_uint16
parse_uint16_steps [] h = refl
parse_uint16_steps (a ∷ []) h = ground arith
parse_uint16_steps (a ∷ b ∷ bs) h = ground arith

pub read_uint16-Refines : Refines read_uint16 parse_uint16
unfolding read_uint16
read_uint16-Refines =
    Refines-eq _ uint16_steps parse_uint16
      (Refines-bind (need 2) (parse_need 2) _ _ (need-Refines 2 (omega arith)) λ _.
        Refines-bind next parse_next _ _ next-Refines
          λ m. Refines-bind next parse_next _ _ next-Refines λ l. return-Refines _)
      parse_uint16_steps

abbrev loop_steps : ℕ → ℕ → Parse ℕ
loop_steps zero val = λ bs h. ok (val, bs, h)
loop_steps (suc k) val = chain parse_next λ b. loop_steps k (u32 (val * 256 + b))

uint32_loop-Refines : (k val : ℕ) → Refines (uint32_loop k val) (loop_steps k val)
unfolding uint32_loop
uint32_loop-Refines zero val = return-Refines val
uint32_loop-Refines (suc k) val =
    Refines-bind next parse_next _ _ next-Refines λ b. uint32_loop-Refines k (u32 (val * 256 + b))

parse_uint32_steps :
    (bs : List ℕ) (h : Heap) → chain (parse_need 4) (λ _. loop_steps 4 0) bs h ≡ parse_uint32 bs h
unfolding parse_uint32
parse_uint32_steps [] h = refl
parse_uint32_steps (a ∷ []) h = ground arith
parse_uint32_steps (a ∷ b ∷ []) h = ground arith
parse_uint32_steps (a ∷ b ∷ c ∷ []) h = ground arith
parse_uint32_steps (a ∷ b ∷ c ∷ d ∷ bs) h = ground arith

pub read_uint32-Refines : Refines read_uint32 parse_uint32
unfolding read_uint32
read_uint32-Refines =
    Refines-eq _ _ parse_uint32
      (Refines-bind (need 4) (parse_need 4) _ _ (need-Refines 4 (omega arith))
        λ _. uint32_loop-Refines 4 0)
      parse_uint32_steps

pub Refines-if :
    {A : Type 0} (test : Bool) (m m' : M A) (s s' : Parse A)
    → Refines m s
    → Refines m' s'
    → Refines (if test then m else m') (λ bs h. if test then s bs h else s' bs h)
Refines-if true m m' s s' f g = f
Refines-if false m m' s s' f g = g

pub fail-Refines : (A : Type 0) (e : Err) → Refines (fail {A = A} e) (λ bs h. err e)
fail-Refines A e p r = refl

abbrev last_digit : ℕ → ℕ → ℕ → Parse (ℕ × ℕ)
last_digit acc count byte bs h =
    if ltb 1 (count + 1) && byte == 0 then err malformed_packet else ok ((acc, count + 1), bs, h)

-- One round of either loop, the byte being read.
abbrev digit : ℕ → ℕ → ℕ → ℕ → ℕ → Parse (ℕ × ℕ)
digit k acc mult count byte bs h =
    let acc' = u32 (acc + byte % 128 * mult) in
    if has_bit byte 7
    then varint_digits k acc' (u32 (mult * 128)) (count + 1) bs h
    else last_digit acc' count byte bs h

abbrev digit_read : ℕ → ℕ → ℕ → ℕ → ℕ → M (ℕ × ℕ)
digit_read k acc mult count byte =
    let acc' = u32 (acc + byte % 128 * mult) in
    if has_bit byte 7
    then varint_loop k acc' (u32 (mult * 128)) (count + 1)
    else if ltb 1 (count + 1) && byte == 0
    then fail malformed_packet
    else return (acc', count + 1)

digit-Refines :
    (k acc mult count byte : ℕ)
    → Refines
        (varint_loop k (u32 (acc + byte % 128 * mult)) (u32 (mult * 128)) (count + 1))
        (varint_digits k (u32 (acc + byte % 128 * mult)) (u32 (mult * 128)) (count + 1))
    → Refines (digit_read k acc mult count byte) (digit k acc mult count byte)
digit-Refines k acc mult count byte ih =
    let acc' = u32 (acc + byte % 128 * mult) in
    Refines-if (has_bit byte 7) _ _ (varint_digits k acc' (u32 (mult * 128)) (count + 1))
      (last_digit acc' count byte) ih
      (Refines-if (ltb 1 (count + 1) && byte == 0) _ _ (λ bs h. err malformed_packet)
        (λ bs h. ok ((acc', count + 1), bs, h)) (fail-Refines (ℕ × ℕ) malformed_packet)
        (return-Refines {A = ℕ × ℕ} (acc', count + 1)))

varint_loop-Refines :
    (k acc mult count : ℕ) → Refines (varint_loop k acc mult count) (varint_digits k acc mult count)
unfolding varint_loop varint_digits
varint_loop-Refines zero acc mult count p r = refl
varint_loop-Refines (suc k) acc mult count p r = elim (next-cases p r) [
  | inl (e, h) ↦ let past : ltb p.pos p.remaining_length ≡ false = ground arith in rw (e, past) refl
  | inr (b, e, u, h) ↦
      rw (lt→ltb _ _ h, u)
        (Agrees-bind p (next p) (parse_next (b ∷ unread (record p { pos = p.pos + 1 })) p.heap) _
          (digit k acc mult count)
          (λ byte _ _ _. digit-Refines k acc mult count byte (varint_loop-Refines k _ _ _))
          (subst (λ bs. Agrees p (next p) (parse_next bs p.heap)) u (next-Refines p r)))
]

pub read_varint-Refines : Refines read_varint parse_varint
unfolding read_varint parse_varint
read_varint-Refines = varint_loop-Refines 4 0 1 0

abbrev body_steps : ℕ → Parse (List ℕ)
body_steps n = chain (parse_need n) λ _. chain parse_malloc λ _. parse_copy n

parse_body_steps :
    (n : ℕ) (bs : List ℕ) (h : Heap)
    → (if n == 0 then ok ([], bs, h) else body_steps n bs h) ≡ parse_body n bs h
unfolding parse_body
parse_body_steps n bs h = ground arith

binary_body-Refines : (n : ℕ) → n < 65536 → Refines (binary_body n) (parse_body n)
unfolding binary_body
binary_body-Refines n h =
    Refines-eq _ _ (parse_body n)
      (Refines-if (n == 0) _ _ (λ bs h. ok ([], bs, h)) (body_steps n) (return-Refines [])
        (Refines-bind (need n) (parse_need n) _ _ (need-Refines n (omega arith))
          λ _. Refines-bind malloc parse_malloc _ _ malloc-Refines λ _. copy_out-Refines n))
      (parse_body_steps n)

uint16-lt :
    (bs : List ℕ) (g : Heap) (a : ℕ) (r : List ℕ) (h : Heap)
    → parse_uint16 bs g ≡ ok (a, r, h)
    → a < 65536
unfolding parse_uint16
uint16-lt [] g a r h e = cc
uint16-lt (x ∷ []) g a r h e = cc
uint16-lt (x ∷ y ∷ bs) g a r h e = ground arith

pub read_binary-Refines : Refines read_binary parse_binary
unfolding read_binary parse_binary
read_binary-Refines =
    Refines-bind_with (λ n. n < 65536) read_uint16 parse_uint16 _ _ read_uint16-Refines uint16-lt
      binary_body-Refines

keep_valid-Refines : (str : List ℕ) (r : Status) → Refines (keep_valid str r) (parse_valid str r)
keep_valid-Refines str (ok _) = return-Refines str
keep_valid-Refines str (err _) = fail-Refines (List ℕ) malformed_utf8
keep_valid-Refines str fault = λ p r. tt

check_string-Refines : (str : List ℕ) → Refines (check_string str) (parse_text str)
unfolding check_string parse_text
check_string-Refines str =
    let check = validate_utf8 (some (str ++ 0 ∷ [])) (length str) in
    Refines-if (length str == 0) _ _ (λ bs h. ok (str, bs, h)) (parse_valid str check)
      (return-Refines str) (keep_valid-Refines str check)

pub read_string-Refines : Refines read_string parse_string
unfolding read_string parse_string
read_string-Refines =
    Refines-bind read_binary parse_binary _ _ read_binary-Refines check_string-Refines
