-- ===== src/Property/Total.antt =====
-- The loop of `property__read_all` ends: no step of it is a fault, and its fuel is enough.
use dimq.Property.Kinds.{
  unsupported, text_pair, binary, text, variable, four_bytes, two_bytes, byte, read_kind, Property,
  Kind,
}
use dimq.Property.Format.{length-format_property, format_property}
use dimq.Prelude.{
  length-append, ◌∙◌, ap, subst, inr, inl, refl, Bool-cases, ◌<◌, arith, ℕ, zero, suc, ◌^◌, ◌≡◌,
  ◌≢◌, ◌==◌, List, [], ◌∷◌, length,
}
use dimq.Packet.Format.{
  format_binary, format_varint, parse_binary, parse_string, parse_uint16, parse_varint,
  parse_uint32, parse_byte,
}
use dimq.Property.Lists.{parse_property-ok, parse_malloc-ok}
use dimq.Packet.Safe.{
  parse_binary-ne-fault, parse_string-ok, parse_uint16-ne-fault, parse_varint-ne-fault,
}
use dimq.Utf8.Sound.{AllBytes-append, AllBytes}
use dimq.Property.{minus32}
use dimq.Packet.Basic.{parse_malloc}
use dimq.Packet.Laws.{parse_varint_canonical}
use dimq.Packet.{Heap}
use dimq.Property.Parse.{parse_value, parse_property, parse_properties, done}
use dimq.Packet.Parse.{after, Parse, chain}
use dimq.Result.{Result, ok, err, fault}

pub chain-ne-fault :
    {A B : Type 0} (s : Parse A) (t : A → Parse B) (bs : List ℕ) (h : Heap)
    → s bs h ≢ fault
    → ((y : A × List ℕ × Heap) → s bs h ≡ ok y → t y.0 y.1 y.2 ≢ fault)
    → chain s t bs h ≢ fault
chain-ne-fault {A} s t bs h n k = go (s bs h) refl
  where
    go : (r : Result (A × List ℕ × Heap)) → s bs h ≡ r → after r t ≢ fault
    go (ok y) e = k y e
    go (err z) e = λ q. absurd (ground arith)
    go fault e = λ q. n e

parse_byte-ne-fault : (bs : List ℕ) (h : Heap) → parse_byte bs h ≢ fault
unfolding parse_byte
parse_byte-ne-fault [] h e = cc
parse_byte-ne-fault (b ∷ bs) h e = cc

parse_uint32-ne-fault : (bs : List ℕ) (h : Heap) → parse_uint32 bs h ≢ fault
unfolding parse_uint32
parse_uint32-ne-fault [] h e = cc
parse_uint32-ne-fault (a ∷ []) h e = cc
parse_uint32-ne-fault (a ∷ b ∷ []) h e = cc
parse_uint32-ne-fault (a ∷ b ∷ c ∷ []) h e = cc
parse_uint32-ne-fault (a ∷ b ∷ c ∷ d ∷ bs) h e = cc

pub done-ne-fault : {A : Type 0} (a : A) (bs : List ℕ) (h : Heap) → done a bs h ≢ fault
done-ne-fault a bs h e = cc

parse_value-ne-fault :
    (k : Kind) (n len : ℕ) (bs : List ℕ) (h : Heap) → AllBytes bs → parse_value k n len bs h ≢ fault
unfolding parse_value
parse_value-ne-fault byte n len bs h b =
    chain-ne-fault parse_byte _ bs h (parse_byte-ne-fault bs h)
      λ y _. done-ne-fault {A = ℕ × Property} _ y.1 y.2
parse_value-ne-fault two_bytes n len bs h b =
    chain-ne-fault parse_uint16 _ bs h (parse_uint16-ne-fault bs h)
      λ y _. done-ne-fault {A = ℕ × Property} _ y.1 y.2
parse_value-ne-fault four_bytes n len bs h b =
    chain-ne-fault parse_uint32 _ bs h (parse_uint32-ne-fault bs h)
      λ y _. done-ne-fault {A = ℕ × Property} _ y.1 y.2
parse_value-ne-fault variable n len bs h b =
    chain-ne-fault parse_varint _ bs h (parse_varint-ne-fault bs h)
      λ y _. done-ne-fault {A = ℕ × Property} _ y.1 y.2
parse_value-ne-fault text n len bs h b =
    chain-ne-fault parse_string _ bs h (parse_string-ok bs h b).0
      λ y _. done-ne-fault {A = ℕ × Property} _ y.1 y.2
parse_value-ne-fault binary n len bs h b =
    chain-ne-fault parse_binary _ bs h (parse_binary-ne-fault bs h)
      λ y _. done-ne-fault {A = ℕ × Property} _ y.1 y.2
parse_value-ne-fault text_pair n len bs h b =
    chain-ne-fault parse_string _ bs h (parse_string-ok bs h b).0 λ (s, r, g) e.
      let (_, _, split) = (parse_string-ok bs h b).1 s r g e in
      let b' = AllBytes-append (format_binary s) r (subst AllBytes split b) in
      chain-ne-fault parse_string _ r g (parse_string-ok r g b').0
        λ y _. done-ne-fault {A = ℕ × Property} _ y.1 y.2
parse_value-ne-fault unsupported n len bs h b = λ e. cc

parse_property-ne-fault :
    (len : ℕ) (bs : List ℕ) (h : Heap) → AllBytes bs → parse_property len bs h ≢ fault
unfolding parse_property
parse_property-ne-fault len bs h b =
    chain-ne-fault parse_varint _ bs h (parse_varint-ne-fault bs h) λ ((n, count), r, k) p.
      let (_, split, _, _) = parse_varint_canonical h k n count r bs b p in
      parse_value-ne-fault (read_kind n) n (minus32 len 1) r k
        (AllBytes-append (format_varint n) r (subst AllBytes split b))

pub parse_properties-ne-fault :
    (fuel len : ℕ) (bs : List ℕ) (h : Heap)
    → len < 2 ^ 32
    → length bs < 2 ^ 31
    → length bs < fuel
    → AllBytes bs
    → parse_properties fuel len bs h ≢ fault
unfolding parse_properties
parse_properties-ne-fault zero len bs h small short enough b = absurd (omega arith)
parse_properties-ne-fault (suc fuel) len bs h small short enough b = elim (Bool-cases (len == 0)) [
  | inl t ↦ rw t (λ e. cc)
  | inr t ↦ rw t (
      chain-ne-fault parse_malloc _ bs h (λ e. absurd (ground arith))
        λ (u, r0, k0) p0.
          let same = parse_malloc-ok bs h u r0 k0 p0 in
          let b0 = subst AllBytes same b in
          let short0 = subst (λ u. length u < 2 ^ 31) same short in
          chain-ne-fault (parse_property len) _ r0 k0 (parse_property-ne-fault len r0 k0 b0)
            λ ((len', prop), r1, k1) p1.
              let one = parse_property-ok len r0 k0 len' prop r1 k1 small short0 b0 p1 in
              let b1 = AllBytes-append (format_property prop) r1 (subst AllBytes one.split b0) in
              let size = ap length one.split ∙ length-append (format_property prop) r1 in
              let least = length-format_property prop one.fits in
              chain-ne-fault (parse_properties fuel len') _ r1 k1
                (parse_properties-ne-fault fuel len' r1 k1 (omega (arith, one.counted))
                  (omega (arith, short0, size)) (omega (arith, enough, ap length same, size, least))
                  b1)
                λ y _. done-ne-fault {A = List Property} _ y.1 y.2)
]
