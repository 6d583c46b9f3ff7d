-- ===== src/Property/ReadAll.antt =====
-- `property__read_all`: what it accepts, and that it answers on every packet.
use dimq.Property.Lists.{Properties, parse_properties-ok}
use dimq.Property.Total.{done-ne-fault, parse_properties-ne-fault, chain-ne-fault}
use dimq.Prelude.{
  length-append, ◌∙◌, ap, subst, refl, ◌^◌, length, ℕ, suc, ◌<◌, ◌≡◌, ◌≢◌, List, [], ◌∷◌, ◌++◌,
  arith,
}
use dimq.Packet.Safe.{Agrees-same, Agrees-ok_inv, parse_varint-ne-fault, Agrees-ne-fault, chain-ok}
use dimq.Utf8.Sound.{AllBytes-append, AllBytes}
use dimq.Property.Format.{format_properties, AllFit, Fits}
use dimq.Packet.Laws.{parse_varint_canonical}
use dimq.Result.{err, success, ok, Status, Result, fault}
use dimq.Packet.Read.{return-Refines, read_varint-Refines}
use dimq.Packet.Format.{format_varint, parse_varint}
use dimq.Packet.Basic.{length-unread}
use dimq.Property.Parse.{read_properties-Refines, done, parse_properties}
use dimq.Property.Check.{
  check_all, check_value, check_command, check_duplicate, check_i8, check_i16, check_i32,
}
use dimq.Property.Kinds.{
  Property, Value, none_set, i8, i16, i32, varint, bin, str, read_kind, byte, two_bytes, four_bytes,
}
use dimq.Property.{read_all, read_properties, lift}
use dimq.Packet.{M, Packet, Heap, read_varint, return, ◌>>=◌, ◌>>◌}
use dimq.Packet.Parse.{Parse, Refines, IsReadable, unread, chain, Agrees, Refines-bind}

check_i8-ne-fault : (v : Value) (name : List ℕ) → Fits byte v name → check_i8 v ≢ fault
check_i8-ne-fault none_set name f e = f
check_i8-ne-fault (i8 v) name f e = ground arith
check_i8-ne-fault (i16 v) name f e = f
check_i8-ne-fault (i32 v) name f e = f
check_i8-ne-fault (varint v) name f e = f
check_i8-ne-fault (bin v) name f e = f
check_i8-ne-fault (str v) name f e = f

check_i16-ne-fault : (v : Value) (name : List ℕ) → Fits two_bytes v name → check_i16 v ≢ fault
check_i16-ne-fault none_set name f e = f
check_i16-ne-fault (i8 v) name f e = f
check_i16-ne-fault (i16 v) name f e = ground arith
check_i16-ne-fault (i32 v) name f e = f
check_i16-ne-fault (varint v) name f e = f
check_i16-ne-fault (bin v) name f e = f
check_i16-ne-fault (str v) name f e = f

check_i32-ne-fault : (v : Value) (name : List ℕ) → Fits four_bytes v name → check_i32 v ≢ fault
check_i32-ne-fault none_set name f e = f
check_i32-ne-fault (i8 v) name f e = f
check_i32-ne-fault (i16 v) name f e = f
check_i32-ne-fault (i32 v) name f e = ground arith
check_i32-ne-fault (varint v) name f e = f
check_i32-ne-fault (bin v) name f e = f
check_i32-ne-fault (str v) name f e = f

check_value-ne-fault :
    (p : Property) → Fits (read_kind p.identifier) p.value p.name → check_value p ≢ fault
unfolding check_value read_kind
check_value-ne-fault p f e = ground (
  arith,
  check_i8-ne-fault p.value p.name,
  check_i16-ne-fault p.value p.name,
  check_i32-ne-fault p.value p.name,
)

check_command-ne-fault : (c n : ℕ) → check_command c n ≢ fault
unfolding check_command
check_command-ne-fault c n e = ground arith

check_duplicate-ne-fault : (p : Property) (ps : List Property) → check_duplicate p ps ≢ fault
check_duplicate-ne-fault p ps e = ground arith

-- The checks on a list whose values are the members that the identifiers ask for read no other.
pub check_all-ne-fault :
    (command : ℕ) (ps : List Property) → AllFit ps → check_all command ps ≢ fault
unfolding check_all
check_all-ne-fault command [] f e = cc
check_all-ne-fault command (p ∷ ps) f e = ground (
  arith,
  check_value-ne-fault p f.0,
  check_command-ne-fault command p.identifier,
  check_duplicate-ne-fault p ps,
  check_all-ne-fault command ps f.1,
)

abbrev pub parse_check : Status → Parse (Unit {0})
parse_check (ok u) bs h = ok (u, bs, h)
parse_check (err e) bs h = err e
parse_check fault bs h = fault

lift-Refines : (code : Status) → Refines (lift code) (parse_check code)
lift-Refines (ok u) p r = return-Refines u p r
lift-Refines (err e) p r = refl
lift-Refines fault p r = tt

abbrev pub read_list : ℕ → ℕ → ℕ → M (List Property)
read_list fuel command proplen = do
  props ← read_properties fuel proplen
  lift (check_all command props)
  return props

abbrev pub parse_list : ℕ → ℕ → ℕ → Parse (List Property)
parse_list fuel command proplen =
    chain (parse_properties fuel proplen)
      λ props. chain (parse_check (check_all command props)) λ _. done props

abbrev pub parse_all : ℕ → ℕ → Parse (List Property)
parse_all fuel command = chain parse_varint λ (proplen, count). parse_list fuel command proplen

read_list-Refines :
    (fuel command proplen : ℕ)
    → Refines (read_list fuel command proplen) (parse_list fuel command proplen)
read_list-Refines fuel command proplen =
    Refines-bind (read_properties fuel proplen) (parse_properties fuel proplen) _ _
      (read_properties-Refines fuel proplen)
      λ props.
        Refines-bind (lift (check_all command props)) (parse_check (check_all command props)) _ _
          (lift-Refines (check_all command props)) λ _. return-Refines props

pub read_all-Agrees :
    (command : ℕ) (p : Packet)
    → IsReadable p
    → Agrees p (read_all command p) (parse_all (suc p.remaining_length) command (unread p) p.heap)
unfolding read_all
read_all-Agrees command p r =
    Refines-bind read_varint parse_varint
      (λ (proplen, count). read_list (suc p.remaining_length) command proplen) _ read_varint-Refines
      (λ (proplen, count). read_list-Refines (suc p.remaining_length) command proplen) p r

-- What `property__read_all` has taken and returned.
pub record Accepted (command : ℕ) (bs : List ℕ) (props : List Property) (rest : List ℕ)
    : Type 0 where
  pub fit : AllFit props
  pub checked : check_all command props ≡ success
  pub taken :
      bs ≡ format_varint (length (format_properties props)) ++ (format_properties props ++ rest)
  pub small : length (format_properties props) < 2 ^ 28

abbrev AcceptedOf : ℕ → List ℕ → Result (List Property × List ℕ × Heap) → Type 0
AcceptedOf command bs (ok (props, rest, g)) = Accepted command bs props rest
AcceptedOf command bs (err e) = ⊥
AcceptedOf command bs fault = ⊥

parse_check-ok :
    (code : Status) (bs : List ℕ) (h : Heap) (u : Unit {0}) (r : List ℕ) (g : Heap)
    → parse_check code bs h ≡ ok (u, r, g)
    → (code ≡ success) × (bs ≡ r)
parse_check-ok (ok tt) bs h u r g e = ground arith
parse_check-ok (err x) bs h u r g e = cc
parse_check-ok fault bs h u r g e = cc

parse_check-ne-fault :
    (code : Status) (bs : List ℕ) (h : Heap) → code ≢ fault → parse_check code bs h ≢ fault
parse_check-ne-fault (ok tt) bs h n e = cc
parse_check-ne-fault (err x) bs h n e = cc
parse_check-ne-fault fault bs h n e = n refl

accept :
    (command len : ℕ) (bs r0 r1 : List ℕ) (ps : List Property)
    → bs ≡ format_varint len ++ r0
    → len < 2 ^ 28
    → Properties len r0 ps r1
    → check_all command ps ≡ success
    → Accepted command bs ps r1
accept command len bs r0 r1 ps split small out good = record {
  fit = out.fit;
  checked = good;
  taken =
      split
      ∙ ap (λ n. format_varint n ++ r0) out.measured
      ∙ ap (λ u. format_varint (length (format_properties ps)) ++ u) out.taken;
  small = subst (λ n. n < 2 ^ 28) out.measured small;
}

module _ (fuel command : ℕ) (bs : List ℕ) (h : Heap) (short : length bs < 2 ^ 31)
    (b : AllBytes bs) where
  parse_all-ok :
      (props : List Property) (rest : List ℕ) (g : Heap)
      → parse_all fuel command bs h ≡ ok (props, rest, g)
      → Accepted command bs props rest
  parse_all-ok props rest g e =
      let (((len, count), r0, k0), p0, q0) = chain-ok parse_varint _ bs h (props, rest, g) e in
      let (small, split, _, _) = parse_varint_canonical h k0 len count r0 bs b p0 in
      let b0 = AllBytes-append (format_varint len) r0 (subst AllBytes split b) in
      let size = ap length split ∙ length-append (format_varint len) r0 in
      let ((ps, r1, k1), p1, q1) =
        chain-ok (parse_properties fuel len) _ r0 k0 (props, rest, g) q0 in
      let out =
        parse_properties-ok fuel len r0 k0 ps r1 k1 (omega arith) (omega (arith, short, size)) b0
          p1 in
      let ((u, r2, k2), p2, q2) =
        chain-ok (parse_check (check_all command ps)) _ r1 k1 (props, rest, g) q1 in
      let (good, same) = parse_check-ok (check_all command ps) r1 k1 u r2 k2 p2 in
      subst (AcceptedOf command bs) q2
        (accept command len bs r0 r2 ps split small (subst (Properties len r0 ps) same out) good)

  parse_all-ne-fault : length bs < fuel → parse_all fuel command bs h ≢ fault
  parse_all-ne-fault enough =
      chain-ne-fault parse_varint _ bs h (parse_varint-ne-fault bs h) λ ((len, count), r0, k0) p0.
        let (small, split, _, _) = parse_varint_canonical h k0 len count r0 bs b p0 in
        let b0 = AllBytes-append (format_varint len) r0 (subst AllBytes split b) in
        let size = ap length split ∙ length-append (format_varint len) r0 in
        let short0 : length r0 < 2 ^ 31 = omega (arith, short, size) in
        chain-ne-fault (parse_properties fuel len) _ r0 k0
          (parse_properties-ne-fault fuel len r0 k0 (omega arith) short0
            (omega (arith, enough, size)) b0)
          λ (ps, r1, k1) p1.
            let out = parse_properties-ok fuel len r0 k0 ps r1 k1 (omega arith) short0 b0 p1 in
            chain-ne-fault (parse_check (check_all command ps)) _ r1 k1
              (parse_check-ne-fault (check_all command ps) r1 k1
                (check_all-ne-fault command ps out.fit))
              λ y _. done-ne-fault {A = List Property} _ y.1 y.2

-- On every readable packet of bytes `property__read_all` ends and touches nothing outside of the
-- packet. Properties that it returns fit their identifiers and pass `dimq_property_check_all` for
-- the command, and the bytes it took are the property length and the properties, in the one form
-- that the standard gives them.
pub read_all_sound :
    (command : ℕ) (p : Packet)
    → IsReadable p
    → AllBytes (unread p)
    → ((read_all command p).0 ≢ fault)
      × ((props : List Property) (q : Packet)
          → read_all command p ≡ (ok props, q)
          → Accepted command (unread p) props (unread q) × (q.payload ≡ p.payload))
read_all_sound command p r b =
    let g = read_all-Agrees command p r in
    let size = length-unread p r in
    let short : length (unread p) < 2 ^ 31 = omega (arith, r.sized, size) in
    let y = parse_all (suc p.remaining_length) command (unread p) p.heap in
    let n : y ≢ fault =
      parse_all-ne-fault (suc p.remaining_length) command (unread p) p.heap short b
        (omega (arith, size)) in
    (
      Agrees-ne-fault p (read_all command p) _ g n,
      λ props q e.
          let g' = subst (λ x. Agrees p x y) e g in
          (
            parse_all-ok (suc p.remaining_length) command (unread p) p.heap short b props (unread q)
                q.heap (Agrees-ok_inv p q props y g' n),
            (Agrees-same p q props y g' n).same_payload,
          ),
    )
